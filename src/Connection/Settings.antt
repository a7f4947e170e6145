-- ===== src/Connection/Settings.antt =====
-- How src/service/connection.rs sets up hyper's `Builder` of connections.
use tonic_transport_native.Common.{ℕ, Bool, true, Option, none, some}
use tonic_transport_native.Duration.{Duration}
use tonic_transport_native.Channel.Builder.{ChannelBuilder}

-- What the source uses of `hyper::client::conn::Builder`.
pub record HyperBuilder (B : Type 0) : Type 0 where
  pub new : B
  pub http2_initial_stream_window_size : B → Option ℕ → B
  pub http2_initial_connection_window_size : B → Option ℕ → B
  pub http2_only : B → Bool → B
  pub http2_keep_alive_interval : B → Option Duration → B
  pub http2_keep_alive_timeout : B → Duration → B
  pub http2_keep_alive_while_idle : B → Bool → B
  pub http2_adaptive_window : B → Bool → B

-- `if let Some(val) = … { settings.set(val) }`.
abbrev pub set_some : {A B : Type 0} → (B → A → B) → Option A → B → B
set_some set none b = b
set_some set (some val) b = set b val

unfoldable pub settings : {B U C V : Type 0} → HyperBuilder B → ChannelBuilder U C V → B
settings hyper endpoint =
    let b = hyper.http2_initial_stream_window_size hyper.new endpoint.init_stream_window_size in
    let b = hyper.http2_initial_connection_window_size b endpoint.init_connection_window_size in
    let b = hyper.http2_only b true in
    let b = hyper.http2_keep_alive_interval b endpoint.http2_keep_alive_interval in
    let b = set_some hyper.http2_keep_alive_timeout endpoint.http2_keep_alive_timeout b in
    let b = set_some hyper.http2_keep_alive_while_idle endpoint.http2_keep_alive_while_idle b in
    set_some hyper.http2_adaptive_window endpoint.http2_adaptive_window b
