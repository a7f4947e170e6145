-- ===== src/Channel/Setters.antt =====
-- The setters of `ChannelBuilder` in src/channel/endpoint.rs.
use tonic_transport_native.Common.{ℕ, Bool, Option, none, some, Bytes}
use tonic_transport_native.Runtime.{Result, ok, err}
use tonic_transport_native.Error.{Error, invalid_user_agent}
use tonic_transport_native.Duration.{Duration}
use tonic_transport_native.Channel.Builder.{ChannelBuilder}

module _ {U C V : Type 0} where
  -- `try_into` is the conversion to a header value.
  unfoldable pub user_agent :
      {T X : Type 0}
      → (T → Option V)
      → ChannelBuilder U C V
      → T
      → Result (ChannelBuilder U C V) (Error X)
  user_agent try_into b value = elim (try_into value) [
    | some ua ↦ ok (record b { user_agent = some ua })
    | none ↦ err invalid_user_agent
  ]

  unfoldable pub origin : ChannelBuilder U C V → U → ChannelBuilder U C V
  origin b value = record b { origin = some value }

  unfoldable pub tls_verify_domain : ChannelBuilder U C V → Bytes → ChannelBuilder U C V
  tls_verify_domain b value = record b { tls_verify_domain = some value }

  unfoldable pub timeout : ChannelBuilder U C V → Duration → ChannelBuilder U C V
  timeout b dur = record b { timeout = some dur }

  unfoldable pub connect_timeout : ChannelBuilder U C V → Duration → ChannelBuilder U C V
  connect_timeout b dur = record b { connect_timeout = some dur }

  unfoldable pub tcp_keepalive : ChannelBuilder U C V → Option Duration → ChannelBuilder U C V
  tcp_keepalive b value = record b { tcp_keepalive = value }

  unfoldable pub concurrency_limit : ChannelBuilder U C V → ℕ → ChannelBuilder U C V
  concurrency_limit b limit = record b { concurrency_limit = some limit }

  unfoldable pub rate_limit : ChannelBuilder U C V → ℕ → Duration → ChannelBuilder U C V
  rate_limit b limit duration = record b { rate_limit = some (limit, duration) }

  unfoldable pub initial_stream_window_size : ChannelBuilder U C V → Option ℕ → ChannelBuilder U C V
  initial_stream_window_size b value = record b { init_stream_window_size = value }

  unfoldable pub initial_connection_window_size :
      ChannelBuilder U C V → Option ℕ → ChannelBuilder U C V
  initial_connection_window_size b value = record b { init_connection_window_size = value }

  unfoldable pub tcp_nodelay : ChannelBuilder U C V → Bool → ChannelBuilder U C V
  tcp_nodelay b enabled = record b { tcp_nodelay = enabled }

  unfoldable pub http2_keep_alive_interval : ChannelBuilder U C V → Duration → ChannelBuilder U C V
  http2_keep_alive_interval b value = record b { http2_keep_alive_interval = some value }

  unfoldable pub keep_alive_timeout : ChannelBuilder U C V → Duration → ChannelBuilder U C V
  keep_alive_timeout b value = record b { http2_keep_alive_timeout = some value }

  unfoldable pub keep_alive_while_idle : ChannelBuilder U C V → Bool → ChannelBuilder U C V
  keep_alive_while_idle b value = record b { http2_keep_alive_while_idle = some value }

  unfoldable pub http2_adaptive_window : ChannelBuilder U C V → Bool → ChannelBuilder U C V
  http2_adaptive_window b value = record b { http2_adaptive_window = some value }
