-- ===== src/Channel/Builder.antt =====
-- `ChannelBuilder`, `ChannelBuilder::new` and `IntoUri` of src/channel/endpoint.rs and
-- src/channel/mod.rs.
use tonic_transport_native.Common.{ℕ, Bool, true, Option, none, Bytes}
use tonic_transport_native.Runtime.{Result, ok, err, Exec, done, ◌>>=◌, map_err}
use tonic_transport_native.Error.{Error, new_invalid_uri}
use tonic_transport_native.Duration.{Duration}

-- A URI (`U`), a TLS connector of tokio_native_tls (`C`) and a header value (`V`) are parameters.
pub record ChannelBuilder (U C V : Type 0) : Type 0 where
  pub uri : U
  pub tls : C
  pub tls_verify_domain : Option Bytes
  pub origin : Option U
  pub user_agent : Option V
  pub timeout : Option Duration
  pub concurrency_limit : Option ℕ
  pub rate_limit : Option (ℕ × Duration)
  pub buffer_size : Option ℕ
  pub init_stream_window_size : Option ℕ
  pub init_connection_window_size : Option ℕ
  pub tcp_keepalive : Option Duration
  pub tcp_nodelay : Bool
  pub http2_keep_alive_interval : Option Duration
  pub http2_keep_alive_timeout : Option Duration
  pub http2_keep_alive_while_idle : Option Bool
  pub connect_timeout : Option Duration
  pub http2_adaptive_window : Option Bool

-- What is turned into a URI: the implementations of `IntoUri`.
pub data IntoUri (U : Type 0) : Type 0 where
  of_uri : U → IntoUri U
  of_static : Bytes → IntoUri U
  of_string : Bytes → IntoUri U
  of_bytes : Bytes → IntoUri U

module _ {U P X : Type 0} (from_static : Bytes → Exec U) (from_maybe_shared : Bytes → Result U P)
    (to_string : P → Bytes) where
  unfoldable pub bytes_into_uri : Bytes → Result U (Error X)
  bytes_into_uri b = map_err (λ e. new_invalid_uri (to_string e)) (from_maybe_shared b)

  unfoldable pub into_uri : IntoUri U → Exec (Result U (Error X))
  into_uri (of_uri u) = done (ok u)
  into_uri (of_static s) = do u ← from_static s; done (ok u)
  into_uri (of_string s) = done (bytes_into_uri s)
  into_uri (of_bytes b) = done (bytes_into_uri b)

-- The builder with its defaults.
unfoldable pub with_defaults : {U C V : Type 0} → U → C → ChannelBuilder U C V
with_defaults uri tls = record {
  uri = uri;
  tls = tls;
  tls_verify_domain = none;
  origin = none;
  user_agent = none;
  timeout = none;
  concurrency_limit = none;
  rate_limit = none;
  buffer_size = none;
  init_stream_window_size = none;
  init_connection_window_size = none;
  tcp_keepalive = none;
  tcp_nodelay = true;
  http2_keep_alive_interval = none;
  http2_keep_alive_timeout = none;
  http2_keep_alive_while_idle = none;
  connect_timeout = none;
  http2_adaptive_window = none;
}

unfoldable pub new :
    {U C V X : Type 0} → Result U (Error X) → C → Result (ChannelBuilder U C V) (Error X)
new (ok uri) tls = ok (with_defaults uri tls)
new (err e) tls = err e

-- `Channel::builder`.
unfoldable pub builder :
    {U C V X : Type 0} → Result U (Error X) → C → Result (ChannelBuilder U C V) (Error X)
builder uri tls = new uri tls

-- The getter `uri`.
unfoldable pub uri_of : {U C V : Type 0} → ChannelBuilder U C V → U
uri_of b = b.uri
