-- ===== src/Server/Builder.antt =====
-- `Server`, its `builder` and its `layer` of src/server/mod.rs.
use tonic_transport_native.Common.{ℕ, Bool, true, Option, none}
use tonic_transport_native.Duration.{Duration}

-- A trace interceptor (`Tr`), the acceptor of TLS (`A`) and tower's `ServiceBuilder` (`L`) are
-- parameters.
pub record Server (Tr A L : Type 0) : Type 0 where
  pub trace_interceptor : Option Tr
  pub concurrency_limit : Option ℕ
  pub timeout : Option Duration
  pub tls : A
  pub init_stream_window_size : Option ℕ
  pub init_connection_window_size : Option ℕ
  pub max_concurrent_streams : Option ℕ
  pub tcp_keepalive : Option Duration
  pub tcp_nodelay : Bool
  pub http2_keepalive_interval : Option Duration
  pub http2_keepalive_timeout : Option Duration
  pub http2_adaptive_window : Option Bool
  pub max_frame_size : Option ℕ
  pub service_builder : L

-- `acceptor` is what `TlsAcceptor::new` makes, and `identity` the default `ServiceBuilder`.
unfoldable pub builder : {Tr A L : Type 0} → A → L → Server Tr A L
builder acceptor identity = record {
  trace_interceptor = none;
  concurrency_limit = none;
  timeout = none;
  tls = acceptor;
  init_stream_window_size = none;
  init_connection_window_size = none;
  max_concurrent_streams = none;
  tcp_keepalive = none;
  tcp_nodelay = true;
  http2_keepalive_interval = none;
  http2_keepalive_timeout = none;
  http2_adaptive_window = none;
  max_frame_size = none;
  service_builder = identity;
}

-- `push` is `ServiceBuilder::layer`.
unfoldable pub layer : {Tr A L N L' : Type 0} → (L → N → L') → Server Tr A L → N → Server Tr A L'
layer push s new_layer = record {
  service_builder = push s.service_builder new_layer;
  trace_interceptor = s.trace_interceptor;
  concurrency_limit = s.concurrency_limit;
  timeout = s.timeout;
  tls = s.tls;
  init_stream_window_size = s.init_stream_window_size;
  init_connection_window_size = s.init_connection_window_size;
  max_concurrent_streams = s.max_concurrent_streams;
  tcp_keepalive = s.tcp_keepalive;
  tcp_nodelay = s.tcp_nodelay;
  http2_keepalive_interval = s.http2_keepalive_interval;
  http2_keepalive_timeout = s.http2_keepalive_timeout;
  http2_adaptive_window = s.http2_adaptive_window;
  max_frame_size = s.max_frame_size;
}
