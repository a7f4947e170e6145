-- ===== src/Server/Setters.antt =====
-- The setters of `Server` in src/server/mod.rs.
use tonic_transport_native.Common.{ℕ, Bool, Option, some}
use tonic_transport_native.Duration.{Duration}
use tonic_transport_native.Server.Builder.{Server}

module _ {Tr A L : Type 0} where
  unfoldable pub concurrency_limit_per_connection : Server Tr A L → ℕ → Server Tr A L
  concurrency_limit_per_connection s limit = record s { concurrency_limit = some limit }

  unfoldable pub timeout : Server Tr A L → Duration → Server Tr A L
  timeout s value = record s { timeout = some value }

  unfoldable pub initial_stream_window_size : Server Tr A L → Option ℕ → Server Tr A L
  initial_stream_window_size s sz = record s { init_stream_window_size = sz }

  unfoldable pub initial_connection_window_size : Server Tr A L → Option ℕ → Server Tr A L
  initial_connection_window_size s sz = record s { init_connection_window_size = sz }

  unfoldable pub max_concurrent_streams : Server Tr A L → Option ℕ → Server Tr A L
  max_concurrent_streams s max = record s { max_concurrent_streams = max }

  unfoldable pub http2_keepalive_interval : Server Tr A L → Option Duration → Server Tr A L
  http2_keepalive_interval s value = record s { http2_keepalive_interval = value }

  unfoldable pub http2_keepalive_timeout : Server Tr A L → Option Duration → Server Tr A L
  http2_keepalive_timeout s value = record s { http2_keepalive_timeout = value }

  unfoldable pub http2_adaptive_window : Server Tr A L → Option Bool → Server Tr A L
  http2_adaptive_window s enabled = record s { http2_adaptive_window = enabled }

  unfoldable pub tcp_keepalive : Server Tr A L → Option Duration → Server Tr A L
  tcp_keepalive s value = record s { tcp_keepalive = value }

  unfoldable pub tcp_nodelay : Server Tr A L → Bool → Server Tr A L
  tcp_nodelay s enabled = record s { tcp_nodelay = enabled }

  unfoldable pub max_frame_size : Server Tr A L → Option ℕ → Server Tr A L
  max_frame_size s frame_size = record s { max_frame_size = frame_size }

  unfoldable pub trace_fn : Server Tr A L → Tr → Server Tr A L
  trace_fn s f = record s { trace_interceptor = some f }
