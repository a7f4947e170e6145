-- ===== src/Server/Serve.antt =====
-- How the server of src/server/mod.rs is run: the settings of hyper's server, and the ways to serve.
-- What an `await` comes to is a result.
use tonic_transport_native.Common.{ℕ, Bool, true, false, Option, none, some, unwrap_or}
use tonic_transport_native.Runtime.{Result, ok, map_err}
use tonic_transport_native.Attempt.{◌>>=◌}
use tonic_transport_native.Error.{Error, foreign, from_source}
use tonic_transport_native.Duration.{Duration}
use tonic_transport_native.Incoming.Tcp.{AddrIncoming, TcpIncoming}
use tonic_transport_native.Incoming.Tcp as Tcp
use tonic_transport_native.Router.Routes.{Routes, Router}
use tonic_transport_native.Server.Builder.{Server}
use tonic_transport_native.Server.Make.{MakeSvc}

unfoldable pub default_http2_keepalive_timeout_secs : ℕ
default_http2_keepalive_timeout_secs = 20

-- The stream that `tcp_incoming` makes, before it is polled: what it accepts from, and with what.
pub record Accepting (In A : Type 0) : Type 0 where
  pub incoming : In
  pub tls : A

-- What is used of hyper's server: its builder (`B`) on a stream, the server (`Run`) with a signal or
-- without, and what it comes to; and of tower, `ServiceBuilder::service`.
pub record Hyper (In A L Rt S Tr B Run Sig X : Type 0) : Type 0 where
  pub builder : Accepting In A → B
  pub http2_only : B → Bool → B
  pub http2_initial_connection_window_size : B → Option ℕ → B
  pub http2_initial_stream_window_size : B → Option ℕ → B
  pub http2_max_concurrent_streams : B → Option ℕ → B
  pub http2_keep_alive_interval : B → Option Duration → B
  pub http2_keep_alive_timeout : B → Duration → B
  pub http2_adaptive_window : B → Bool → B
  pub http2_max_frame_size : B → Option ℕ → B
  pub serve : B → MakeSvc S Tr → Run
  pub with_graceful_shutdown : Run → Sig → Run
  pub awaited : Run → Result (Unit {0}) X
  pub service : L → Routes Rt → S

module _ {In A L Rt S Tr B Run Sig X : Type 0} (hyper : Hyper In A L Rt S Tr B Run Sig X) where
  unfoldable pub keepalive_timeout : Option Duration → Duration
  unfolding default_http2_keepalive_timeout_secs
  keepalive_timeout set =
      unwrap_or set (record { secs = default_http2_keepalive_timeout_secs; nanos = 0 })

  -- The calls on `hyper::Server::builder(incoming)`.
  unfoldable pub settings : Server Tr A L → In → B
  unfolding keepalive_timeout
  settings self incoming =
      let b = hyper.builder (record { incoming = incoming; tls = self.tls }) in
      let b = hyper.http2_only b true in
      let b = hyper.http2_initial_connection_window_size b self.init_connection_window_size in
      let b = hyper.http2_initial_stream_window_size b self.init_stream_window_size in
      let b = hyper.http2_max_concurrent_streams b self.max_concurrent_streams in
      let b = hyper.http2_keep_alive_interval b self.http2_keepalive_interval in
      let b = hyper.http2_keep_alive_timeout b (keepalive_timeout self.http2_keepalive_timeout) in
      let b = hyper.http2_adaptive_window b (unwrap_or self.http2_adaptive_window false) in
      hyper.http2_max_frame_size b self.max_frame_size

  -- The `MakeSvc` of a server.
  unfoldable pub make_svc : Server Tr A L → Routes Rt → MakeSvc S Tr
  make_svc self svc = record {
    concurrency_limit = self.concurrency_limit;
    timeout = self.timeout;
    inner = hyper.service self.service_builder svc;
    trace_interceptor = self.trace_interceptor;
  }

  -- The `if let Some(signal) = signal`.
  unfoldable pub run_until : Option Sig → Run → Run
  run_until (some signal) server = hyper.with_graceful_shutdown server signal
  run_until none server = server

  unfoldable pub serve_with_shutdown :
      Server Tr A L → Routes Rt → In → Option Sig → Result (Unit {0}) (Error X)
  unfolding settings make_svc run_until
  serve_with_shutdown self svc incoming signal = do
    let server = hyper.serve (settings self incoming) (make_svc self svc)
    _ ← map_err (λ e. from_source (foreign e)) (hyper.awaited (run_until signal server))
    ok tt

  abbrev Rtr : Type 0
  Rtr = Router (Server Tr A L) Rt

  unfoldable pub serve_with_incoming : Rtr → In → Result (Unit {0}) (Error X)
  serve_with_incoming self incoming = serve_with_shutdown self.server self.routes incoming none

  unfoldable pub serve_with_incoming_shutdown : Rtr → In → Sig → Result (Unit {0}) (Error X)
  serve_with_incoming_shutdown self incoming signal =
      serve_with_shutdown self.server self.routes incoming (some signal)

  unfoldable pub into_service : Rtr → S
  into_service self = hyper.service self.server.service_builder self.routes

-- Serving on an address, which is bound first.
module _ {I Addr Stream A L Rt S Tr B Run Sig X : Type 0} (tcp : AddrIncoming I Addr Stream X)
    (hyper : Hyper (TcpIncoming I) A L Rt S Tr B Run Sig X) where
  unfoldable pub bound : Server Tr A L → Addr → Result (TcpIncoming I) (Error X)
  bound server addr = map_err from_source (Tcp.new tcp addr server.tcp_nodelay server.tcp_keepalive)

  unfoldable pub serve : Router (Server Tr A L) Rt → Addr → Result (Unit {0}) (Error X)
  unfolding bound
  serve self addr = do
    incoming ← bound self.server addr
    serve_with_shutdown hyper self.server self.routes incoming none

  unfoldable pub router_serve_with_shutdown :
      Router (Server Tr A L) Rt → Addr → Sig → Result (Unit {0}) (Error X)
  unfolding bound
  router_serve_with_shutdown self addr signal = do
    incoming ← bound self.server addr
    serve_with_shutdown hyper self.server self.routes incoming (some signal)
