-- ===== src/Server/Bound.antt =====
-- The ways to serve in src/server/mod.rs that bind an address, over a server of hyper that holds what
-- it is told.
use tonic_transport_native.Common.{◌≡◌, refl, sym, ap, true, false, Option, none, some, unwrap_or}
use tonic_transport_native.Runtime.{Result, ok, err, map_err}
use tonic_transport_native.Attempt.{◌>>=◌}
use tonic_transport_native.Error.{Error, foreign, from_source}
use tonic_transport_native.Incoming.Tcp.{AddrIncoming, TcpIncoming}
use tonic_transport_native.Incoming.Tcp as Tcp
use tonic_transport_native.Router.Routes.{Routes, Router}
use tonic_transport_native.Server.Builder.{Server}
use tonic_transport_native.Server.Make.{MakeSvc}
use tonic_transport_native.Server.Configured.{Config, holding}
use tonic_transport_native.Server.Serve.{
  Accepting, settings, make_svc, run_until, keepalive_timeout, default_http2_keepalive_timeout_secs,
  serve_with_shutdown, serve, router_serve_with_shutdown,
}

module _ {I Addr Stream A L Rt S Tr Run Sig X : Type 0} (tcp : AddrIncoming I Addr Stream X)
    (fresh : Accepting (TcpIncoming I) A → Config (TcpIncoming I) A)
    (start : Config (TcpIncoming I) A → MakeSvc S Tr → Run)
    (with_graceful_shutdown : Run → Sig → Run) (awaited : Run → Result (Unit {0}) X)
    (service : L → Routes Rt → S)
    (kept : (a : Accepting (TcpIncoming I) A) → (fresh a).accepting ≡ a)
    (self : Router (Server Tr A L) Rt) (addr : Addr) where
  -- The server as it is told to be: what hyper's server holds on a socket that is bound, and what
  -- makes the services of connections.
  abbrev pub config : I → Config (TcpIncoming I) A
  config i =
      let i = tcp.set_nodelay i self.server.tcp_nodelay in
      let i = tcp.set_keepalive i self.server.tcp_keepalive in
      record {
        accepting = record { incoming = record { inner = i }; tls = self.server.tls };
        only_http2 = true;
        connection_window = self.server.init_connection_window_size;
        stream_window = self.server.init_stream_window_size;
        streams = self.server.max_concurrent_streams;
        keep_alive_interval = self.server.http2_keepalive_interval;
        keep_alive_timeout =
            unwrap_or self.server.http2_keepalive_timeout (record { secs = 20; nanos = 0 });
        adaptive_window = unwrap_or self.server.http2_adaptive_window false;
        frame_size = self.server.max_frame_size;
      }

  abbrev pub services : MakeSvc S Tr
  services = record {
    concurrency_limit = self.server.concurrency_limit;
    timeout = self.server.timeout;
    inner = service self.server.service_builder self.routes;
    trace_interceptor = self.server.trace_interceptor;
  }

  -- What that server comes to: with a signal, it is one that the signal shuts down.
  abbrev pub ran : Option Sig → I → Result (Unit {0}) X
  ran none i = awaited (start (config i) services)
  ran (some signal) i = awaited (with_graceful_shutdown (start (config i) services) signal)

  -- How serving on the address ends: the address cannot be bound, and nothing is served; or the
  -- server fails; or it stops.
  pub data Served (signal : Option Sig) : Result (Unit {0}) (Error X) → Type 0 where
    unbound : (e : X) → tcp.bind addr ≡ err e → Served signal (err (from_source (foreign e)))
    failed :
        (i : I) (e : X)
        → tcp.bind addr ≡ ok i
        → ran signal i ≡ err e
        → Served signal (err (from_source (foreign e)))
    stopped : (i : I) → tcp.bind addr ≡ ok i → ran signal i ≡ ok tt → Served signal (ok tt)

  -- What the code comes to behind the binding.
  abbrev awaits : Option Sig → I → Result (Unit {0}) X
  awaits signal i =
      let hyper = holding fresh start with_graceful_shutdown awaited service in
      let i = tcp.set_nodelay i self.server.tcp_nodelay in
      let i = tcp.set_keepalive i self.server.tcp_keepalive in
      let b = settings hyper self.server (record { inner = i }) in
      awaited (run_until hyper signal (start b (make_svc hyper self.server self.routes)))

  awaits-ran : (signal : Option Sig) (i : I) → awaits signal i ≡ ran signal i
  unfolding settings make_svc keepalive_timeout default_http2_keepalive_timeout_secs run_until
  awaits-ran none i =
      ap (λ a. awaited (start (record (config i) { accepting = a }) services))
        (kept (config i).accepting)
  awaits-ran (some signal) i =
      ap
        (λ a.
          awaited
            (with_graceful_shutdown (start (record (config i) { accepting = a }) services) signal))
        (kept (config i).accepting)

  by_run :
      (signal : Option Sig) (i : I) (w : Result (Unit {0}) X)
      → tcp.bind addr ≡ ok i
      → ran signal i ≡ w
      → Served signal (map_err (λ e. from_source (foreign e)) w >>= λ _. ok tt)
  by_run signal i (ok _) at ended = stopped i at ended
  by_run signal i (err e) at ended = failed i e at ended

  by_bind :
      (signal : Option Sig) (b : Result I X)
      → tcp.bind addr ≡ b
      → Served signal (
          map_err from_source (
            map_err foreign b >>= λ i.
            let i = tcp.set_nodelay i self.server.tcp_nodelay in
            let i = tcp.set_keepalive i self.server.tcp_keepalive in ok (record { inner = i }))
          >>= λ incoming.
              serve_with_shutdown
                (holding fresh start with_graceful_shutdown awaited service)
                self.server
                self.routes
                incoming
                signal)
  unfolding serve_with_shutdown
  by_bind signal (ok i) at = by_run signal i (awaits signal i) at (sym (awaits-ran signal i))
  by_bind signal (err e) at = unbound e at

  pub serve_ends :
      Served none (serve tcp (holding fresh start with_graceful_shutdown awaited service) self addr)
  unfolding serve Tcp.new
  serve_ends = by_bind none (tcp.bind addr) refl

  -- Both ways to serve on an address, without a signal and with one, over a server of hyper that keeps
  -- its connections and acceptor and holds what it is told last: the address is bound; the server on
  -- the socket, to which the TCP settings are applied, holds its connections and acceptor, HTTP/2 only
  -- and the other settings, or their defaults (20 seconds for the keep-alive timeout, no adaptive
  -- window), and makes services of the limit, timeout, routes and trace interceptor that were set; the
  -- signal, if there is one, shuts it down; and an error of the binding or of the server is the
  -- result, and nothing else is one.
  pub serve-Served :
      (signal : Sig)
      → Served none
          (serve tcp (holding fresh start with_graceful_shutdown awaited service) self addr)
        × Served (some signal) (
            router_serve_with_shutdown tcp
              (holding fresh start with_graceful_shutdown awaited service)
              self
              addr
              signal)
  unfolding router_serve_with_shutdown Tcp.new
  serve-Served signal = (serve_ends, by_bind (some signal) (tcp.bind addr) refl)
