-- ===== src/Examples/Ends.antt =====
-- How the server of examples/src/server.rs ends.
use tonic_transport_native.Common.{
  ◌≡◌, ◌≢◌, refl, sym, subst, true, none, [], ◌∷◌, ◌++◌, Bytes, codes,
}
use tonic_transport_native.Runtime.{
  Result, ok, err, map_err, Exec, done, panic, out_of_fuel, ◌>>=◌, bind_assoc,
}
use tonic_transport_native.Error.{Error, BoxError, foreign, transport}
use tonic_transport_native.Incoming.Tcp.{AddrIncoming, TcpIncoming}
use tonic_transport_native.Router.Routes.{
  Axum, Routes, Router, server_add_service, add_service, path_of, unimplemented,
}
use tonic_transport_native.Router.Routes as Routing
use tonic_transport_native.Server.Builder.{Server, builder}
use tonic_transport_native.Server.Make.{MakeSvc}
use tonic_transport_native.Server.Serve.{Accepting, serve}
use tonic_transport_native.Server.Configured.{Config, holding}
use tonic_transport_native.Server.Bound.{Served, serve_ends}
use tonic_transport_native.Examples.Program.{Program, and_then}
use tonic_transport_native.Examples.Tls.{Acceptors, set_up_acceptor}
use tonic_transport_native.Examples.SetUp.{SetsUp, set_up-SetsUp}
use tonic_transport_native.Examples.Hello.{MyGreeter, default}
use tonic_transport_native.Examples.Server.{greets, serving, begun, main}

module _ {Bd Me Ft Cn Ae Nb N I Addr Stream A L Rt S Tr Run Sig Sv Rq Rs X : Type 0}
    (acceptors : Acceptors Bd Me Ft Cn Ae Nb N X) (parse : Bytes → Result Addr X)
    (accepting : N → A) (identity : L) (axum : Axum Rt Sv Rq Rs) (hello_server : MyGreeter → Sv)
    (tcp : AddrIncoming I Addr Stream X)
    (fresh : Accepting (TcpIncoming I) A → Config (TcpIncoming I) A)
    (start : Config (TcpIncoming I) A → MakeSvc S Tr → Run)
    (with_graceful_shutdown : Run → Sig → Run) (awaited : Run → Result (Unit {0}) X)
    (service : L → Routes Rt → S)
    (kept : (a : Accepting (TcpIncoming I) A) → (fresh a).accepting ≡ a) where
  abbrev pub greeter : Sv
  greeter = hello_server (record {})

  -- A router with a fallback that answers as unimplemented, and the route of the greeter.
  abbrev pub adds : Exec Rt
  adds =
      axum.route
        (axum.fallback axum.new (record {
          status = 200;
          headers =
              (codes "grpc-status", codes "12")
              ∷ (codes "content-type", codes "application/grpc")
              ∷ [];
        }))
        (codes "/" ++ axum.name greeter ++ codes "/*rest") (axum.boxed greeter)

  -- A server for which nothing is set but TLS, and no delay for TCP, with these routes.
  abbrev router : N → Rt → Router (Server Tr A L) Rt
  router tls rt = record {
    server = record {
      trace_interceptor = none;
      concurrency_limit = none;
      timeout = none;
      tls = accepting tls;
      init_stream_window_size = none;
      init_connection_window_size = none;
      max_concurrent_streams = none;
      tcp_keepalive = none;
      tcp_nodelay = true;
      http2_keepalive_interval = none;
      http2_keepalive_timeout = none;
      http2_adaptive_window = none;
      max_frame_size = none;
      service_builder = identity;
    };
    routes = record { router = rt };
  }

  pub data Ends : Program (Unit {0}) (BoxError X) → Type 0 where
    no_tls : (e : BoxError X) → SetsUp acceptors (err e) → Ends (done ([], err e))
    no_address :
        (tls : N) (e : X)
        → SetsUp acceptors (ok tls)
        → parse (codes "[::1]:50051") ≡ err e
        → Ends (done ([], err (foreign e)))
    conflict :
        (tls : N) (addr : Addr)
        → SetsUp acceptors (ok tls)
        → parse (codes "[::1]:50051") ≡ ok addr
        → adds ≡ panic
        → Ends panic
    served :
        (tls : N) (addr : Addr) (rt : Rt) (r : Result (Unit {0}) (Error X))
        → SetsUp acceptors (ok tls)
        → parse (codes "[::1]:50051") ≡ ok addr
        → adds ≡ done rt
        → Served tcp fresh start with_graceful_shutdown awaited service kept
            (router tls rt)
            addr
            none
            r
        → Ends (done ([], map_err transport r))

  -- The code from some point on.
  abbrev serves : Addr → Exec (Router (Server Tr A L) Rt) → Program (Unit {0}) (BoxError X)
  serves =
      serving acceptors parse accepting identity axum hello_server tcp
        (holding fresh start with_graceful_shutdown awaited service)

  abbrev begins : N → Result Addr X → Program (Unit {0}) (BoxError X)
  begins =
      begun acceptors parse accepting identity axum hello_server tcp
        (holding fresh start with_graceful_shutdown awaited service)

  by_serving :
      (tls : N) (addr : Addr) (rt : Rt) (r : Result (Unit {0}) (Error X))
      → SetsUp acceptors (ok tls)
      → parse (codes "[::1]:50051") ≡ ok addr
      → adds ≡ done rt
      → Served tcp fresh start with_graceful_shutdown awaited service kept
          (router tls rt)
          addr
          none
          r
      → Ends (and_then (map_err transport r) (λ stopped. done ([], ok stopped)))
  by_serving tls addr rt (ok stopped) set_up parsed added s =
      served tls addr rt (ok stopped) set_up parsed added s
  by_serving tls addr rt (err e) set_up parsed added s =
      served tls addr rt (err e) set_up parsed added s

  by_router :
      (tls : N) (addr : Addr) (m : Exec Rt)
      → SetsUp acceptors (ok tls)
      → parse (codes "[::1]:50051") ≡ ok addr
      → adds ≡ m
      → m ≢ out_of_fuel
      → Ends (serves addr (m >>= λ rt. done (router tls rt)))
  by_router tls addr panic set_up parsed added ends = conflict tls addr set_up parsed added
  by_router tls addr out_of_fuel set_up parsed added ends = absurd (ends refl)
  by_router tls addr (done rt) set_up parsed added ends =
      by_serving tls addr rt
        (serve tcp (holding fresh start with_graceful_shutdown awaited service) (router tls rt)
          addr)
        set_up parsed added
        (serve_ends tcp fresh start with_graceful_shutdown awaited service kept (router tls rt)
          addr)

  greets-adds :
      (tls : N)
      → greets acceptors parse accepting identity axum hello_server tcp
          (holding fresh start with_graceful_shutdown awaited service)
          tls
        ≡ (adds >>= λ rt. done (router tls rt))
  unfolding server_add_service Routing.new add_service path_of unimplemented builder default
  greets-adds tls = bind_assoc adds _ _

  by_address :
      (tls : N) (a : Result Addr X)
      → SetsUp acceptors (ok tls)
      → parse (codes "[::1]:50051") ≡ a
      → adds ≢ out_of_fuel
      → Ends (begins tls a)
  by_address tls (err e) set_up parsed ends = no_address tls e set_up parsed
  by_address tls (ok addr) set_up parsed ends =
      subst (λ m. Ends (serves addr m)) (sym (greets-adds tls))
        (by_router tls addr adds set_up parsed refl ends)

  by_tls :
      (t : Result N (BoxError X))
      → SetsUp acceptors t
      → adds ≢ out_of_fuel
      → Ends (and_then t (λ tls. begins tls (parse (codes "[::1]:50051"))))
  by_tls (err e) set_up ends = no_tls e set_up
  by_tls (ok tls) set_up ends = by_address tls (parse (codes "[::1]:50051")) set_up refl ends

  -- Over a server of hyper that keeps its connections and acceptor and holds what it is told last, and
  -- if axum adds the route or panics, the program ends in one of these ways: with the error of the
  -- first step that fails to set up TLS (`SetsUp`: the files and the protocol, in order); with the
  -- error of reading its address; with the panic of axum at the greeter's route; or as a server ends
  -- that serves the greeter on that address with no setting made but TLS (`Served`).
  pub main-Ends :
      adds ≢ out_of_fuel
      → Ends (
          main acceptors parse accepting identity axum hello_server tcp
            (holding fresh start with_graceful_shutdown awaited service))
  unfolding main
  main-Ends ends = by_tls (set_up_acceptor acceptors) (set_up-SetsUp acceptors) ends
