-- ===== src/Examples/Server.antt =====
-- The server of examples/src/server.rs.
use tonic_transport_native.Common.{[], Bytes, codes}
use tonic_transport_native.Runtime.{Result, ok, map_err, Exec, done, ◌>>=◌}
use tonic_transport_native.Error.{BoxError, foreign, transport}
use tonic_transport_native.Incoming.Tcp.{AddrIncoming, TcpIncoming}
use tonic_transport_native.Router.Routes.{Axum, Router, server_add_service}
use tonic_transport_native.Server.Builder.{Server, builder}
use tonic_transport_native.Server.Serve.{Hyper, serve}
use tonic_transport_native.Examples.Program.{Program, and_then}
use tonic_transport_native.Examples.Tls.{Acceptors, set_up_acceptor}
use tonic_transport_native.Examples.Hello.{MyGreeter, default}

-- `parse` reads an address, `accepting` is the conversion of an acceptor of native_tls with
-- `TlsAcceptor::new`, `identity` the default `ServiceBuilder`, and `hello_server` the generated
-- `HelloServer::new`.
module _ {Bd Me Ft Cn Ae Nb N I Addr Stream A L Rt S Tr B Run Sig Sv Rq Rs X : Type 0}
    (acceptors : Acceptors Bd Me Ft Cn Ae Nb N X) (parse : Bytes → Result Addr X)
    (accepting : N → A) (identity : L) (axum : Axum Rt Sv Rq Rs) (hello_server : MyGreeter → Sv)
    (tcp : AddrIncoming I Addr Stream X)
    (hyper : Hyper (TcpIncoming I) A L Rt S Tr B Run Sig X) where
  abbrev pub address : Bytes
  address = codes "[::1]:50051"

  abbrev pub greets : N → Exec (Router (Server Tr A L) Rt)
  greets tls = server_add_service axum (builder (accepting tls) identity) (hello_server default)

  abbrev pub serving : Addr → Exec (Router (Server Tr A L) Rt) → Program (Unit {0}) (BoxError X)
  serving addr added = do
    router ← added
    and_then (map_err transport (serve tcp hyper router addr)) (λ stopped. done ([], ok stopped))

  abbrev pub begun : N → Result Addr X → Program (Unit {0}) (BoxError X)
  begun tls parsed = and_then (map_err foreign parsed) (λ addr. serving addr (greets tls))

  unfoldable pub main : Program (Unit {0}) (BoxError X)
  main = and_then (set_up_acceptor acceptors) (λ tls. begun tls (parse address))
