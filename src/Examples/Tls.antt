-- ===== src/Examples/Tls.antt =====
-- How the programs of examples/src set up TLS. The openssl crate and the NativeAcceptorBuilder and
-- NativeConnectorBuilder of native_tls are parameters.
use tonic_transport_native.Common.{◌∷◌, Bytes, codes}
use tonic_transport_native.Runtime.{Result, ok, map_err}
use tonic_transport_native.Attempt.{◌>>=◌}
use tonic_transport_native.Error.{BoxError, foreign}

-- A builder of openssl (`Bd`) as a call leaves it, with methods of TLS (`Me`), types of files (`Ft`)
-- and errors (`X`).
pub record Ssl (Bd Me Ft X : Type 0) : Type 0 where
  pub tls : Me
  pub pem : Ft
  pub set_ca_file : Bd → Bytes → Result Bd X
  pub set_certificate_chain_file : Bd → Bytes → Result Bd X
  pub set_private_key_file : Bd → Bytes → Ft → Result Bd X
  pub set_alpn_protos : Bd → Bytes → Result Bd X

-- `SslAcceptor`, whose callback is for a connection (`Cn`) and what the client offers, and the
-- builder of native_tls (`Nb`) for its acceptor (`N`).
pub record Acceptors (Bd Me Ft Cn Ae Nb N X : Type 0) : Type 0 where
  pub ssl : Ssl Bd Me Ft X
  pub mozilla_intermediate : Me → Result Bd X
  pub set_alpn_select_callback : Bd → (Cn → Bytes → Result Bytes Ae) → Bd
  pub native : Bd → Nb
  pub build : Nb → Result N X

-- `SslConnector`, and the builder of native_tls for its connector.
pub record Connectors (Bd Me Ft Nb N X : Type 0) : Type 0 where
  pub ssl : Ssl Bd Me Ft X
  pub builder : Me → Result Bd X
  pub native : Bd → Nb
  pub build : Nb → Result N X

-- The protocols that are offered: one, with its length in front.
abbrev pub alpn_protos : Bytes
alpn_protos = 2 ∷ codes "h2"

-- The first part of the server's `main`.
unfoldable pub set_up_acceptor :
    {Bd Me Ft Cn Ae Nb N X : Type 0} → Acceptors Bd Me Ft Cn Ae Nb N X → Result N (BoxError X)
set_up_acceptor acceptors = do
  builder ← map_err foreign (acceptors.mozilla_intermediate acceptors.ssl.tls)
  builder ← map_err foreign (acceptors.ssl.set_ca_file builder (codes "certs/ca.crt"))
  builder ←
      map_err foreign (acceptors.ssl.set_certificate_chain_file builder (codes "certs/server.crt"))
  builder ←
      map_err foreign
        (acceptors.ssl.set_private_key_file builder (codes "certs/server.key") acceptors.ssl.pem)
  builder ← map_err foreign (acceptors.ssl.set_alpn_protos builder alpn_protos)
  let builder = acceptors.set_alpn_select_callback builder (λ conn offered. ok (codes "h2"))
  map_err foreign (acceptors.build (acceptors.native builder))

-- The first part of the client's `main`.
unfoldable pub set_up_connector :
    {Bd Me Ft Nb N X : Type 0} → Connectors Bd Me Ft Nb N X → Result N (BoxError X)
set_up_connector connectors = do
  builder ← map_err foreign (connectors.builder connectors.ssl.tls)
  builder ← map_err foreign (connectors.ssl.set_ca_file builder (codes "certs/ca.crt"))
  builder ←
      map_err foreign (connectors.ssl.set_certificate_chain_file builder (codes "certs/client.crt"))
  builder ←
      map_err foreign
        (connectors.ssl.set_private_key_file builder (codes "certs/client.key") connectors.ssl.pem)
  builder ← map_err foreign (connectors.ssl.set_alpn_protos builder alpn_protos)
  map_err foreign (connectors.build (connectors.native builder))
