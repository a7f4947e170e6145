-- ===== src/Server/Info.antt =====
-- What the server knows of a connection: src/server/conn.rs, and `Certificate` of src/tls.rs.
use tonic_transport_native.Common.{Option, none, some, Bytes}
use tonic_transport_native.Runtime.{Result, ok, err, map_ok, map_err}
use tonic_transport_native.Attempt.{◌>>=◌}
use tonic_transport_native.Error.{Error, from_foreign}

pub data Certificate : Type 0 where
  pem : Bytes → Certificate
  der : Bytes → Certificate

unfoldable pub from_pem : Bytes → Certificate
from_pem b = pem b

unfoldable pub from_der : Bytes → Certificate
from_der b = der b

pub record TcpConnectInfo (A : Type 0) : Type 0 where
  pub remote_addr : Option A

unfoldable pub remote_addr : {A : Type 0} → TcpConnectInfo A → Option A
remote_addr self = self.remote_addr

-- The `Connected` instances of hyper's `AddrStream` and of tokio's `TcpStream`, by what they answer
-- for the address of the peer.
unfoldable pub addr_stream_info : {A X : Type 0} → A → Result (TcpConnectInfo A) (Error X)
addr_stream_info addr = ok (record { remote_addr = some addr })

-- `Result::ok`.
abbrev pub ok_of : {A E : Type 0} → Result A E → Option A
ok_of (ok a) = some a
ok_of (err e) = none

unfoldable pub tcp_stream_info : {A E X : Type 0} → Result A E → Result (TcpConnectInfo A) (Error X)
tcp_stream_info addr = ok (record { remote_addr = ok_of addr })

pub record TlsConnectInfo (I : Type 0) : Type 0 where
  pub inner : I
  pub cert : Option Certificate

unfoldable pub get_ref : {I : Type 0} → TlsConnectInfo I → I
get_ref self = self.inner

unfoldable pub peer_cert : {I : Type 0} → TlsConnectInfo I → Option Certificate
peer_cert self = self.cert

-- What is used of native_tls: the certificate of the peer, and its encoding.
pub record Peers (Tls Ct X : Type 0) : Type 0 where
  pub peer_certificate : Tls → Result (Option Ct) X
  pub to_der : Ct → Result Bytes X

module _ {Tls Ct X : Type 0} (peers : Peers Tls Ct X) where
  -- `if let Ok(Some(cert)) = self.get_ref().peer_certificate()`.
  unfoldable pub cert_of : Result (Option Ct) X → Result (Option Certificate) (Error X)
  unfolding from_der
  cert_of (ok (some cert)) =
      map_ok (λ bytes. some (from_der bytes)) (map_err from_foreign (peers.to_der cert))
  cert_of (ok none) = ok none
  cert_of (err e) = ok none

  -- `info` is what the stream below TLS answers.
  unfoldable pub tls_stream_info :
      {I : Type 0} → (Tls → Result I (Error X)) → Tls → Result (TlsConnectInfo I) (Error X)
  unfolding cert_of
  tls_stream_info info io = do
    inner ← info io
    cert ← cert_of (peers.peer_certificate io)
    ok (record { inner = inner; cert = cert })
