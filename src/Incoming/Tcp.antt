-- ===== src/Incoming/Tcp.antt =====
-- `TcpIncoming` of src/server/incoming.rs. hyper's `AddrIncoming` is a parameter.
use tonic_transport_native.Common.{Bool, Option}
use tonic_transport_native.Runtime.{Result, ok, map_err, Poll}
use tonic_transport_native.Attempt.{◌>>=◌}
use tonic_transport_native.Error.{BoxError, foreign}
use tonic_transport_native.Duration.{Duration}

-- What is used of `AddrIncoming` (`I`), for addresses, streams and errors of input and output.
pub record AddrIncoming (I Addr Stream X : Type 0) : Type 0 where
  pub bind : Addr → Result I X
  pub set_nodelay : I → Bool → I
  pub set_keepalive : I → Option Duration → I
  pub poll_accept : I → Poll (Option (Result Stream X)) × I

pub record TcpIncoming (I : Type 0) : Type 0 where
  pub inner : I

module _ {I Addr Stream X : Type 0} (hyper : AddrIncoming I Addr Stream X) where
  unfoldable pub new : Addr → Bool → Option Duration → Result (TcpIncoming I) (BoxError X)
  new addr nodelay keepalive = do
    inner ← map_err foreign (hyper.bind addr)
    let inner = hyper.set_nodelay inner nodelay
    let inner = hyper.set_keepalive inner keepalive
    ok (record { inner = inner })

  unfoldable pub poll_next : TcpIncoming I → Poll (Option (Result Stream X)) × TcpIncoming I
  poll_next s = let answer = hyper.poll_accept s.inner in (answer.0, record { inner = answer.1 })
