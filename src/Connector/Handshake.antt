-- ===== src/Connector/Handshake.antt =====
-- `Connector` of src/service/connector.rs and `TlsConnector::connect` of src/tls.rs. An async block
-- is the result that it comes to, as a function of the results of what it awaits.
use tonic_transport_native.Common.{Option, none, some, Bytes, codes, eq_bytes, if◌then◌else◌}
use tonic_transport_native.Runtime.{Result, ok, err, map_err, Poll, map_poll}
use tonic_transport_native.Attempt.{◌>>=◌}
use tonic_transport_native.Error.{Error, h2_not_negotiated, from_foreign, BoxError, transport}
use tonic_transport_native.Channel.Domain.{TlsConnector}

-- A box around any stream.
pub record BoxedIo (Io : Type 0) : Type 0 where
  pub stream : Io

-- What is used of native_tls: the handshake with a server of the name, and the protocol agreed on.
pub record NativeTls (C Io Tls X : Type 0) : Type 0 where
  pub connect : C → Bytes → Io → Result Tls X
  pub negotiated_alpn : Tls → Result (Option Bytes) X

module _ {C Io Tls X : Type 0} (native : NativeTls C Io Tls X) where
  -- The `match io.get_ref().negotiated_alpn()?`.
  unfoldable pub check_alpn : Tls → Option Bytes → Result (BoxedIo Tls) (Error X)
  check_alpn io none = err h2_not_negotiated
  check_alpn io (some b) =
      if eq_bytes b (codes "h2") then ok (record { stream = io }) else err h2_not_negotiated

  unfoldable pub tls_connect : TlsConnector C → Io → Result (BoxedIo Tls) (Error X)
  unfolding check_alpn
  tls_connect self io = do
    tls ← map_err from_foreign (native.connect self.connector self.domain io)
    agreed ← map_err from_foreign (native.negotiated_alpn tls)
    check_alpn tls agreed

pub record Connector (K C : Type 0) : Type 0 where
  pub inner : K
  pub tls : TlsConnector C

unfoldable pub connector : {K C : Type 0} → K → TlsConnector C → Connector K C
connector inner tls = record { inner = inner; tls = tls }

-- `made` is what `self.inner.make_connection(uri)` comes to.
module _ {C Io Tls E X : Type 0} (native : NativeTls C Io Tls X) (into : E → BoxError X) where
  unfoldable pub open_stream :
      TlsConnector C → Result Io E → Result (BoxedIo (BoxedIo Tls)) (BoxError X)
  unfolding tls_connect
  open_stream tls made = do
    io ← map_err into made
    conn ← map_err transport (tls_connect native tls io)
    ok (record { stream = conn })

  unfoldable pub poll_ready :
      {K : Type 0}
      → (K → Poll (Result (Unit {0}) E) × K)
      → Connector K C
      → Poll (Result (Unit {0}) (BoxError X)) × Connector K C
  poll_ready make_ready s =
      let answer = make_ready s.inner in
      (map_poll (map_err into) answer.0, record s { inner = answer.1 })

  unfoldable pub call :
      {K U : Type 0}
      → (K → U → Result Io E × K)
      → Connector K C
      → U
      → Result (BoxedIo (BoxedIo Tls)) (BoxError X) × Connector K C
  unfolding open_stream
  call make_connection s uri =
      let made = make_connection s.inner uri in
      (open_stream s.tls made.0, record s { inner = made.1 })
