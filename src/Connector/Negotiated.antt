-- ===== src/Connector/Negotiated.antt =====
-- What src/service/connector.rs promises of the connections that it opens.
use tonic_transport_native.Common.{
  ◌≡◌, refl, ap, Bool-cases, ◌↔◌, inl, inr, Option, none, some, Bytes, codes, eq_bytes, arith,
  eq_bytes_sound,
}
use tonic_transport_native.Runtime.{Result, ok}
use tonic_transport_native.Attempt.{bind_ok, map_err_ok}
use tonic_transport_native.Error.{from_foreign, BoxError, transport}
use tonic_transport_native.Connector.Handshake.{
  BoxedIo, NativeTls, Connector, check_alpn, tls_connect, open_stream, call,
}

check_alpn_ok :
    {C Io Tls X : Type 0} (native : NativeTls C Io Tls X) (tls : Tls) (agreed : Option Bytes)
    (b : BoxedIo Tls)
    → check_alpn native tls agreed ≡ ok b
    → (agreed ≡ some (codes "h2")) × (b ≡ record { stream = tls })
unfolding check_alpn
check_alpn_ok native tls none b h = cc
check_alpn_ok native tls (some p) b h = elim (Bool-cases (eq_bytes p (codes "h2"))) [
  | inl same ↦ (ap some (eq_bytes_sound p (codes "h2") same), ground arith)
  | inr differ ↦ ground arith
]

module _ {U K C Io Tls E X : Type 0} (native : NativeTls C Io Tls X) (into : E → BoxError X)
    (make : K → U → Result Io E × K) (s : Connector K C) (uri : U) where
  -- A stream is opened over `tls`: a connection is made to the URI, the handshake verifies the
  -- connector's domain, and it agrees on HTTP/2.
  pub record Negotiated (tls : Tls) : Type 0 where
    pub io : Io
    pub made : (make s.inner uri).0 ≡ ok io
    pub shaken : native.connect s.tls.connector s.tls.domain io ≡ ok tls
    pub agreed : native.negotiated_alpn tls ≡ ok (some (codes "h2"))

  negotiated :
      (tls : Tls)
      → (call native into make s uri).0 ≡ ok (record { stream = record { stream = tls } })
      → Negotiated tls
  unfolding call open_stream tls_connect
  negotiated tls h =
      let (io, made, rest) = bind_ok _ _ _ h in
      let (boxed, connected, same) = bind_ok _ _ _ rest in
      let (secured, shaken, checked) =
        bind_ok _ _ _ (map_err_ok transport (tls_connect native s.tls io) boxed connected) in
      let (protocol, alpn, accepted) = bind_ok _ _ _ checked in
      let (is_h2, box) = check_alpn_ok native secured protocol boxed accepted in
      let hand : native.connect s.tls.connector s.tls.domain io ≡ ok secured =
        map_err_ok from_foreign _ secured shaken in
      let agree : native.negotiated_alpn secured ≡ ok protocol =
        map_err_ok from_foreign _ protocol alpn in
      record {
        io = io;
        made = map_err_ok into (make s.inner uri).0 io made;
        shaken = cc;
        agreed = cc;
      }

  -- The connector comes to a stream exactly if it is one that was negotiated so.
  pub call-Negotiated :
      (tls : Tls)
      → ((call native into make s uri).0 ≡ ok (record { stream = record { stream = tls } }))
        ↔ Negotiated tls
  unfolding call open_stream tls_connect check_alpn
  call-Negotiated tls = (negotiated tls, λ n. rw (n.made) (rw (n.shaken) (rw (n.agreed) refl)))
