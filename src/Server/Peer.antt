-- ===== src/Server/Peer.antt =====
-- What src/server/conn.rs tells of a connection over TLS.
use tonic_transport_native.Common.{◌≡◌, ◌≢◌, refl, ap, sym, ◌↔◌, Option, none, some, Bytes, arith}
use tonic_transport_native.Runtime.{Result, ok, err, map_ok, map_err}
use tonic_transport_native.Attempt.{◌>>=◌}
use tonic_transport_native.Error.{Error, from_foreign}
use tonic_transport_native.Server.Info.{
  Certificate, der, from_der, TlsConnectInfo, Peers, cert_of, tls_stream_info,
}

-- By the answer for the certificate of the peer: the certificate is the one that it presents, as
-- it is encoded, or there is none to be had.
abbrev pub Presents :
    {Tls Ct X : Type 0} → Peers Tls Ct X → Result (Option Ct) X → Option Certificate → Type 0
Presents {Ct = Ct} peers answer none = (ct : Ct) → answer ≢ ok (some ct)
Presents {Ct = Ct} peers answer (some c) =
    (ct : Ct) × (bytes : Bytes) × (answer ≡ ok (some ct))
    × (peers.to_der ct ≡ ok bytes)
    × (c ≡ der bytes)

encoded :
    {X : Type 0} (r : Result Bytes X) (c : Option Certificate)
    → map_ok (λ bytes. some (from_der bytes)) (map_err (from_foreign {X = X}) r) ≡ ok c
    → (bytes : Bytes) × (r ≡ ok bytes) × (c ≡ some (der bytes))
unfolding from_der
encoded (ok bytes) c h = (bytes, refl, cc)
encoded (err e) c h = cc

info_parts :
    {I E : Type 0} (r : Result I E) (q : Result (Option Certificate) E) (i : TlsConnectInfo I)
    → (r >>= λ inner. q >>= λ cert. ok (record { inner = inner; cert = cert })) ≡ ok i
    → (r ≡ ok i.inner) × (q ≡ ok i.cert)
info_parts (ok inner) (ok cert) i h = ground arith
info_parts (ok inner) (err e) i h = cc
info_parts (err e) q i h = cc

module _ {Tls Ct X : Type 0} (peers : Peers Tls Ct X) where
  cert_of-Presents :
      (answer : Result (Option Ct) X) (c : Option Certificate)
      → cert_of peers answer ≡ ok c
      → Presents peers answer c
  unfolding cert_of
  cert_of-Presents (ok (some ct)) none h =
      let (bytes, e, same) = encoded (peers.to_der ct) none h in cc
  cert_of-Presents (ok (some ct)) (some c) h =
      let (bytes, e, same) = encoded (peers.to_der ct) (some c) h in (ct, bytes, refl, e, cc)
  cert_of-Presents (ok none) none h = λ ct e. cc
  cert_of-Presents (ok none) (some c) h = cc
  cert_of-Presents (err x) none h = λ ct e. cc
  cert_of-Presents (err x) (some c) h = cc

  Presents-cert_of :
      (answer : Result (Option Ct) X) (c : Option Certificate)
      → Presents peers answer c
      → cert_of peers answer ≡ ok c
  unfolding cert_of from_der
  Presents-cert_of answer (some c) (ct, bytes, present, e, same) =
      rw (present, cert_of) (rw e (ap (λ x. ok (some x)) (sym same)))
  Presents-cert_of (ok (some ct)) none refuted = absurd (refuted ct refl)
  Presents-cert_of (ok none) none refuted = refl
  Presents-cert_of (err e) none refuted = refl

  -- A connection over TLS tells what the stream below tells, and the certificate of its peer, as it
  -- is encoded, or none exactly if there is none to be had; an error of the stream below and one of
  -- the encoding are errors of its own.
  pub tls_stream_info-Presents :
      {I : Type 0} (info : Tls → Result I (Error X)) (io : Tls) (i : TlsConnectInfo I)
      → (tls_stream_info peers info io ≡ ok i)
        ↔ ((info io ≡ ok i.inner) × Presents peers (peers.peer_certificate io) i.cert)
  unfolding tls_stream_info
  tls_stream_info-Presents info io i = (
    λ h.
        let (told, found) = info_parts (info io) (cert_of peers (peers.peer_certificate io)) i h in
        (told, cert_of-Presents _ _ found),
    λ (told, presents). rw told (rw (Presents-cert_of _ _ presents) refl),
  )
