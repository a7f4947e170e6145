-- ===== src/GrpcTimeout/Header.antt =====
-- `try_parse_grpc_timeout` of src/service/grpc_timeout.rs on a whole header map, against the texts
-- of the protocol.
use tonic_transport_native.Common.{
  ◌≡◌, refl, ap, inl, inr, ◌↔◌, Option, none, some, Option-cases, Bytes,
}
use tonic_transport_native.Runtime.{Result, ok, err, done}
use tonic_transport_native.Duration.{Duration}
use tonic_transport_native.Http.{Headers, TextLaws}
use tonic_transport_native.GrpcTimeout.Parse.{try_parse_grpc_timeout, grpc_timeout_header}
use tonic_transport_native.GrpcTimeout.Grammar.{Encodes}
use tonic_transport_native.GrpcTimeout.Answer.{
  value-Answer, Answer-total, Answer_accepted, Answer_rejected,
}

module _ {V M : Type 0} (h : Headers V M) (laws : TextLaws h) (headers : M) where
  -- Whatever the header map holds, the parser returns: it does not panic in the split of the
  -- text, and its products do not overflow.
  pub try_parse_grpc_timeout_total :
      (r : Result (Option Duration) V) × (try_parse_grpc_timeout h headers ≡ done r)
  unfolding try_parse_grpc_timeout
  try_parse_grpc_timeout_total = elim (Option-cases (h.get headers grpc_timeout_header)) [
    | inl absent ↦ (ok none, rw (absent, try_parse_grpc_timeout))
    | inr (val, present) ↦
        let (r, e) = Answer-total h (value-Answer h laws val _ refl) in
        (r, rw (present, try_parse_grpc_timeout) e)
  ]

  -- The parser returns a duration exactly if the header is there, is a text, and that text
  -- stands for the duration: at most eight bytes of a number and one letter for the unit.
  pub try_parse_grpc_timeout_accepts :
      (d : Duration)
      → (try_parse_grpc_timeout h headers ≡ done (ok (some d))) ↔ (
          (val : V) × (h.get headers grpc_timeout_header ≡ some val)
          × (s : Bytes) × (h.to_str val ≡ some s)
          × Encodes s d)
  unfolding try_parse_grpc_timeout
  try_parse_grpc_timeout_accepts d = elim (Option-cases (h.get headers grpc_timeout_header)) [
    | inl absent ↦ rw (absent, try_parse_grpc_timeout) (λ e. cc, λ (val, present, _, _, _). cc)
    | inr (val, present) ↦
        let (to, from) = Answer_accepted h d (value-Answer h laws val _ refl) in
        rw (present, try_parse_grpc_timeout)
          (
            (λ e. let (s, read, enc) = to e in (val, refl, s, read, enc)),
            (λ (val', same, s, read, enc). from (s, cc, enc)),
          )
  ]

  -- The parser hands a header value back as unreadable exactly if it is the value of the header
  -- and is no text that stands for a duration.
  pub try_parse_grpc_timeout_rejects :
      (v : V)
      → (try_parse_grpc_timeout h headers ≡ done (err v)) ↔ (
          (h.get headers grpc_timeout_header ≡ some v)
          × ((s : Bytes) (d : Duration) → h.to_str v ≡ some s → ¬ Encodes s d))
  unfolding try_parse_grpc_timeout
  try_parse_grpc_timeout_rejects v = elim (Option-cases (h.get headers grpc_timeout_header)) [
    | inl absent ↦ rw (absent, try_parse_grpc_timeout) (λ e. cc, λ (present, _). cc)
    | inr (val, present) ↦
        let (to, from) = Answer_rejected h v (value-Answer h laws val _ refl) in
        rw (present, try_parse_grpc_timeout)
          (
            (λ e. let (same, no_text) = to e in (ap some same, no_text)),
            (λ (same, no_text). from (cc, no_text)),
          )
  ]
