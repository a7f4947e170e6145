-- ===== src/GrpcTimeout/Answer.antt =====
-- What `try_parse_grpc_timeout` of src/service/grpc_timeout.rs makes of a header value.
use tonic_transport_native.Common.{
  ℕ, ◌≤◌, ◌<◌, ◌≡◌, refl, sym, ap, ◌∙◌, inl, inr, ◌↔◌, false, Option, none, some, [], ◌∷◌, ◌++◌,
  Bytes, All, length, length-append, last_cases, Bool-cases, ltb, arith,
}
use tonic_transport_native.Runtime.{Result, ok, err, Exec, done}
use tonic_transport_native.Duration.{Duration}
use tonic_transport_native.Http.{Headers, TextLaws}
use tonic_transport_native.GrpcTimeout.Number.{
  mul_u64, sub_usize, split_at-snoc, parse_u64, Spells, parse_u64_sound, parse_u64_complete,
  Spells-small,
}
use tonic_transport_native.GrpcTimeout.Parse.{
  unit_duration, parse_parts, parse_text, parse_value, is_empty,
}
use tonic_transport_native.GrpcTimeout.Grammar.{
  TimeoutUnit, unit_byte, Encodes, scaled, as_nanos-scaled, scaled-IsNormal, snoc-injective,
  unit_of, unit_of-unit_byte, unit_of_sound, Encodes-unique,
}

module _ {V M : Type 0} (h : Headers V M) where
  -- What the parser returns for a number and a unit.
  abbrev reading : V → ℕ → Option TimeoutUnit → Result (Option Duration) V
  reading val n none = err val
  reading val n (some u) = ok (some (scaled u n))

  -- The products of the parser do not overflow: they are below 10 ^ 8 * 3600.
  unit_duration-reading :
      (val : V) (n c : ℕ)
      → n < 100_000_000
      → unit_duration h val n (c ∷ []) ≡ done (reading val n (unit_of c))
  unfolding unit_duration unit_of mul_u64 scaled
  unit_duration-reading val n c small = ground arith

  -- How the parser answers a header value: it accepts it, or hands it back.
  pub data Answer (val : V) : Exec (Result (Option Duration) V) → Type 0 where
    accepted :
        (s : Bytes) (d : Duration)
        → h.to_str val ≡ some s
        → Encodes s d
        → Answer val (done (ok (some d)))
    rejected :
        ((s : Bytes) (d : Duration) → h.to_str val ≡ some s → ¬ Encodes s d)
        → Answer val (done (err val))

  module _ (val : V) (front : Bytes) (c : ℕ) (read : h.to_str val ≡ some (front ++ c ∷ [])) where
    -- The parts of a text that stands for a duration are those of the split.
    parts_of :
        {s : Bytes} {d : Duration}
        → h.to_str val ≡ some s
        → (e : Encodes s d) → (e.front ≡ front) × (unit_byte e.unit ≡ c)
    parts_of {s} found e =
        let same : e.front ++ unit_byte e.unit ∷ [] ≡ front ++ c ∷ [] = sym e.text ∙ cc in
        snoc-injective e.front front (unit_byte e.unit) c same

    refuse :
        ((number : ℕ) (u : TimeoutUnit)
          → Spells front number
          → length front ≤ 8
          → c ≡ unit_byte u
          → ⊥)
        → Answer val (done (err val))
    refuse no_parts = rejected λ s d found e.
        let (same_front, same_unit) = parts_of found e in
        no_parts e.number e.unit (rw (← same_front) e.spelled) (rw (← same_front) e.short)
          (sym same_unit)

    reading-Answer :
        (n : ℕ) (o : Option TimeoutUnit)
        → unit_of c ≡ o
        → Spells front n
        → length front ≤ 8
        → Answer val (done (reading val n o))
    reading-Answer n none unknown spelled short =
        refuse λ k u sp sh e. cc (unit_of-unit_byte u, unknown, ap unit_of e)
    reading-Answer n (some u) known spelled short =
        accepted (front ++ c ∷ []) (scaled u n) read (record {
          front = front;
          unit = u;
          number = n;
          text = ap (λ b. front ++ b ∷ []) (unit_of_sound c u known);
          short = short;
          spelled = spelled;
          amount = as_nanos-scaled u n;
          normal = scaled-IsNormal u n;
        })

    number-Answer :
        (o : Option ℕ)
        → parse_u64 front ≡ o
        → length front ≤ 8
        → Answer val (elim o [ none ↦ done (err val) | some n ↦ unit_duration h val n (c ∷ []) ])
    number-Answer none unread short = refuse λ k u sp sh e.
        cc (unread, parse_u64_complete front k sp (omega (arith, Spells-small front k sp sh)))
    number-Answer (some n) read_as short =
        let spelled = parse_u64_sound front n read_as in
        rw (unit_duration-reading val n c (Spells-small front n spelled short))
          (reading-Answer n (unit_of c) refl spelled short)

    parse_parts-Answer : Answer val (parse_parts h val front (c ∷ []))
    unfolding parse_parts
    parse_parts-Answer = elim (Bool-cases (ltb 8 (length front))) [
      | inl long ↦ rw long (refuse λ k u sp sh e. ground arith)
      | inr short ↦ rw short (number-Answer (parse_u64 front) refl (ground arith))
    ]

  module _ (laws : TextLaws h) where
    All-last : (front : Bytes) (c : ℕ) → All (λ b. b < 128) (front ++ c ∷ []) → c < 128
    All-last [] c (p, _) = p
    All-last (b ∷ front) c (_, ps) = All-last front c ps

    is_empty-snoc : (front : Bytes) (c : ℕ) → is_empty (front ++ c ∷ []) ≡ false
    is_empty-snoc [] c = refl
    is_empty-snoc (b ∷ front) c = refl

    length-snoc :
        (front : Bytes) (c : ℕ) → sub_usize (length (front ++ c ∷ [])) 1 ≡ done (length front)
    unfolding sub_usize
    length-snoc front c = ground (arith, length-append front (c ∷ []))

    parse_text-snoc :
        (val : V) (front : Bytes) (c : ℕ)
        → h.to_str val ≡ some (front ++ c ∷ [])
        → parse_text h val (front ++ c ∷ []) ≡ parse_parts h val front (c ∷ [])
    unfolding parse_text
    parse_text-snoc val front c read =
        rw (is_empty-snoc front c, laws.to_str-as_bytes val _ read, length-snoc front c)
          (rw (split_at-snoc front c (All-last front c (laws.to_str_ascii val _ read))))

    text-Answer : (val : V) (s : Bytes) → h.to_str val ≡ some s → Answer val (parse_text h val s)
    text-Answer val [] read =
        unfold parse_text in
        rejected λ s d found e.
          let empty : [] ≡ e.front ++ unit_byte e.unit ∷ [] = cc (read, found, e.text) in
          omega (arith, ap length empty, length-append e.front (unit_byte e.unit ∷ []))
    text-Answer val (b ∷ s) read =
        let split = last_cases b s in
        let whole : h.to_str val ≡ some (split.front ++ split.last ∷ []) =
          read ∙ ap some split.whole in
        rw split.whole (
          rw (parse_text-snoc val split.front split.last whole)
            (parse_parts-Answer val split.front split.last whole))

    pub value-Answer :
        (val : V) (o : Option Bytes) → h.to_str val ≡ o → Answer val (parse_value h val)
    unfolding parse_value
    value-Answer val none unread = rw (unread, parse_value) (rejected λ s d found e. cc)
    value-Answer val (some s) read = rw (read, parse_value) (text-Answer val s read)

  module _ {val : V} where
    pub Answer-total :
        {r : Exec (Result (Option Duration) V)}
        → Answer val r
        → (r' : Result (Option Duration) V) × (r ≡ done r')
    Answer-total (accepted s d read e) = (ok (some d), refl)
    Answer-total (rejected no_text) = (err val, refl)

    pub Answer_accepted :
        {r : Exec (Result (Option Duration) V)} (d : Duration)
        → Answer val r
        → (r ≡ done (ok (some d))) ↔ ((s : Bytes) × (h.to_str val ≡ some s) × Encodes s d)
    Answer_accepted d (accepted s d' read e) = (
      (λ same. let same_d : d' ≡ d = cc in (s, read, rw same_d at e)),
      (λ (t, read_t, e_t).
          let same_s : t ≡ s = cc in
          ap (λ x. done (ok (some x))) (Encodes-unique s d' d e (rw same_s at e_t))),
    )
    Answer_accepted d (rejected no_text) =
        (λ same. cc, λ (t, read_t, e_t). absurd (no_text t d read_t e_t))

    pub Answer_rejected :
        {r : Exec (Result (Option Duration) V)} (v : V)
        → Answer val r
        → (r ≡ done (err v))
          ↔ ((val ≡ v) × ((s : Bytes) (d : Duration) → h.to_str v ≡ some s → ¬ Encodes s d))
    Answer_rejected v (accepted s d read e) =
        (λ same. cc, λ (same, no_text). absurd (no_text s d (cc) e))
    Answer_rejected v (rejected no_text) = (
      (λ same. let same_v : val ≡ v = cc in (same_v, rw same_v at no_text)),
      (λ (same, _). ap (λ x. done (err x)) same),
    )
