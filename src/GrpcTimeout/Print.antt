-- ===== src/GrpcTimeout/Print.antt =====
-- The texts that a client of the gRPC protocol writes for a timeout, and what the parser of
-- src/service/grpc_timeout.rs makes of them.
use tonic_transport_native.Common.{
  ℕ, zero, suc, ◌+◌, ◌*◌, ◌-◌, ◌/◌, ◌%◌, ◌^◌, ◌≤◌, ◌<◌, ◌≡◌, refl, ap, ◌∙◌, inl, inr, some, [], ◌∷◌,
  ◌++◌, Bytes, All, All-append, length, length-append, Bool-cases, ltb, if◌then◌else◌, arith,
}
use native.Mathlib.Nat.{pow-suc}
use tonic_transport_native.Runtime.{ok, done}
use tonic_transport_native.Duration.{Duration, IsNormal, as_nanos}
use tonic_transport_native.Http.{
  Headers, TextLaws, MapLaws, ValueLaws, VisibleLaws, IsFieldByte, IsVisible,
}
use tonic_transport_native.GrpcTimeout.Number.{IsDigit, decimal}
use tonic_transport_native.GrpcTimeout.Parse.{try_parse_grpc_timeout, grpc_timeout_header}
use tonic_transport_native.GrpcTimeout.Grammar.{
  TimeoutUnit, hour, unit_byte, unit_nanos, Encodes, scaled, as_nanos-scaled, scaled-IsNormal,
}
use tonic_transport_native.GrpcTimeout.Header.{try_parse_grpc_timeout_accepts}

-- A number in decimal, if it has no more digits than the first argument.
unfoldable pub digits : ℕ → ℕ → Bytes
digits zero n = []
digits (suc w) n =
    let front = digits w (n / 10) in
    if ltb n 10 then (b'0' + n) ∷ [] else front ++ (b'0' + n % 10) ∷ []

-- A timeout as it stands in a header: a number of at most eight digits and a unit.
pub print : TimeoutUnit → ℕ → Bytes
print u n = digits 8 n ++ unit_byte u ∷ []

pub digits-IsDigit : (w n : ℕ) → All IsDigit (digits w n)
unfolding digits
digits-IsDigit zero n = tt
digits-IsDigit (suc w) n = elim (Bool-cases (ltb n 10)) [
  | inl small ↦ rw small (ground arith)
  | inr large ↦
      rw large (All-append IsDigit (digits w (n / 10)) _ (digits-IsDigit w (n / 10)) (omega arith))
]

length-digits : (w n : ℕ) → length (digits w n) ≤ w
unfolding digits
length-digits zero n = omega arith
length-digits (suc w) n = elim (Bool-cases (ltb n 10)) [
  | inl small ↦ rw small (omega arith)
  | inr large ↦ rw large (
      omega
        (arith, length-append (digits w (n / 10)) ((b'0' + n % 10) ∷ []), length-digits w (n / 10)))
]

pub digits_nonempty : (w n : ℕ) → 0 < length (digits (suc w) n)
unfolding digits
digits_nonempty w n = elim (Bool-cases (ltb n 10)) [
  | inl small ↦ rw small (omega arith)
  | inr large ↦ rw large (omega (arith, length-append (digits w (n / 10)) ((b'0' + n % 10) ∷ [])))
]

decimal-snoc :
    (s : Bytes) (c left : ℕ) → decimal (s ++ c ∷ []) left ≡ decimal s left * 10 + (c - b'0')
decimal-snoc [] c left = refl
decimal-snoc (d ∷ s) c left = decimal-snoc s c _

-- The digits spell the number.
pub decimal-digits : (w n : ℕ) → n < 10 ^ w → decimal (digits w n) 0 ≡ n
unfolding digits
decimal-digits zero n h = omega arith
decimal-digits (suc w) n h = elim (Bool-cases (ltb n 10)) [
  | inl small ↦ rw small (omega arith)
  | inr large ↦
      let smaller : n / 10 < 10 ^ w =
        let bound : n < 10 ^ w * 10 = rw pow-suc at h in omega arith in
      rw large (
        decimal-snoc (digits w (n / 10)) (b'0' + n % 10) 0
        ∙ omega (arith, decimal-digits w (n / 10) smaller))
]

print-Encodes : (u : TimeoutUnit) (n : ℕ) → n < 100_000_000 → Encodes (print u n) (scaled u n)
unfolding print
print-Encodes u n h = record {
  front = digits 8 n;
  unit = u;
  number = n;
  text = refl;
  short = length-digits 8 n;
  spelled = record {
    sign = [];
    digits = digits 8 n;
    text = refl;
    is_sign = inl refl;
    is_digits = digits-IsDigit 8 n;
    some_digits = digits_nonempty 7 n;
    number = decimal-digits 8 n h;
  };
  amount = as_nanos-scaled u n;
  normal = scaled-IsNormal u n;
}

pub IsVisible-IsFieldByte : (s : Bytes) → All IsVisible s → All IsFieldByte s
IsVisible-IsFieldByte [] v = tt
IsVisible-IsFieldByte (c ∷ s) (v, vs) = (inr (omega arith), IsVisible-IsFieldByte s vs)

IsDigit-IsVisible : (s : Bytes) → All IsDigit s → All IsVisible s
IsDigit-IsVisible [] d = tt
IsDigit-IsVisible (c ∷ s) (d, ds) = (omega arith, IsDigit-IsVisible s ds)

print-IsVisible : (u : TimeoutUnit) (n : ℕ) → All IsVisible (print u n)
unfolding print
print-IsVisible u n =
    All-append IsVisible (digits 8 n) (unit_byte u ∷ []) (IsDigit-IsVisible _ (digits-IsDigit 8 n))
      (unit_visible u)
  where
    unit_visible : (u : TimeoutUnit) → All IsVisible (unit_byte u ∷ [])
    unit_visible hour = omega arith
    unit_visible _ = omega arith

module _ {V M : Type 0} (h : Headers V M) (texts : TextLaws h) (visible : VisibleLaws h)
    (values : ValueLaws h) (maps : MapLaws h) where
  -- A timeout of at most eight digits comes back as it was written: a header value can be made of
  -- its text, and with that value set, whatever the headers were before, the parser returns a
  -- duration of as many nanoseconds.
  pub parse-print :
      (headers : M) (u : TimeoutUnit) (n : ℕ)
      → n < 100_000_000
      → (v : V) × (h.from_bytes (print u n) ≡ some v)
        × (d : Duration) × (try_parse_grpc_timeout h (h.insert headers grpc_timeout_header v)
            ≡ done (ok (some d)))
        × (as_nanos d ≡ n * unit_nanos u)
        × IsNormal d
  parse-print headers u n small =
      let shown = print-IsVisible u n in
      let (v, made, bytes) = values.from_bytes_valid (print u n) (IsVisible-IsFieldByte _ shown) in
      let read : h.to_str v ≡ some (print u n) =
        visible.to_str_visible v (rw bytes shown) ∙ ap some bytes in
      (
        v,
        made,
        scaled u n,
        (try_parse_grpc_timeout_accepts h texts (h.insert headers grpc_timeout_header v)
              (scaled u n)).1
            (
              v,
              maps.get-insert_self headers grpc_timeout_header v,
              print u n,
              read,
              print-Encodes u n small,
            ),
        as_nanos-scaled u n,
        scaled-IsNormal u n,
      )
