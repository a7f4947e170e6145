-- ===== src/GrpcTimeout/Grammar.antt =====
-- The texts of the `grpc-timeout` header by the gRPC protocol, against the parser of
-- src/service/grpc_timeout.rs.
use tonic_transport_native.Common.{
  ℕ, ◌*◌, ◌≤◌, ◌≡◌, refl, sym, ap, ◌∙◌, Option, none, some, [], ◌∷◌, ◌++◌, Bytes, length,
  length-append, ◌==◌, if◌then◌else◌, arith,
}
use tonic_transport_native.Duration.{
  Duration, IsNormal, from_secs, from_millis, from_micros, from_nanos, as_nanos, as_nanos-from_secs,
  as_nanos-from_millis, as_nanos-from_micros, as_nanos-from_nanos,
}
use tonic_transport_native.GrpcTimeout.Number.{parse_u64, Spells, parse_u64_complete, Spells-small}

pub data TimeoutUnit : Type 0 where
  hour minute second millisecond microsecond nanosecond : TimeoutUnit

abbrev pub unit_byte : TimeoutUnit → ℕ
unit_byte hour = b'H'
unit_byte minute = b'M'
unit_byte second = b'S'
unit_byte millisecond = b'm'
unit_byte microsecond = b'u'
unit_byte nanosecond = b'n'

abbrev pub unit_nanos : TimeoutUnit → ℕ
unit_nanos hour = 3_600_000_000_000
unit_nanos minute = 60_000_000_000
unit_nanos second = 1_000_000_000
unit_nanos millisecond = 1_000_000
unit_nanos microsecond = 1000
unit_nanos nanosecond = 1

-- The text stands for the duration: a number in at most eight bytes, and one letter for the unit.
pub record Encodes (s : Bytes) (d : Duration) : Type 0 where
  pub front : Bytes
  pub unit : TimeoutUnit
  pub number : ℕ
  pub text : s ≡ front ++ unit_byte unit ∷ []
  pub short : length front ≤ 8
  pub spelled : Spells front number
  pub amount : as_nanos d ≡ number * unit_nanos unit
  pub normal : IsNormal d

unfoldable pub scaled : TimeoutUnit → ℕ → Duration
scaled hour n = from_secs (n * 3600)
scaled minute n = from_secs (n * 60)
scaled second n = from_secs n
scaled millisecond n = from_millis n
scaled microsecond n = from_micros n
scaled nanosecond n = from_nanos n

pub as_nanos-scaled : (u : TimeoutUnit) (n : ℕ) → as_nanos (scaled u n) ≡ n * unit_nanos u
unfolding scaled
as_nanos-scaled hour n = omega (arith, as_nanos-from_secs (n * 3600))
as_nanos-scaled minute n = omega (arith, as_nanos-from_secs (n * 60))
as_nanos-scaled second n = as_nanos-from_secs n
as_nanos-scaled millisecond n = as_nanos-from_millis n
as_nanos-scaled microsecond n = as_nanos-from_micros n
as_nanos-scaled nanosecond n = omega (arith, as_nanos-from_nanos n)

pub scaled-IsNormal : (u : TimeoutUnit) (n : ℕ) → IsNormal (scaled u n)
unfolding scaled from_secs from_millis from_micros from_nanos
scaled-IsNormal hour n = omega arith
scaled-IsNormal minute n = omega arith
scaled-IsNormal second n = omega arith
scaled-IsNormal millisecond n = omega arith
scaled-IsNormal microsecond n = omega arith
scaled-IsNormal nanosecond n = omega arith

-- A normal duration is known by its nanoseconds.
as_nanos-injective : (a b : Duration) → IsNormal a → IsNormal b → as_nanos a ≡ as_nanos b → a ≡ b
unfolding as_nanos
as_nanos-injective a b p q h = ground arith

pub snoc-injective : (xs ys : Bytes) (x y : ℕ) → xs ++ x ∷ [] ≡ ys ++ y ∷ [] → (xs ≡ ys) × (x ≡ y)
snoc-injective [] [] x y h = (refl, cc)
snoc-injective [] (b ∷ ys) x y h = absurd (omega (arith, ap length h, length-append ys (y ∷ [])))
snoc-injective (a ∷ xs) [] x y h = absurd (omega (arith, ap length h, length-append xs (x ∷ [])))
snoc-injective (a ∷ xs) (b ∷ ys) x y h =
    let same : a ≡ b = cc in let (front, last) = snoc-injective xs ys x y (cc) in (cc, last)

unfoldable pub unit_of : ℕ → Option TimeoutUnit
unit_of c =
    if c == b'H'
    then some hour
    else if c == b'M'
    then some minute
    else if c == b'S'
    then some second
    else if c == b'm'
    then some millisecond
    else if c == b'u'
    then some microsecond
    else if c == b'n'
    then some nanosecond
    else none

pub unit_of-unit_byte : (u : TimeoutUnit) → unit_of (unit_byte u) ≡ some u
unfolding unit_of
unit_of-unit_byte hour = refl
unit_of-unit_byte _ = refl

pub unit_of_sound : (c : ℕ) (u : TimeoutUnit) → unit_of c ≡ some u → c ≡ unit_byte u
unfolding unit_of
unit_of_sound c u h = ground arith

unit_byte-injective : (u v : TimeoutUnit) → unit_byte u ≡ unit_byte v → u ≡ v
unit_byte-injective u v h = cc (unit_of-unit_byte u, unit_of-unit_byte v, ap unit_of h)

Spells-unique : (s t : Bytes) (n k : ℕ) → s ≡ t → length s ≤ 8 → Spells s n → Spells t k → n ≡ k
Spells-unique s t n k same short p q =
    let small = Spells-small s n p short in
    let small' = Spells-small t k q (omega (arith, ap length same)) in
    cc (
      parse_u64_complete s n p (omega arith),
      parse_u64_complete t k q (omega arith),
      ap parse_u64 same,
    )

-- A text stands for at most one duration.
pub Encodes-unique : (s : Bytes) (d d' : Duration) → Encodes s d → Encodes s d' → d ≡ d'
Encodes-unique s d d' e e' =
    let (front, last) =
      snoc-injective e.front e'.front (unit_byte e.unit) (unit_byte e'.unit)
        (sym e.text ∙ e'.text) in
    let unit = unit_byte-injective e.unit e'.unit last in
    let number =
      Spells-unique e.front e'.front e.number e'.number front e.short e.spelled e'.spelled in
    as_nanos-injective d d' e.normal e'.normal (
      e.amount
      ∙ ap (λ n. n * unit_nanos e.unit) number
      ∙ ap (λ u. e'.number * unit_nanos u) unit
      ∙ sym e'.amount)
