-- ===== src/GrpcTimeout/Number.antt =====
-- The standard library's `str::parse::<u64>`, `str::split_at` and checked arithmetic, as
-- src/service/grpc_timeout.rs uses them.
use tonic_transport_native.Common.{
  not, ℕ, zero, suc, ◌+◌, ◌-◌, ◌*◌, ◌^◌, ◌≤◌, ◌<◌, ◌≡◌, ap, ◌∙◌, ◌⊎◌, inl, inr, refl, Bool, true,
  false, not, ◌||◌, ◌&&◌, Option, none, some, [], ◌∷◌, ◌++◌, Bytes, All, length, length-append,
  take, drop, take-append, drop-append, Bool-cases, ltb, leb, ◌==◌, if◌then◌else◌, arith,
}
use native.Mathlib.Nat.{pow-suc, pow-le-pow_right}
use tonic_transport_native.Runtime.{Exec, done, panic}

abbrev pub max_u64 : ℕ
max_u64 = 2 ^ 64 - 1

-- `a * b` in u64, which panics on overflow in a build with overflow checks.
unfoldable pub mul_u64 : ℕ → ℕ → Exec ℕ
mul_u64 a b = if leb (a * b) max_u64 then done (a * b) else panic

-- `a - b` in usize, which panics below 0.
unfoldable pub sub_usize : ℕ → ℕ → Exec ℕ
sub_usize a b = if leb b a then done (a - b) else panic

-- Where a character of UTF-8 begins, or the text ends.
char_boundary_at : Bytes → ℕ → Bool
char_boundary_at [] zero = true
char_boundary_at [] (suc i) = false
char_boundary_at (c ∷ s) zero = ltb c 128 || leb 192 c
char_boundary_at (c ∷ s) (suc i) = char_boundary_at s i

is_char_boundary : Bytes → ℕ → Bool
is_char_boundary s i = i == 0 || char_boundary_at s i

unfoldable pub split_at : Bytes → ℕ → Exec (Bytes × Bytes)
unfolding is_char_boundary char_boundary_at
split_at s mid = if is_char_boundary s mid then done (take mid s, drop mid s) else panic

abbrev is_digit : ℕ → Bool
is_digit c = leb b'0' c && leb c b'9'

-- A digit behind the number read so far.
abbrev shift : ℕ → ℕ → ℕ
shift read c = read * 10 + (c - b'0')

-- The loop of `from_str_radix`: `checked_mul` and `checked_add` refuse what does not fit.
digits_from : ℕ → Bytes → Option ℕ
digits_from read [] = some read
digits_from read (c ∷ left) =
    let more = digits_from (shift read c) left in
    if not (is_digit c) then none else if ltb max_u64 (shift read c) then none else more

-- A number may have a plus sign in front; neither the empty text nor a lone sign is one.
unfoldable pub parse_u64 : Bytes → Option ℕ
unfolding digits_from
parse_u64 [] = none
parse_u64 (c ∷ []) = if c == b'+' then none else digits_from 0 (c ∷ [])
parse_u64 (c ∷ d ∷ s) = if c == b'+' then digits_from 0 (d ∷ s) else digits_from 0 (c ∷ d ∷ s)

abbrev pub IsDigit : ℕ → Type 0
IsDigit c = (b'0' ≤ c) × (c ≤ b'9')

-- The number that digits spell, behind a number to the left of them.
abbrev pub decimal : Bytes → ℕ → ℕ
decimal [] left = left
decimal (c ∷ right) left = decimal right (shift left c)

-- A text that spells the number `n`: an optional plus sign and one or more digits.
pub record Spells (s : Bytes) (n : ℕ) : Type 0 where
  pub sign : Bytes
  pub digits : Bytes
  pub text : s ≡ sign ++ digits
  pub is_sign : (sign ≡ []) ⊎ (sign ≡ b'+' ∷ [])
  pub is_digits : All IsDigit digits
  pub some_digits : 0 < length digits
  pub number : decimal digits 0 ≡ n

digits_from_accepts :
    (read r : ℕ) (s : Bytes) → digits_from read s ≡ some r → All IsDigit s × (decimal s read ≡ r)
unfolding digits_from
digits_from_accepts read r [] h = ground arith
digits_from_accepts read r (c ∷ right) h =
    ground (arith, digits_from_accepts (shift read c) r right)

-- More digits never make a number smaller, so a number that fits has fitted all along.
decimal_grows : (left : ℕ) (s : Bytes) → left ≤ decimal s left
decimal_grows left [] = omega arith
decimal_grows left (c ∷ right) = omega (arith, decimal_grows (shift left c) right)

digits_from-decimal :
    (read : ℕ) (s : Bytes)
    → decimal s read ≤ max_u64
    → All IsDigit s
    → digits_from read s ≡ some (decimal s read)
unfolding digits_from
digits_from-decimal read [] small _ = refl
digits_from-decimal read (c ∷ right) small (here, rest) =
    let below = decimal_grows (shift read c) right in
    ground (arith, digits_from-decimal (shift read c) right small rest)

-- Digits behind a number make less than the next number, shifted by as many places.
decimal-lt : (left : ℕ) (s : Bytes) → All IsDigit s → decimal s left < (left + 1) * 10 ^ length s
decimal-lt left [] _ = omega arith
decimal-lt left (c ∷ right) (here, rest) =
    let shifted : (shift left c + 1) * 10 ^ length right ≤ (left + 1) * 10 * 10 ^ length right =
      grind arith in
    rw pow-suc (omega (arith, decimal-lt (shift left c) right rest))

unsigned : (s : Bytes) (n : ℕ) → 0 < length s → digits_from 0 s ≡ some n → Spells s n
unsigned s n some_digits h = record {
  sign = [];
  digits = s;
  text = refl;
  is_sign = inl refl;
  is_digits = (digits_from_accepts 0 n s h).0;
  some_digits = some_digits;
  number = (digits_from_accepts 0 n s h).1;
}

signed :
    (c : ℕ) (s : Bytes) (n : ℕ)
    → (c == b'+') ≡ true
    → 0 < length s
    → digits_from 0 s ≡ some n
    → Spells (c ∷ s) n
signed c s n plus some_digits h = record {
  sign = b'+' ∷ [];
  digits = s;
  text = ground arith;
  is_sign = inr refl;
  is_digits = (digits_from_accepts 0 n s h).0;
  some_digits = some_digits;
  number = (digits_from_accepts 0 n s h).1;
}

-- What `parse` accepts is a number in digits, with or without a plus sign.
pub parse_u64_sound : (s : Bytes) (n : ℕ) → parse_u64 s ≡ some n → Spells s n
unfolding parse_u64
parse_u64_sound [] n h = cc
parse_u64_sound (c ∷ []) n h = elim (Bool-cases (c == b'+')) [
  | inl plus ↦ absurd (ground arith)
  | inr plain ↦ unsigned (c ∷ []) n (omega arith) (rw plain at h)
]
parse_u64_sound (c ∷ d ∷ s) n h = elim (Bool-cases (c == b'+')) [
  | inl plus ↦ signed c (d ∷ s) n plus (omega arith) (rw plus at h)
  | inr plain ↦ unsigned (c ∷ d ∷ s) n (omega arith) (rw plain at h)
]

parse_u64_digits : (s : Bytes) → 0 < length s → All IsDigit s → parse_u64 s ≡ digits_from 0 s
unfolding parse_u64
parse_u64_digits [] h d = absurd (omega arith)
parse_u64_digits (c ∷ []) h d = ground arith
parse_u64_digits (c ∷ e ∷ s) h d = ground arith

parse_u64_plus : (s : Bytes) → 0 < length s → parse_u64 (b'+' ∷ s) ≡ digits_from 0 s
unfolding parse_u64
parse_u64_plus [] h = absurd (omega arith)
parse_u64_plus (c ∷ s) h = refl

-- Every number in digits that fits is accepted.
pub parse_u64_complete : (s : Bytes) (n : ℕ) → Spells s n → n ≤ max_u64 → parse_u64 s ≡ some n
parse_u64_complete s n p fits = rw p.text (
    from_sign p.sign p.is_sign
    ∙ digits_from-decimal 0 p.digits (omega (arith, p.number)) p.is_digits
    ∙ ap some p.number)
  where
    from_sign :
        (sign : Bytes)
        → (sign ≡ []) ⊎ (sign ≡ b'+' ∷ [])
        → parse_u64 (sign ++ p.digits) ≡ digits_from 0 p.digits
    from_sign sign (inl e) = rw e (parse_u64_digits p.digits p.some_digits p.is_digits)
    from_sign sign (inr e) = rw e (parse_u64_plus p.digits p.some_digits)

length-sign : {s : Bytes} {n : ℕ} (p : Spells s n) → length p.digits ≤ length s
length-sign {s} p = omega (arith, ap length p.text, length-append p.sign p.digits)

-- At most eight bytes spell a number below 10 ^ 8.
pub Spells-small : (s : Bytes) (n : ℕ) → Spells s n → length s ≤ 8 → n < 100_000_000
Spells-small s n p short =
    let powers : 10 ^ length p.digits ≤ 10 ^ 8 =
      pow-le-pow_right (omega arith) {j = 8} (omega (arith, length-sign p)) in
    omega (arith, decimal-lt 0 p.digits p.is_digits, powers, p.number)

boundary_snoc :
    (front : Bytes) (c : ℕ) → c < 128 → char_boundary_at (front ++ c ∷ []) (length front) ≡ true
unfolding char_boundary_at
boundary_snoc [] c h = ground arith
boundary_snoc (d ∷ front) c h = boundary_snoc front c h

-- Before a last byte that is ASCII, a text may be split.
pub split_at-snoc :
    (front : Bytes) (c : ℕ)
    → c < 128
    → split_at (front ++ c ∷ []) (length front) ≡ done (front, c ∷ [])
unfolding split_at is_char_boundary
split_at-snoc front c h =
    ground (arith, boundary_snoc front c h, take-append front (c ∷ []), drop-append front (c ∷ []))
