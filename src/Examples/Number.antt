-- ===== src/Examples/Number.antt =====
-- The numbers that examples/hello.proto declares, 32-bit integers with a sign, and how `{}` of Rust
-- prints them.
use tonic_transport_native.Common.{
  ℕ, suc, ◌^◌, ◌<◌, ◌≡◌, ap, sym, ◌∙◌, [], ◌∷◌, Bytes, All, length, arith,
}
use tonic_transport_native.GrpcTimeout.Number.{IsDigit, decimal}
use tonic_transport_native.GrpcTimeout.Print.{
  digits, digits-IsDigit, digits_nonempty, decimal-digits,
}

-- A number that is at least 0, or `negsuc n` for `-(n + 1)`.
pub data ℤ : Type 0 where
  pos negsuc : ℕ → ℤ

-- What an `i32` holds.
abbrev pub IsI32 : ℤ → Type 0
IsI32 (pos n) = n < 2 ^ 31
IsI32 (negsuc n) = n < 2 ^ 31

-- `Display`. An `i32` has at most ten digits.
unfoldable pub show : ℤ → Bytes
show (pos n) = digits 10 n
show (negsuc n) = b'-' ∷ digits 10 (suc n)

-- What begins with a digit does not begin with a minus sign.
digits_unsigned : (s t : Bytes) → All IsDigit s → 0 < length s → ¬ (s ≡ b'-' ∷ t)
digits_unsigned [] t d long = λ same. omega (arith, long)
digits_unsigned (c ∷ s) t (d, ds) long = λ same. let first : c ≡ b'-' = cc in omega arith

digits_injective : (m n : ℕ) → m < 10 ^ 10 → n < 10 ^ 10 → digits 10 m ≡ digits 10 n → m ≡ n
digits_injective m n small_m small_n same =
    sym (decimal-digits 10 m small_m) ∙ ap (λ s. decimal s 0) same ∙ decimal-digits 10 n small_n

-- Numbers that are printed in the same way are the same.
pub show_injective : (x y : ℤ) → IsI32 x → IsI32 y → show x ≡ show y → x ≡ y
unfolding show
show_injective (pos m) (pos n) hx hy same =
    ap pos (digits_injective m n (omega arith) (omega arith) same)
show_injective (pos m) (negsuc n) hx hy same = absurd (
    digits_unsigned (digits 10 m) (digits 10 (suc n)) (digits-IsDigit 10 m) (digits_nonempty 9 m)
      same)
show_injective (negsuc m) (pos n) hx hy same = absurd (
    digits_unsigned (digits 10 n) (digits 10 (suc m)) (digits-IsDigit 10 n) (digits_nonempty 9 n)
      (sym same))
show_injective (negsuc m) (negsuc n) hx hy same =
    let tails : digits 10 (suc m) ≡ digits 10 (suc n) = cc in
    let next : suc m ≡ suc n = digits_injective (suc m) (suc n) (omega arith) (omega arith) tails in
    ap negsuc (omega arith)
