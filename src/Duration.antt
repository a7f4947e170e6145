-- ===== src/Duration.antt =====
-- `std::time::Duration`: whole seconds (u64) and nanoseconds below a second (u32).
use tonic_transport_native.Common.{
  ℕ, ◌+◌, ◌*◌, ◌/◌, ◌%◌, ◌<◌, ◌≤◌, ◌≡◌, ◌↔◌, Bool, ◌&&◌, ◌||◌, true, ltb, leb, ◌==◌, if◌then◌else◌,
  arith,
}
use Prim.Native.Nat as Nat

pub record Duration : Type 0 where
  pub secs : ℕ
  pub nanos : ℕ

unfoldable pub from_secs : ℕ → Duration
from_secs n = record { secs = n; nanos = 0 }

unfoldable pub from_millis : ℕ → Duration
from_millis n = record { secs = n / 1000; nanos = (n % 1000) * 1_000_000 }

unfoldable pub from_micros : ℕ → Duration
from_micros n = record { secs = n / 1_000_000; nanos = (n % 1_000_000) * 1000 }

unfoldable pub from_nanos : ℕ → Duration
from_nanos n = record { secs = n / 1_000_000_000; nanos = n % 1_000_000_000 }

-- The derived order compares the seconds first.
unfoldable pub le : Duration → Duration → Bool
le a b = ltb a.secs b.secs || (a.secs == b.secs && leb a.nanos b.nanos)

-- `std::cmp::min`, which keeps its first argument if both are equal.
unfoldable pub min : Duration → Duration → Duration
unfolding le
min a b = if le a b then a else b

unfoldable pub as_nanos : Duration → ℕ
as_nanos d = d.secs * 1_000_000_000 + d.nanos

-- The part below a second is below a second.
abbrev pub IsNormal : Duration → Type 0
IsNormal d = d.nanos < 1_000_000_000

pub as_nanos-from_secs : (n : ℕ) → as_nanos (from_secs n) ≡ n * 1_000_000_000
unfolding as_nanos from_secs
as_nanos-from_secs n = omega arith

pub as_nanos-from_millis : (n : ℕ) → as_nanos (from_millis n) ≡ n * 1_000_000
unfolding as_nanos from_millis
as_nanos-from_millis n = omega arith

pub as_nanos-from_micros : (n : ℕ) → as_nanos (from_micros n) ≡ n * 1000
unfolding as_nanos from_micros
as_nanos-from_micros n = omega arith

pub as_nanos-from_nanos : (n : ℕ) → as_nanos (from_nanos n) ≡ n
unfolding as_nanos from_nanos
as_nanos-from_nanos n = omega arith

-- Between normal durations the order is that of the nanoseconds.
pub le_iff :
    (a b : Duration) → IsNormal a → IsNormal b → (le a b ≡ true) ↔ (as_nanos a ≤ as_nanos b)
unfolding le as_nanos
le_iff a b p q = (λ h. ground arith, λ h. ground arith)

pub as_nanos-min :
    (a b : Duration)
    → IsNormal a
    → IsNormal b
    → as_nanos (min a b) ≡ Nat.min (as_nanos a) (as_nanos b)
unfolding min le as_nanos
as_nanos-min a b p q = ground arith
