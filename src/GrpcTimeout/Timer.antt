-- ===== src/GrpcTimeout/Timer.antt =====
-- The timers of tokio that src/service/grpc_timeout.rs sets.
use tonic_transport_native.Common.{ℕ, zero, suc, ◌≤◌, arith}
use tonic_transport_native.Runtime.{Future, Resolves, Waits, idle, still}
use tonic_transport_native.Duration.{Duration, as_nanos}

-- The behaviour of timers: one for a duration is ready at a poll that depends on its length, and a
-- longer one at no earlier poll.
pub record TimerLaws {T : Type 0} (timer : Future T (Unit {0})) (sleep : Duration → T)
    : Type 0 where
  pub fires : ℕ → ℕ
  pub fires_later : (a b : ℕ) → a ≤ b → fires a ≤ fires b
  pub sleeps : (d : Duration) → Resolves timer (sleep d) (fires (as_nanos d)) tt

-- What waits for some polls waits for fewer.
pub Waits-less :
    {F A : Type 0} (fut : Future F A) (f : F) (j k : ℕ) → j ≤ k → Waits fut f k → Waits fut f j
Waits-less fut f zero k less w = idle f
Waits-less fut f (suc j) _ less (idle _) = absurd (omega arith)
Waits-less fut f (suc j) _ less (still _ {g = g} e rest) =
    still f e (Waits-less fut g j _ (omega arith) rest)
