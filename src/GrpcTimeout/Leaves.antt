-- ===== src/GrpcTimeout/Leaves.antt =====
-- The time that src/service/grpc_timeout.rs leaves for an answer.
use mathlib.Core.Option
use tonic_transport_native.Common.{ℕ, ◌≤◌, ◌≡◌, refl, Option, none, some, inl, inr}
use tonic_transport_native.Runtime.{Future, Resolves, now, later, Waits, idle, still}
use tonic_transport_native.Duration.{Duration, as_nanos}
use tonic_transport_native.Http.{Headers}
use tonic_transport_native.GrpcTimeout.Timer.{TimerLaws, Waits-less}
use tonic_transport_native.GrpcTimeout.Deadline.{IsShortest, Carries, Announces}
use tonic_transport_native.GrpcTimeout.Ends.{Unfired}

-- What is ready at a poll has waited up to then.
Resolves-Waits :
    {F A : Type 0} (fut : Future F A) (f : F) (k : ℕ) (a : A) → Resolves fut f k a → Waits fut f k
Resolves-Waits fut f _ a (now _ e) = idle f
Resolves-Waits fut f _ a (later _ {g = g} e rest) = still f e (Resolves-Waits fut g _ a rest)

module _ {V M T : Type 0} (h : Headers V M) (timer : Future T (Unit {0})) (sleep : Duration → T)
    (timers : TimerLaws timer sleep) where
  -- Neither a timer for what the headers announce, nor one for the timeout that is set, is ready
  -- before the poll behind `k` polls.
  pub record Leaves (headers : M) (set : Option Duration) (k : ℕ) : Type 0 where
    pub by_headers : (d : Duration) → Carries h headers d → k ≤ timers.fires (as_nanos d)
    pub by_timeout : (d : Duration) → set ≡ some d → k ≤ timers.fires (as_nanos d)

  -- So the timer of the request waits that long.
  pub Leaves-Unfired :
      {F R : Type 0} (fut : Future F R) (headers : M) (set client allowed : Option Duration) (k : ℕ)
      → Leaves headers set k
      → Announces h headers client
      → IsShortest client set allowed
      → Unfired fut timer (Option.map sleep allowed) k
  Leaves-Unfired fut headers set client none k leaves announced shortest = tt
  Leaves-Unfired fut headers set client (some x) k leaves announced shortest =
      let wait : k ≤ timers.fires (as_nanos x) → Waits timer (sleep x) k = λ less.
        Waits-less timer (sleep x) k _ less (Resolves-Waits timer _ _ _ (timers.sleeps x)) in
      elim (shortest.one_of x refl) [
        | inl announces ↦ wait (leaves.by_headers x (rw announces at announced))
        | inr is_set ↦ wait (leaves.by_timeout x is_set)
      ]
