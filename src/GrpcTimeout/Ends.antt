-- ===== src/GrpcTimeout/Ends.antt =====
-- How a request ends under src/service/grpc_timeout.rs, with a timer or without one.
use tonic_transport_native.Common.{ℕ, suc, Option, none, some}
use tonic_transport_native.Runtime.{Result, err, map_err, Future, Resolves, Waits}
use tonic_transport_native.Error.{BoxError, timeout_expired}
use tonic_transport_native.GrpcTimeout.Middleware as GrpcTimeout
use tonic_transport_native.GrpcTimeout.Race.{future_expired, future_in_time, future_untimed}

module _ {F T R : Type 0} (fut : Future F R) (timer : Future T (Unit {0})) where
  -- The timer, if there is one, is not ready in the first `k` polls.
  abbrev pub Unfired : Option T → ℕ → Type 0
  Unfired none k = Unit {0}
  Unfired (some t) k = Waits timer t k

module _ {F T A E X : Type 0} (fut : Future F (Result A E)) (timer : Future T (Unit {0}))
    (into : E → BoxError X) where
  -- How a request ends at the poll behind `k` polls: by the answer of its service, no later than its
  -- timer, or by its timer.
  pub data Ends (f : F) : Option T → ℕ → Result A (BoxError X) → Type 0 where
    in_time :
        (sleep : Option T) (k : ℕ) (r : Result A E)
        → Resolves fut f k r
        → Unfired fut timer sleep k
        → Ends f sleep k (map_err into r)
    out_of_time :
        (t : T) (k : ℕ)
        → Waits fut f (suc k)
        → Resolves timer t k tt
        → Ends f (some t) k (err timeout_expired)

  pub timed-Resolves :
      (f : F) (sleep : Option T) (k : ℕ) (r : Result A (BoxError X))
      → Ends f sleep k r
      → Resolves (GrpcTimeout.future fut timer into) (record { inner = f; sleep = sleep }) k r
  timed-Resolves f _ _ _ (in_time none k r answered _) =
      future_untimed fut timer into f k r answered
  timed-Resolves f _ _ _ (in_time (some t) k r answered waits) =
      future_in_time fut timer into f t k r answered waits
  timed-Resolves f _ _ _ (out_of_time t k waits fired) =
      future_expired fut timer into f t k waits fired
