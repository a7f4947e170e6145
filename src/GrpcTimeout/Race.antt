-- ===== src/GrpcTimeout/Race.antt =====
-- The response future of src/service/grpc_timeout.rs is a race of the inner future and the timer.
use tonic_transport_native.Common.{ℕ, suc, ◌≡◌, Option, none, some}
use tonic_transport_native.Runtime.{
  Result, err, map_err, done, pending, ready, Future, Resolves, now, later, Waits, still,
}
use tonic_transport_native.Error.{BoxError, timeout_expired}
use tonic_transport_native.GrpcTimeout.Middleware.{ResponseFuture, poll, poll_sleep, future}

module _ {F T E A X : Type 0} (fut : Future F (Result A E)) (timer : Future T (Unit {0}))
    (into : E → BoxError X) where
  abbrev at : F → Option T → ResponseFuture F T
  at f sleep = record { inner = f; sleep = sleep }

  module _ {f g : F} where
    poll-ready :
        {r : Result A E} (sleep : Option T)
        → fut.poll f ≡ done (ready r, g)
        → poll fut timer into (at f sleep) ≡ done (ready (map_err into r), at g sleep)
    unfolding poll poll_sleep
    poll-ready sleep e = rw (e, poll)

    module _ (e : fut.poll f ≡ done (pending, g)) where
      poll-untimed : poll fut timer into (at f none) ≡ done (pending, at g none)
      unfolding poll poll_sleep
      poll-untimed = rw (e, poll)

      poll-waiting :
          {t u : T}
          → timer.poll t ≡ done (pending, u)
          → poll fut timer into (at f (some t)) ≡ done (pending, at g (some u))
      unfolding poll poll_sleep
      poll-waiting w = rw (e, poll) (rw (w, poll_sleep))

      poll-expired :
          {t u : T} {x : Unit {0}}
          → timer.poll t ≡ done (ready x, u)
          → poll fut timer into (at f (some t)) ≡ done (ready (err timeout_expired), at g (some u))
      unfolding poll poll_sleep
      poll-expired w = rw (e, poll) (rw (w, poll_sleep))

  -- With no timer the response is that of the inner future, at the same poll.
  pub future_untimed :
      (f : F) (k : ℕ) (r : Result A E)
      → Resolves fut f k r
      → Resolves (future fut timer into) (record { inner = f; sleep = none }) k (map_err into r)
  unfolding future
  future_untimed f k r (now _ e) = now _ (poll-ready none e)
  future_untimed f k r (later _ e h) = later _ (poll-untimed e) (future_untimed _ _ r h)

  -- If the inner future is ready no later than the timer, its result is the response, at the
  -- poll at which it is ready.
  pub future_in_time :
      (f : F) (t : T) (k : ℕ) (r : Result A E)
      → Resolves fut f k r
      → Waits timer t k
      → Resolves (future fut timer into) (record { inner = f; sleep = some t }) k (map_err into r)
  unfolding future
  future_in_time f t k r (now _ e) w = now _ (poll-ready (some t) e)
  future_in_time f t _ r (later _ e h) (still _ w ws) =
      later _ (poll-waiting e w) (future_in_time _ _ _ r h ws)

  -- If the timer is ready at a poll and the inner future has not been ready up to then, the
  -- response is the error `TimeoutExpired`, at that poll.
  pub future_expired :
      (f : F) (t : T) (k : ℕ)
      → Waits fut f (suc k)
      → Resolves timer t k tt
      → Resolves
          (future fut timer into)
          (record { inner = f; sleep = some t })
          k
          (err timeout_expired)
  unfolding future
  future_expired f t k (still _ e h) (now _ w) = now _ (poll-expired e w)
  future_expired f t _ (still _ e h) (later _ w ws) =
      later _ (poll-waiting e w) (future_expired _ _ _ h ws)
