-- ===== src/Reconnect/Contract.antt =====
-- The contract between `poll_ready` and `call` of src/service/reconnect.rs.
use tonic_transport_native.Common.{
  ℕ, suc, ◌≡◌, refl, sym, subst, Bool, true, false, ◌||◌, Option, none, some, is_some, arith,
}
use tonic_transport_native.Runtime.{
  Result, ok, err, map_err, Exec, done, panic, ◌>>=◌, ready, Future, Service, Resolves, now, later,
}
use tonic_transport_native.Error.{BoxError}
use tonic_transport_native.Reconnect.Machine.{
  State, idle, connecting, connected, Reconnect, Inner, future, error, new, turn, turn_at,
  on_connecting, loop, poll_ready, call, poll, response_future,
}
use tonic_transport_native.Reconnect.Runs.{IsValid, is_connected, poll_ready-Settled}

-- A new service is valid.
pub new-IsValid :
    {M T F S X : Type 0} (m : M) (t : T) (is_lazy : Bool)
    → IsValid (new {F = F} {S = S} {X = X} m t is_lazy)
unfolding new
new-IsValid m t is_lazy = ground arith

module _ {M T F S R G ME SE X : Type 0} (mk : Service M T F ME) (fut : Future F (Result S ME))
    (inner : Service S R G SE) (into : ME → BoxError X) where
  -- How `call` ends on a service that may be called: with the stored error, which is taken, or
  -- with the call of the connection.
  pub data Served (r : Reconnect M T F S X) (request : R)
      : Exec (Inner G X × Reconnect M T F S X) → Type 0 where
    with_error :
        (e : BoxError X)
        → r.error ≡ some e
        → Served r request (done (error (some e), record r { error = none }))
    with_connection :
        (s : S)
        → r.error ≡ none
        → r.state ≡ connected s
        → Served r request (
            inner.call s request >>= λ answer.
            done (future answer.0, record r { state = connected answer.1 }))

  call_stored :
      (r : Reconnect M T F S X) (request : R) (e : BoxError X)
      → r.error ≡ some e
      → call mk fut inner into r request ≡ done (error (some e), record r { error = none })
  unfolding call
  call_stored r request e stored = ground arith

  call_connected :
      (r : Reconnect M T F S X) (request : R) (s : S)
      → r.error ≡ none
      → r.state ≡ connected s
      → call mk fut inner into r request ≡ (
          inner.call s request >>= λ answer.
          done (future answer.0, record r { state = connected answer.1 }))
  unfolding call
  call_connected r request s clear at = ground arith

  call-Served :
      (r : Reconnect M T F S X) (request : R)
      → is_some r.error || is_connected r.state ≡ true
      → Served r request (call mk fut inner into r request)
  call-Served r request h = by_error r.error refl
    where
      by_state :
          (s : State F S)
          → r.state ≡ s
          → r.error ≡ none
          → Served r request (call mk fut inner into r request)
      by_state (connected s) at clear =
          subst (Served r request) (sym (call_connected r request s clear at))
            (with_connection s clear at)
      by_state idle at clear = absurd (ground arith)
      by_state (connecting f) at clear = absurd (ground arith)

      by_error :
          (o : Option (BoxError X))
          → r.error ≡ o
          → Served r request (call mk fut inner into r request)
      by_error (some e) stored =
          subst (Served r request) (sym (call_stored r request e stored)) (with_error e stored)
      by_error none clear = by_state r.state refl clear

  -- After a `Ready(Ok)` the panic "service not ready" does not happen: `call` hands out the stored
  -- error and takes it, or calls the connection.
  pub poll_ready-call :
      (fuel : ℕ) (r r' : Reconnect M T F S X) (request : R)
      → IsValid r
      → poll_ready mk fut inner into fuel r ≡ done (ready (ok tt), r')
      → Served r' request (call mk fut inner into r' request)
  poll_ready-call fuel r r' request valid h =
      call-Served r' request
        ((poll_ready-Settled mk fut inner into fuel r r' _ valid h).callable refl)

  -- `call` keeps a valid service valid, whichever way it is served.
  pub call-IsValid :
      (r r' : Reconnect M T F S X) (request : R) (g : Inner G X)
      → IsValid r
      → call mk fut inner into r request ≡ done (g, r')
      → IsValid r'
  unfolding call
  call-IsValid r r' request g valid h = ground arith

  -- A connection that cannot be made: a service that is lazy, or that has been connected before,
  -- is ready and its next call is answered with the error, once: the call takes it, and the
  -- service is idle.
  pub connect_failure_delivered :
      (fuel : ℕ) (r : Reconnect M T F S X) (f g : F) (e : ME) (request : R)
      → r.error ≡ none
      → r.state ≡ connecting f
      → fut.poll f ≡ done (ready (err e), g)
      → r.has_been_connected || r.is_lazy ≡ true
      → (r₁ r₂ : Reconnect M T F S X) × (poll_ready mk fut inner into (suc fuel) r
          ≡ done (ready (ok tt), r₁))
        × (poll_ready mk fut inner into fuel r₁ ≡ done (ready (ok tt), r₁))
        × (call mk fut inner into r₁ request ≡ done (error (some (into e)), r₂))
        × (r₂ ≡ record r { state = idle })
  unfolding poll_ready loop turn turn_at on_connecting call
  connect_failure_delivered fuel r f g e request clear at failed allowed = (
    record r { error = some (into e); state = idle },
    record r { error = none; state = idle },
    ground arith,
    ground arith,
    ground arith,
    ground arith,
  )

  -- The first connection of a service that is not lazy: its failure is the answer of
  -- `poll_ready`. The service then still holds the future that has finished, so the next
  -- `poll_ready` polls that one again, and panics if a finished future does.
  pub eager_failure_polls_again :
      (fuel : ℕ) (r : Reconnect M T F S X) (f g : F) (e : ME)
      → r.error ≡ none
      → r.state ≡ connecting f
      → fut.poll f ≡ done (ready (err e), g)
      → r.has_been_connected || r.is_lazy ≡ false
      → fut.poll g ≡ panic
      → (r' : Reconnect M T F S X) × (poll_ready mk fut inner into (suc fuel) r
          ≡ done (ready (err (into e)), r'))
        × (poll_ready mk fut inner into (suc fuel) r' ≡ panic)
  unfolding poll_ready loop turn turn_at on_connecting
  eager_failure_polls_again fuel r f g e clear at failed eager finished =
      (record r { state = connecting g }, ground arith, ground arith)

-- The response of a stored error is that error, at the first poll; later polls panic.
module _ {G A SE X : Type 0} (fut : Future G (Result A SE)) (into : SE → BoxError X) where
  pub stored-Resolves :
      (e : BoxError X) → Resolves (response_future fut into) (error (some e)) 0 (err e)
  unfolding response_future poll
  stored-Resolves e = now _ {g = error none} refl

  -- The response of a request that reached the connection is that of the connection, at the same
  -- poll.
  pub future-Resolves :
      (f : G) (k : ℕ) (r : Result A SE)
      → Resolves fut f k r
      → Resolves (response_future fut into) (future f) k (map_err into r)
  unfolding response_future poll
  future-Resolves f k r (now _ {g} e) = now _ {g = future g} (rw e)
  future-Resolves f _ r (later _ {g} e h) = later _ {g = future g} (rw e) (future-Resolves g _ r h)
