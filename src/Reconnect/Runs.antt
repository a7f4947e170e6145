-- ===== src/Reconnect/Runs.antt =====
-- The loop of `Reconnect::poll_ready` (src/service/reconnect.rs) as a relation: the turns that a
-- call makes, and what holds when it ends.
use tonic_transport_native.Common.{
  ℕ, zero, suc, ◌<◌, ◌≡◌, refl, ◌∙◌, ap, Bool, true, false, ◌||◌, Option, none, some, is_some,
  if◌then◌else◌, arith,
}
use tonic_transport_native.Runtime.{
  Result, ok, Exec, done, panic, out_of_fuel, ◌>>=◌, Poll, ready, Future, Service,
}
use tonic_transport_native.Error.{BoxError}
use tonic_transport_native.Reconnect.Machine.{
  State, idle, connecting, connected, Reconnect, Turn, continue, return, on_maker, on_connecting,
  on_connected, turn_at, turn, loop, poll_ready,
}

abbrev pub is_connected : {F S : Type 0} → State F S → Bool
is_connected (connected s) = true
is_connected idle = false
is_connected (connecting f) = false

abbrev pub is_idle : {F S : Type 0} → State F S → Bool
is_idle idle = true
is_idle (connected s) = false
is_idle (connecting f) = false

-- What holds between two calls: a stored error waits in the idle state of a service that may
-- store errors, and a service that is connected remembers it.
pub record IsValid {M T F S X : Type 0} (r : Reconnect M T F S X) : Type 0 where
  pub stored_idle : is_some r.error ≡ true → is_idle r.state ≡ true
  pub stored_allowed : is_some r.error ≡ true → r.has_been_connected || r.is_lazy ≡ true
  pub remembers : is_connected r.state ≡ true → r.has_been_connected ≡ true

-- How `r'` follows from `r` by a call of `poll_ready` that answers `p`.
pub record Settled {M T F S X : Type 0} (r : Reconnect M T F S X)
    (p : Poll (Result (Unit {0}) (BoxError X))) (r' : Reconnect M T F S X) : Type 0 where
  pub valid : IsValid r'
  pub same_target : r'.target ≡ r.target
  pub same_laziness : r'.is_lazy ≡ r.is_lazy
  pub still_known : r.has_been_connected ≡ true → r'.has_been_connected ≡ true
  pub callable : p ≡ ready (ok tt) → is_some r'.error || is_connected r'.state ≡ true
  pub stored_if_ready : is_some r'.error ≡ true → p ≡ ready (ok tt)

record Continued {M T F S X : Type 0} (r r' : Reconnect M T F S X) : Type 0 where
  no_error : r'.error ≡ none
  same_target : r'.target ≡ r.target
  same_laziness : r'.is_lazy ≡ r.is_lazy
  still_known : r.has_been_connected ≡ true → r'.has_been_connected ≡ true

module _ {M T F S R G ME SE X : Type 0} (mk : Service M T F ME) (fut : Future F (Result S ME))
    (inner : Service S R G SE) (into : ME → BoxError X) where
  -- The loop answers `p` in the turn behind `n` turns that continue.
  pub data Run
      : Reconnect M T F S X
        → ℕ
        → Poll (Result (Unit {0}) (BoxError X))
        → Reconnect M T F S X
        → Type 0 where
    stop :
        (r : Reconnect M T F S X) {r' : Reconnect M T F S X}
        {p : Poll (Result (Unit {0}) (BoxError X))}
        → turn mk fut inner into r ≡ done (return p r')
        → Run r 0 p r'
    go :
        (r : Reconnect M T F S X) {r₁ r' : Reconnect M T F S X} {n : ℕ}
        {p : Poll (Result (Unit {0}) (BoxError X))}
        → turn mk fut inner into r ≡ done (continue r₁)
        → Run r₁ n p r'
        → Run r (suc n) p r'

  -- The loop needs one unit of fuel for each turn.
  pub Run-loop :
      {r r' : Reconnect M T F S X} {n : ℕ} {p : Poll (Result (Unit {0}) (BoxError X))}
      → Run r n p r'
      → (fuel : ℕ) → n < fuel
      → loop mk fut inner into fuel r ≡ done (p, r')
  unfolding loop
  Run-loop (stop r e) zero lt = absurd (omega arith)
  Run-loop (stop r e) (suc fuel) lt = rw e
  Run-loop (go r e run) zero lt = absurd (omega arith)
  Run-loop (go r e run) (suc fuel) lt = rw e (Run-loop run fuel (omega arith))

  loop-Run_after :
      (fuel : ℕ) (r : Reconnect M T F S X) (t : Exec (Turn M T F S X)) {r' : Reconnect M T F S X}
      {p : Poll (Result (Unit {0}) (BoxError X))}
      → turn mk fut inner into r ≡ t
      → ((r₁ : Reconnect M T F S X)
          → loop mk fut inner into fuel r₁ ≡ done (p, r')
          → (n : ℕ) × Run r₁ n p r')
      → (t >>= λ t. elim t [
        | continue r₁ ↦ loop mk fut inner into fuel r₁
        | return q r₁ ↦ done (q, r₁)
      ])
        ≡ done (p, r')
      → (n : ℕ) × Run r n p r'
  loop-Run_after fuel r (done (continue r₁)) e ih h = let (n, run) = ih r₁ h in (suc n, go r e run)
  loop-Run_after fuel r (done (return q r₁)) e ih h = (
    0,
    stop r (
        e
        ∙ ap
            (λ (o : Exec (Poll (Result (Unit {0}) (BoxError X)) × Reconnect M T F S X)).
              o >>= λ x. done (return x.0 x.1))
            h),
  )
  loop-Run_after fuel r panic e ih h = cc
  loop-Run_after fuel r out_of_fuel e ih h = cc

  pub loop-Run :
      (fuel : ℕ) (r : Reconnect M T F S X) {r' : Reconnect M T F S X}
      {p : Poll (Result (Unit {0}) (BoxError X))}
      → loop mk fut inner into fuel r ≡ done (p, r')
      → (n : ℕ) × Run r n p r'
  unfolding loop
  loop-Run zero r h = cc
  loop-Run (suc fuel) r h = loop-Run_after fuel r _ refl (λ r₁. loop-Run fuel r₁) h

  turn_return :
      (r : Reconnect M T F S X) {r' : Reconnect M T F S X}
      {p : Poll (Result (Unit {0}) (BoxError X))}
      → r.error ≡ none
      → turn mk fut inner into r ≡ done (return p r')
      → Settled r p r'
  unfolding turn turn_at on_maker on_connecting on_connected
  turn_return r none_stored h = ground arith

  turn_continue :
      (r : Reconnect M T F S X) {r' : Reconnect M T F S X}
      → r.error ≡ none
      → turn mk fut inner into r ≡ done (continue r')
      → Continued r r'
  unfolding turn turn_at on_maker on_connecting on_connected
  turn_continue r none_stored h = ground arith

  Run-Settled :
      {r r' : Reconnect M T F S X} {n : ℕ} {p : Poll (Result (Unit {0}) (BoxError X))}
      → r.error ≡ none
      → Run r n p r'
      → Settled r p r'
  Run-Settled h (stop r e) = turn_return r h e
  Run-Settled h (go r e run) =
      let c = turn_continue r h e in
      let s = Run-Settled c.no_error run in
      record {
        valid = s.valid;
        same_target = s.same_target ∙ c.same_target;
        same_laziness = s.same_laziness ∙ c.same_laziness;
        still_known = λ known. s.still_known (c.still_known known);
        callable = s.callable;
        stored_if_ready = s.stored_if_ready;
      }

  -- Whatever the connection does, a call of `poll_ready` that answers keeps the service valid and
  -- its target and laziness as they are; a connection once made is never forgotten; an error is
  -- stored only behind a `Ready(Ok)`; and behind every `Ready(Ok)` there is a connection or a
  -- stored error.
  pub poll_ready-Settled :
      (fuel : ℕ) (r r' : Reconnect M T F S X) (p : Poll (Result (Unit {0}) (BoxError X)))
      → IsValid r
      → poll_ready mk fut inner into fuel r ≡ done (p, r')
      → Settled r p r'
  unfolding poll_ready
  poll_ready-Settled fuel r r' p valid h = after r.error refl h
    where
      after :
          (o : Option (BoxError X))
          → r.error ≡ o
          → (if is_some o then done (ready (ok tt), r) else loop mk fut inner into fuel r)
            ≡ done (p, r')
          → Settled r p r'
      after (some e) stored h =
          let same : r ≡ r' = cc in
          let answer : ready (ok tt) ≡ p = cc in
          rw (← same, ← answer)
            (record {
              valid = valid;
              same_target = refl;
              same_laziness = refl;
              still_known = λ known. known;
              callable = λ _. rw stored;
              stored_if_ready = λ _. refl;
            })
      after none clear h = Run-Settled clear (loop-Run fuel r h).1
