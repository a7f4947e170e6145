-- ===== src/Reconnect/Delivery.antt =====
-- Where the errors of making a connection go, over any calls of `poll_ready` and `call` of
-- src/service/reconnect.rs.
use tonic_transport_native.Common.{
  ℕ, zero, suc, ◌≡◌, refl, sym, ap, ◌∙◌, Option, none, some, is_some, List, [], ◌∷◌, ◌++◌, map,
  append_assoc, append-nil, if◌then◌else◌, arith,
}
use mathlib.Core.List.{map-append}
use tonic_transport_native.Runtime.{
  Result, ok, err, Exec, done, panic, out_of_fuel, ◌>>=◌, Poll, pending, ready, Future, Service,
}
use tonic_transport_native.Error.{BoxError}
use tonic_transport_native.Reconnect.Machine.{
  State, idle, connecting, connected, Reconnect, Turn, continue, return, Inner, future, error,
  on_maker, on_connecting, on_connected, turn_at, turn, loop, poll_ready, call_at, call,
}

-- An error in an answer.
abbrev pub failure_in {ℓ} : {A E S : Type ℓ} → Exec (Poll (Result A E) × S) → List E
failure_in (done (ready (err e), s)) = e ∷ []
failure_in (done (ready (ok a), s)) = []
failure_in (done (pending, s)) = []
failure_in panic = []
failure_in out_of_fuel = []

abbrev pub stored : {M T F S X : Type 0} → Reconnect M T F S X → List (BoxError X)
stored r = elim (r.error) [ none ↦ [] | some e ↦ e ∷ [] ]

-- The errors that the caller gets from `poll_ready`, and with the future of `call`.
abbrev pub told_by_poll {ℓ} : {A E : Type ℓ} → Poll (Result A E) → List E
told_by_poll pending = []
told_by_poll (ready (ok a)) = []
told_by_poll (ready (err e)) = e ∷ []

abbrev pub told_by_call : {G X : Type 0} → Inner G X → List (BoxError X)
told_by_call (future g) = []
told_by_call (error none) = []
told_by_call (error (some e)) = e ∷ []

module _ {M T F S R G ME SE X : Type 0} (mk : Service M T F ME) (fut : Future F (Result S ME))
    (inner : Service S R G SE) (into : ME → BoxError X) where
  -- The error of the maker, or of the future of the connection, that a turn of the loop meets.
  abbrev pub failure_at : State F S → Reconnect M T F S X → List ME
  failure_at idle r = failure_in (mk.poll_ready r.mk_service)
  failure_at (connecting f) r = failure_in (fut.poll f)
  failure_at (connected s) r = []

  -- The errors that the turns of the loop meet, and those of a call of `poll_ready`.
  unfoldable pub loop_failures : ℕ → Reconnect M T F S X → List ME
  loop_failures zero r = []
  loop_failures (suc fuel) r = failure_at r.state r ++ (elim (turn mk fut inner into r) [
    | done (continue r') ↦ loop_failures fuel r'
    | done (return p r') ↦ []
    | panic ↦ []
    | out_of_fuel ↦ []
  ])

  abbrev pub poll_failures : ℕ → Reconnect M T F S X → List ME
  poll_failures fuel r = if is_some r.error then [] else loop_failures fuel r

  -- Calls of `poll_ready` and of `call`, in any order, from one state to another, with the errors
  -- of making a connection on the way, and the errors that their caller gets.
  pub data Calls
      : Reconnect M T F S X → List ME → List (BoxError X) → Reconnect M T F S X → Type 0 where
    no_more : (r : Reconnect M T F S X) → Calls r [] [] r
    polled :
        {r r₁ r' : Reconnect M T F S X} {failures : List ME} {told : List (BoxError X)} (fuel : ℕ)
        (p : Poll (Result (Unit {0}) (BoxError X)))
        → poll_ready mk fut inner into fuel r ≡ done (p, r₁)
        → Calls r₁ failures told r'
        → Calls r (poll_failures fuel r ++ failures) (told_by_poll p ++ told) r'
    called :
        {r r₁ r' : Reconnect M T F S X} {failures : List ME} {told : List (BoxError X)}
        (request : R) (g : Inner G X)
        → call mk fut inner into r request ≡ done (g, r₁)
        → Calls r₁ failures told r'
        → Calls r failures (told_by_call g ++ told) r'

  abbrev Answer : Type 0
  Answer = Poll (Result (Unit {0}) (BoxError X)) × Reconnect M T F S X

  stored_clear : (r : Reconnect M T F S X) → r.error ≡ none → stored r ≡ []
  stored_clear r clear = rw clear refl

  turn_returns :
      (r r' : Reconnect M T F S X) (p : Poll (Result (Unit {0}) (BoxError X)))
      → r.error ≡ none
      → turn mk fut inner into r ≡ done (return p r')
      → map into (failure_at r.state r) ≡ told_by_poll p ++ stored r'
  unfolding turn turn_at on_maker on_connecting on_connected
  turn_returns r r' p clear h = ground arith

  turn_continues :
      (r r' : Reconnect M T F S X)
      → r.error ≡ none
      → turn mk fut inner into r ≡ done (continue r')
      → (failure_at r.state r ≡ []) × (r'.error ≡ none)
  unfolding turn turn_at on_maker on_connecting on_connected
  turn_continues r r' clear h = ground arith

  call_told :
      (r r' : Reconnect M T F S X) (request : R) (g : Inner G X)
      → call mk fut inner into r request ≡ done (g, r')
      → stored r ≡ told_by_call g ++ stored r'
  unfolding call call_at
  call_told r r' request g h = ground arith

  loop_told :
      (fuel : ℕ) (r r' : Reconnect M T F S X) (p : Poll (Result (Unit {0}) (BoxError X)))
      → r.error ≡ none
      → loop mk fut inner into fuel r ≡ done (p, r')
      → map into (loop_failures fuel r) ≡ told_by_poll p ++ stored r'
  unfolding loop loop_failures
  loop_told zero r r' p clear h = cc
  loop_told (suc fuel) r r' p clear h =
      by (turn mk fut inner into r) (λ r₁. loop_told fuel r₁ r' p) refl h
    where
      by :
          (t : Exec (Turn M T F S X))
          → ((r₁ : Reconnect M T F S X)
              → r₁.error ≡ none
              → loop mk fut inner into fuel r₁ ≡ done (p, r')
              → map into (loop_failures fuel r₁) ≡ told_by_poll p ++ stored r')
          → turn mk fut inner into r ≡ t
          → (t >>= λ t. elim t [
            | continue r₁ ↦ loop mk fut inner into fuel r₁
            | return q r₁ ↦ done (q, r₁)
          ])
            ≡ done (p, r')
          → map into (
              failure_at r.state r ++ (elim t [
                | done (continue r₁) ↦ loop_failures fuel r₁
                | done (return q r₁) ↦ []
                | panic ↦ []
                | out_of_fuel ↦ []
              ]))
            ≡ told_by_poll p ++ stored r'
      by (done (continue r₁)) ih e h =
          let (none_here, still) = turn_continues r r₁ clear e in rw none_here (ih r₁ still h)
      by (done (return q r₁)) ih e h =
          let told = turn_returns r r₁ q clear e in
          let same : ◌≡◌ {A = Answer} (q, r₁) (p, r') = cc in
          rw (append-nil (failure_at r.state r))
            (told ∙ ap (λ (x : Answer). told_by_poll x.0 ++ stored x.1) same)
      by panic ih e h = cc
      by out_of_fuel ih e h = cc

  poll_told :
      (fuel : ℕ) (r r' : Reconnect M T F S X) (p : Poll (Result (Unit {0}) (BoxError X)))
      → poll_ready mk fut inner into fuel r ≡ done (p, r')
      → stored r ++ map into (poll_failures fuel r) ≡ told_by_poll p ++ stored r'
  unfolding poll_ready
  poll_told fuel r r' p h = by r.error refl h
    where
      by :
          (o : Option (BoxError X))
          → r.error ≡ o
          → (if is_some o then done (ready (ok tt), r) else loop mk fut inner into fuel r)
            ≡ done (p, r')
          → stored r ++ map into (if is_some o then [] else loop_failures fuel r)
            ≡ told_by_poll p ++ stored r'
      by (some e) kept h =
          let same : ◌≡◌ {A = Answer} (ready (ok tt), r) (p, r') = cc in
          append-nil (stored r) ∙ ap (λ (x : Answer). told_by_poll x.0 ++ stored x.1) same
      by none clear h =
          ap (λ es. es ++ map into (loop_failures fuel r)) (stored_clear r clear)
          ∙ loop_told fuel r r' p clear h

  -- Nothing is lost, made up, told twice or out of order: over any calls of `poll_ready` and `call`,
  -- the errors of making a connection, behind the one that was stored before, are those that the
  -- caller was told, and the one that is stored behind them, if any.
  pub errors_told_once :
      (r r' : Reconnect M T F S X) (failures : List ME) (told : List (BoxError X))
      → Calls r failures told r'
      → stored r ++ map into failures ≡ told ++ stored r'
  errors_told_once r _ _ _ (no_more _) = append-nil (stored r)
  errors_told_once r r' _ _ (polled {r₁ = r₁} {failures = failures} {told = told} fuel p h rest) =
      ap (λ es. stored r ++ es) (map-append into (poll_failures fuel r) failures)
      ∙ sym (append_assoc (stored r) (map into (poll_failures fuel r)) (map into failures))
      ∙ ap (λ es. es ++ map into failures) (poll_told fuel r r₁ p h)
      ∙ append_assoc (told_by_poll p) (stored r₁) (map into failures)
      ∙ ap (λ es. told_by_poll p ++ es) (errors_told_once r₁ r' failures told rest)
      ∙ sym (append_assoc (told_by_poll p) told (stored r'))
  errors_told_once r r' failures _ (called {r₁ = r₁} {told = told} request g h rest) =
      ap (λ es. es ++ map into failures) (call_told r r₁ request g h)
      ∙ append_assoc (told_by_call g) (stored r₁) (map into failures)
      ∙ ap (λ es. told_by_call g ++ es) (errors_told_once r₁ r' failures told rest)
      ∙ sym (append_assoc (told_by_call g) told (stored r'))
