-- ===== src/Reconnect/Progress.antt =====
-- How many turns the loop of `Reconnect::poll_ready` (src/service/reconnect.rs) takes with a
-- connection that is reliable.
use tonic_transport_native.Common.{
  ℕ, suc, ◌≤◌, ◌≡◌, ◌≢◌, refl, inl, inr, true, ◌||◌, Bool-cases, Option, none, some, arith,
}
use tonic_transport_native.Runtime.{Result, ok, err, done, Poll, pending, ready, Future, Service}
use tonic_transport_native.Error.{BoxError}
use tonic_transport_native.Reconnect.Machine.{
  State, idle, connecting, connected, Reconnect, continue, return, turn, turn_at, on_connecting,
  on_maker, on_connected, poll_ready,
}
use tonic_transport_native.Reconnect.Runs.{
  IsValid, Settled, Run, stop, go, Run-loop, poll_ready-Settled,
}

module _ {M T F S R G ME SE X : Type 0} (mk : Service M T F ME) (fut : Future F (Result S ME))
    (inner : Service S R G SE) (into : ME → BoxError X) (Alive : F → Type 0) where
  -- The first poll of a connection does not find it lost.
  abbrev pub IsFresh : S → Type 0
  IsFresh s = (e : SE) (s' : S) → inner.poll_ready s ≢ done (ready (err e), s')

  -- The maker and its futures as `poll_ready` relies on them: nothing panics, a future is alive
  -- until it is ready, and a connection that was just made is fresh.
  pub record Reliable : Type 0 where
    pub maker_polls :
        (m : M) → (a : Poll (Result (Unit {0}) ME)) × (m' : M) × (mk.poll_ready m ≡ done (a, m'))
    pub maker_makes : (m : M) (t : T) → (f : F) × (m' : M) × (mk.call m t ≡ done (f, m')) × Alive f
    pub future_polls :
        (f : F)
        → Alive f
        → (a : Poll (Result S ME)) × (g : F) × (fut.poll f ≡ done (a, g)) × (a ≡ pending → Alive g)
    pub connection_polls :
        (s : S) → (a : Poll (Result (Unit {0}) SE)) × (s' : S) × (inner.poll_ready s ≡ done (a, s'))
    pub made_fresh : (f g : F) (s : S) → fut.poll f ≡ done (ready (ok s), g) → IsFresh s

  -- A future that is being waited for is alive.
  abbrev pub IsLive : State F S → Type 0
  IsLive idle = Unit {0}
  IsLive (connecting f) = Alive f
  IsLive (connected s) = Unit {0}

  -- The loop ends behind at most `k` turns that continue; unless it fails, no finished future is
  -- left behind.
  record Ends (r : Reconnect M T F S X) (k : ℕ) : Type 0 where
    answer : Poll (Result (Unit {0}) (BoxError X))
    final : Reconnect M T F S X
    turns : ℕ
    few : turns ≤ k
    run : Run mk fut inner into r turns answer final
    live : ((e : BoxError X) → answer ≢ ready (err e)) → IsLive final.state

  Ends-go :
      {r r₁ : Reconnect M T F S X} {k : ℕ}
      → turn mk fut inner into r ≡ done (continue r₁)
      → Ends r₁ k
      → Ends r (suc k)
  Ends-go {r} e ends = record {
    answer = ends.answer;
    final = ends.final;
    turns = suc ends.turns;
    few = omega (arith, ends.few);
    run = go r e ends.run;
    live = ends.live;
  }

  Ends-stop :
      {r r' : Reconnect M T F S X} {p : Poll (Result (Unit {0}) (BoxError X))} (k : ℕ)
      → turn mk fut inner into r ≡ done (return p r')
      → (((e : BoxError X) → p ≢ ready (err e)) → IsLive r'.state)
      → Ends r k
  Ends-stop {r} {r'} {p} k e live = record {
    answer = p;
    final = r';
    turns = 0;
    few = omega arith;
    run = stop r e;
    live = live;
  }

  module _ (reliable : Reliable) where
    fresh-Ends : (r : Reconnect M T F S X) (s : S) → r.state ≡ connected s → IsFresh s → Ends r 0
    fresh-Ends r s at fresh = by (reliable.connection_polls s)
      where
        by :
            (a : Poll (Result (Unit {0}) SE)) × (s' : S) × (inner.poll_ready s ≡ done (a, s'))
            → Ends r 0
        by (pending, s', e) =
            Ends-stop {r' = record r { has_been_connected = true; state = connected s' }}
              {p = pending} 0 (unfold turn turn_at on_connected in ground arith) (λ _. tt)
        by (ready (ok x), s', e) =
            Ends-stop {r' = record r { has_been_connected = true; state = connected s' }}
              {p = ready (ok tt)} 0 (unfold turn turn_at on_connected in ground arith) (λ _. tt)
        by (ready (err x), s', e) = absurd (fresh x s' e)

    connecting-Ends :
        (r : Reconnect M T F S X) (f : F) → r.state ≡ connecting f → Alive f → Ends r 1
    connecting-Ends r f at alive = by (reliable.future_polls f alive)
      where
        by :
            (a : Poll (Result S ME)) × (g : F) × (fut.poll f ≡ done (a, g))
              × (a ≡ pending → Alive g)
            → Ends r 1
        by (pending, g, e, still) =
            Ends-stop {r' = record r { state = connecting g }} {p = pending} 1
              (unfold turn turn_at on_connecting in ground arith) (λ _. still refl)
        by (ready (ok s), g, e, still) =
            Ends-go {r₁ = record r { state = connected s }}
              (unfold turn turn_at on_connecting in ground arith)
              (fresh-Ends (record r { state = connected s }) s refl (reliable.made_fresh f g s e))
        by (ready (err x), g, e, still) = elim (Bool-cases (r.has_been_connected || r.is_lazy)) [
          | inl allowed ↦
              Ends-stop {r' = record r { error = some (into x); state = idle }} {p = ready (ok tt)}
                1 (unfold turn turn_at on_connecting in ground arith) (λ _. tt)
          | inr eager ↦
              Ends-stop {r' = record r { state = connecting g }} {p = ready (err (into x))} 1
                (unfold turn turn_at on_connecting in ground arith)
                (λ unfailed. absurd (unfailed (into x) refl))
        ]

    idle-Ends : (r : Reconnect M T F S X) → r.state ≡ idle → Ends r 2
    idle-Ends r at = by (reliable.maker_polls r.mk_service)
      where
        made :
            (m : M)
            → ((f : F) × (m' : M) × (mk.call m r.target ≡ done (f, m')) × Alive f)
            → {x : Unit {0}} → mk.poll_ready r.mk_service ≡ done (ready (ok x), m)
            → Ends r 2
        made m (f, m', called, alive) e =
            Ends-go {r₁ = record r { mk_service = m'; state = connecting f }}
              (unfold turn turn_at on_maker in ground arith)
              (connecting-Ends (record r { mk_service = m'; state = connecting f }) f refl alive)

        by :
            (a : Poll (Result (Unit {0}) ME)) × (m' : M) × (mk.poll_ready r.mk_service
                ≡ done (a, m'))
            → Ends r 2
        by (pending, m', e) =
            Ends-stop {r' = record r { mk_service = m' }} {p = pending} 2
              (unfold turn turn_at on_maker in ground arith) (λ _. rw at tt)
        by (ready (err x), m', e) =
            Ends-stop {r' = record r { mk_service = m' }} {p = ready (err (into x))} 2
              (unfold turn turn_at on_maker in ground arith) (λ _. rw at tt)
        by (ready (ok x), m', e) = made m' (reliable.maker_makes m' r.target) e

    connected-Ends : (r : Reconnect M T F S X) (s : S) → r.state ≡ connected s → Ends r 3
    connected-Ends r s at = by (reliable.connection_polls s)
      where
        by :
            (a : Poll (Result (Unit {0}) SE)) × (s' : S) × (inner.poll_ready s ≡ done (a, s'))
            → Ends r 3
        by (pending, s', e) =
            Ends-stop {r' = record r { has_been_connected = true; state = connected s' }}
              {p = pending} 3 (unfold turn turn_at on_connected in ground arith) (λ _. tt)
        by (ready (ok x), s', e) =
            Ends-stop {r' = record r { has_been_connected = true; state = connected s' }}
              {p = ready (ok tt)} 3 (unfold turn turn_at on_connected in ground arith) (λ _. tt)
        by (ready (err x), s', e) =
            Ends-go {r₁ = record r { has_been_connected = true; state = idle }}
              (unfold turn turn_at on_connected in ground arith)
              (idle-Ends (record r { has_been_connected = true; state = idle }) refl)

    Ends-more : {r : Reconnect M T F S X} (j k : ℕ) → j ≤ k → Ends r j → Ends r k
    Ends-more j k h ends = record {
      answer = ends.answer;
      final = ends.final;
      turns = ends.turns;
      few = omega (arith, ends.few);
      run = ends.run;
      live = ends.live;
    }

    state-Ends : (r : Reconnect M T F S X) (s : State F S) → r.state ≡ s → IsLive s → Ends r 3
    state-Ends r idle at live = Ends-more 2 3 (omega arith) (idle-Ends r at)
    state-Ends r (connecting f) at live = Ends-more 1 3 (omega arith) (connecting-Ends r f at live)
    state-Ends r (connected s) at live = connected-Ends r s at

    -- How a call of `poll_ready` with that fuel ends.
    pub record Answered (fuel : ℕ) (r : Reconnect M T F S X) : Type 0 where
      pub answer : Poll (Result (Unit {0}) (BoxError X))
      pub final : Reconnect M T F S X
      pub result : poll_ready mk fut inner into fuel r ≡ done (answer, final)
      pub settled : Settled r answer final
      pub live : ((e : BoxError X) → answer ≢ ready (err e)) → IsLive final.state

    clear-Answered :
        (fuel : ℕ) (r : Reconnect M T F S X)
        → 4 ≤ fuel
        → IsValid r
        → r.error ≡ none
        → Ends r 3
        → Answered fuel r
    clear-Answered fuel r enough valid clear ends =
        let looped = Run-loop mk fut inner into ends.run fuel (omega (arith, ends.few)) in
        let result : poll_ready mk fut inner into fuel r ≡ done (ends.answer, ends.final) =
          unfold poll_ready in simp clear looped in
        record {
          answer = ends.answer;
          final = ends.final;
          result = result;
          settled = poll_ready-Settled mk fut inner into fuel r ends.final ends.answer valid result;
          live = ends.live;
        }

    -- With the maker and its futures reliable, four turns are enough: `poll_ready` answers, does
    -- not panic, settles the service, and keeps the future that it waits for alive unless it
    -- answers with an error.
    pub poll_ready_answers :
        (fuel : ℕ) (r : Reconnect M T F S X)
        → 4 ≤ fuel
        → IsValid r
        → IsLive r.state
        → Answered fuel r
    poll_ready_answers fuel r enough valid live = by_error r.error refl
      where
        by_error : (o : Option (BoxError X)) → r.error ≡ o → Answered fuel r
        by_error none clear =
            clear-Answered fuel r enough valid clear (state-Ends r r.state refl live)
        by_error (some e) stored =
            let result : poll_ready mk fut inner into fuel r ≡ done (ready (ok tt), r) =
              unfold poll_ready in ground arith in
            record {
              answer = ready (ok tt);
              final = r;
              result = result;
              settled = poll_ready-Settled mk fut inner into fuel r r (ready (ok tt)) valid result;
              live = λ _. live;
            }
