-- ===== src/Incoming/Conservation.antt =====
-- Where the connections are that have arrived at the loop of src/server/incoming.rs.
use tonic_transport_native.Common.{
  ℕ, ◌+◌, ◌≡◌, refl, ap, ◌∙◌, true, false, Option, none, some, ◌↔◌, List, [], ◌∷◌, ◌++◌, map, arith,
}
use tonic_transport_native.Runtime.{Result, ok, err}
use tonic_transport_native.Error.{BoxError}
use tonic_transport_native.Incoming.Loop.{
  SelectOutput, Event, stream, task, AcceptLoop, start, remove, accept_result, joined, on_stream,
  on_accept, select, handle, step, run,
}
use tonic_transport_native.Incoming.Weight.{weight, weight-append, weight-remove}
use tonic_transport_native.Incoming.Steps.{step_inv, select_task_inv}

unfoldable pub picked : {A : Type 0} → ℕ → List A → List A
picked i xs = elim (remove i xs) [ none ↦ [] | some (x, rest) ↦ x ∷ [] ]

module _ {A T X E J : Type 0} where
  -- The connection that an event brings.
  pub arrived : Event A T X E J → List A
  arrived (stream (ok (some a))) = a ∷ []
  arrived (stream (ok none)) = []
  arrived (stream (err e)) = []
  arrived (task i r) = []

  pub arrivals : List (Event A T X E J) → List A
  arrivals [] = []
  arrivals (e ∷ es) = arrived e ++ arrivals es

  -- The connection whose handshake an event ends without success.
  pub failed_at : List A → Event A T X E J → List A
  failed_at tasks (stream r) = []
  failed_at tasks (task i (ok (ok t))) = []
  failed_at tasks (task i (ok (err x))) = picked i tasks
  failed_at tasks (task i (err j)) = picked i tasks

  -- A handshake that succeeds is one with the connection underneath (`of`).
  abbrev pub FaithfulAt : (T → A) → List A → Event A T X E J → Type 0
  FaithfulAt of tasks (stream r) = Unit {0}
  FaithfulAt of tasks (task i (ok (ok t))) = picked i tasks ≡ of t ∷ []
  FaithfulAt of tasks (task i (ok (err x))) = Unit {0}
  FaithfulAt of tasks (task i (err j)) = Unit {0}

  module _ (into_stream : E → BoxError X) (into_join : J → BoxError X) where
    pub failures : AcceptLoop A T → List (Event A T X E J) → List A
    failures s [] = []
    failures s (e ∷ es) =
        failed_at s.tasks e
        ++ (elim (step into_stream into_join s e) [ none ↦ [] | some s' ↦ failures s' es ])

    abbrev pub Faithful : (T → A) → AcceptLoop A T → List (Event A T X E J) → Type 0
    Faithful of s [] = Unit {0}
    Faithful of s (e ∷ es) =
        FaithfulAt of s.tasks e × (elim (step into_stream into_join s e) as (λ _. Type 0) [
          | none ↦ Unit {0}
          | some s' ↦ Faithful of s' es
        ])

    module _ (of : T → A) (w : A → ℕ) where
      step-stream :
          (s s' : AcceptLoop A T) (r : Result (Option A) E)
          → step into_stream into_join s (stream r) ≡ some s'
          → weight w (arrived (stream r)) + weight w s.tasks + weight w (map of s.yielded)
            ≡ weight w s'.tasks
              + weight w (map of s'.yielded)
              + weight w (failed_at s.tasks (stream r))
      unfolding step select on_stream weight arrived failed_at
      step-stream s s' (ok (some a)) h = ground (arith, weight-append w s.tasks (a ∷ []))
      step-stream s s' (ok none) h = ground arith
      step-stream s s' (err e) h = ground arith

      weight-snoc :
          (ts : List T) (t : T) → weight w (map of (ts ++ t ∷ [])) ≡ weight w (map of ts) + w (of t)
      unfolding weight
      weight-snoc [] t = omega arith
      weight-snoc (u ∷ ts) t = omega (arith, weight-snoc ts t)

      -- The sums before and behind a step that ends the handshake of `a`.
      step-task :
          (s s' : AcceptLoop A T) (i : ℕ) (a : A) (rest : List A) (r : Result (Result T X) J)
          → remove i s.tasks ≡ some (a, rest)
          → s' ≡ handle (on_accept into_stream into_join (joined r)) (record s { tasks = rest })
          → FaithfulAt of s.tasks (task i r)
          → weight w s.tasks + weight w (map of s.yielded)
            ≡ weight w s'.tasks
              + weight w (map of s'.yielded)
              + weight w (failed_at s.tasks (task i r))
      unfolding handle on_accept failed_at picked accept_result weight
      step-task s s' i a rest (ok (ok t)) removed handled faithful =
          let same : a ∷ [] ≡ of t ∷ [] = rw (removed, picked) at faithful in
          let weights : w a ≡ w (of t) = cc in
          let fields : weight w s'.tasks + weight w (map of s'.yielded)
              ≡ weight w rest + weight w (map of (s.yielded ++ t ∷ [])) =
            ap (λ (q : AcceptLoop A T). weight w q.tasks + weight w (map of q.yielded)) handled in
          omega (
            arith,
            fields,
            weights,
            weight-snoc s.yielded t,
            weight-remove w i s.tasks a rest removed,
          )
      step-task s s' i a rest (ok (err x)) removed handled faithful =
          ground (arith, weight-remove w i s.tasks a rest removed)
      step-task s s' i a rest (err j) removed handled faithful =
          ground (arith, weight-remove w i s.tasks a rest removed)

      step-weight :
          (s s' : AcceptLoop A T) (e : Event A T X E J)
          → FaithfulAt of s.tasks e
          → step into_stream into_join s e ≡ some s'
          → weight w (arrived e) + weight w s.tasks + weight w (map of s.yielded)
            ≡ weight w s'.tasks + weight w (map of s'.yielded) + weight w (failed_at s.tasks e)
      step-weight s s' (stream r) faithful h = step-stream s s' r h
      step-weight s s' (task i r) faithful h =
          let (output, rest, selected, handled, _) =
            step_inv into_stream into_join s s' (task i r) h in
          let (a, removed, is_output) =
            select_task_inv into_stream into_join s.tasks rest i r output selected in
          unfold arrived weight in
          omega (
            arith,
            step-task s s' i a rest r removed
                (handled ∙ ap (λ o. handle o (record s { tasks = rest })) is_output) faithful,
          )

      run-weight :
          (es : List (Event A T X E J)) (s s' : AcceptLoop A T)
          → Faithful of s es
          → run into_stream into_join s es ≡ some s'
          → weight w (arrivals es) + weight w s.tasks + weight w (map of s.yielded)
            ≡ weight w s'.tasks + weight w (map of s'.yielded) + weight w (failures s es)
      unfolding run arrivals failures
      run-weight [] s s' faithful h = ground arith
      run-weight (e ∷ es) s s' (faithful, later) h =
          by (step into_stream into_join s e) later (λ s₁. run-weight es s₁ s') refl h
        where
          by :
              (o : Option (AcceptLoop A T))
              → (elim o as (λ _. Type 0) [ none ↦ Unit {0} | some s₁ ↦ Faithful of s₁ es ])
              → ((s₁ : AcceptLoop A T)
                  → Faithful of s₁ es
                  → run into_stream into_join s₁ es ≡ some s'
                  → weight w (arrivals es) + weight w s₁.tasks + weight w (map of s₁.yielded)
                    ≡ weight w s'.tasks + weight w (map of s'.yielded) + weight w (failures s₁ es))
              → step into_stream into_join s e ≡ o
              → ◌≡◌ {A = Option (AcceptLoop A T)}
                  (elim o [ none ↦ none | some s₁ ↦ run into_stream into_join s₁ es ])
                  (some s')
              → weight w (arrived e ++ arrivals es) + weight w s.tasks + weight w (map of s.yielded)
                ≡ weight w s'.tasks
                  + weight w (map of s'.yielded)
                  + weight w
                      (failed_at s.tasks e ++ (elim o [ none ↦ [] | some s₁ ↦ failures s₁ es ]))
          by none later ih stepped h = cc
          by (some s₁) later ih stepped h = omega (
            arith,
            ih s₁ later h,
            step-weight s s₁ e faithful stepped,
            weight-append w (arrived e) (arrivals es),
            weight-append w (failed_at s.tasks e) (failures s₁ es),
          )

      -- Up to any point of any run, by every weighting of connections: those that have arrived are
      -- those whose handshakes run, those that were yielded, and those whose handshakes failed. So
      -- each connection is in one of these places, once.
      pub run_conserves :
          (es : List (Event A T X E J)) (s : AcceptLoop A T)
          → Faithful of start es
          → run into_stream into_join start es ≡ some s
          → weight w (arrivals es)
            ≡ weight w s.tasks + weight w (map of s.yielded) + weight w (failures start es)
      unfolding start weight
      run_conserves es s faithful h = omega (arith, run-weight es start s faithful h)

    step-stream_eq :
        (s s' : AcceptLoop A T) (r : Result (Option A) E)
        → step into_stream into_join s (stream r) ≡ some s'
        → s' ≡ handle (on_stream into_stream into_join r) s
    step-stream_eq s s' r h =
        let (output, tasks, selected, handled, _) =
          step_inv into_stream into_join s s' (stream r) h in
        by s.tasks tasks refl output handled selected
      where
        by :
            (before tasks : List A)
            → s.tasks ≡ before
            → (output : SelectOutput A T X) → s' ≡ handle output (record s { tasks = tasks })
            → select into_stream into_join before (stream r) ≡ some (output, tasks)
            → s' ≡ handle (on_stream into_stream into_join r) s
        by [] tasks at output handled selected = unfold select in cc
        by (a ∷ as') tasks at output handled selected = unfold select in cc

    on_accept_running :
        (s : AcceptLoop A T) (r : Result (Result T X) J)
        → (handle (on_accept into_stream into_join (joined r)) s).running ≡ s.running
    unfolding handle on_accept accept_result
    on_accept_running s (ok (ok t)) = refl
    on_accept_running s (ok (err x)) = refl
    on_accept_running s (err j) = refl

    -- A step ends the loop exactly if the stream of connections has ended: no error does.
    pub step_stops_iff :
        (s s' : AcceptLoop A T) (e : Event A T X E J)
        → step into_stream into_join s e ≡ some s'
        → (s'.running ≡ false) ↔ (e ≡ stream (ok none))
    step_stops_iff s s' (stream (ok (some a))) h =
        let (_, _, _, _, on) = step_inv into_stream into_join s s' _ h in
        let same = step-stream_eq s s' _ h in (unfold handle on_stream in λ off. cc, λ e. cc)
    step_stops_iff s s' (stream (ok none)) h = (
      λ off. refl,
      λ e.
          ap (λ (q : AcceptLoop A T). q.running) (step-stream_eq s s' _ h)
          ∙ unfold handle on_stream in refl,
    )
    step_stops_iff s s' (stream (err x)) h =
        let (_, _, _, _, on) = step_inv into_stream into_join s s' _ h in
        let same = step-stream_eq s s' _ h in (unfold handle on_stream in λ off. cc, λ e. cc)
    step_stops_iff s s' (task i r) h =
        let (output, rest, selected, handled, on) =
          step_inv into_stream into_join s s' (task i r) h in
        let (a, removed, is_output) =
          select_task_inv into_stream into_join s.tasks rest i r output selected in
        let running : s'.running ≡ s.running =
          ap (λ (q : AcceptLoop A T). q.running)
            (handled ∙ ap (λ o. handle o (record s { tasks = rest })) is_output)
          ∙ on_accept_running (record s { tasks = rest }) r in
        (λ off. cc, λ e. cc)

    -- The end of the stream ends the loop at once: the handshakes under way are left behind, and
    -- nothing more happens, so their connections are never yielded.
    pub end_abandons_handshakes :
        (s : AcceptLoop A T)
        → s.running ≡ true
        → (s' : AcceptLoop A T) × (step into_stream into_join s (stream (ok none)) ≡ some s')
          × (s'.tasks ≡ s.tasks)
          × (s'.yielded ≡ s.yielded)
          × ((e : Event A T X E J) → step into_stream into_join s' e ≡ none)
    end_abandons_handshakes s on =
        (record s { running = false }, by s.tasks refl, refl, refl, λ e. unfold step in refl)
      where
        by :
            (tasks : List A)
            → s.tasks ≡ tasks
            → step into_stream into_join s (stream (ok none)) ≡ some (record s { running = false })
        by [] at = unfold step select on_stream in ground arith
        by (a ∷ as') at = unfold step select on_stream in ground arith
