-- ===== src/Incoming/Steps.antt =====
-- What a step of the loop in src/server/incoming.rs came from.
use tonic_transport_native.Common.{
  ℕ, ◌≡◌, refl, ap, ◌∙◌, Bool, true, false, Option, none, some, List, [], ◌∷◌, if◌then◌else◌,
}
use tonic_transport_native.Runtime.{Result}
use tonic_transport_native.Error.{BoxError}
use tonic_transport_native.Incoming.Loop.{
  SelectOutput, Event, task, AcceptLoop, remove, joined, on_accept, select, handle, step,
}

module _ {A T X E J : Type 0} (into_stream : E → BoxError X) (into_join : J → BoxError X) where
  -- A step takes the output of `select`.
  pub step_inv :
      (s s' : AcceptLoop A T) (e : Event A T X E J)
      → step into_stream into_join s e ≡ some s'
      → (output : SelectOutput A T X) × (tasks : List A) × (select into_stream into_join s.tasks e
          ≡ some (output, tasks))
        × (s' ≡ handle output (record s { tasks = tasks }))
        × (s.running ≡ true)
  unfolding step
  step_inv s s' e h = by s.running refl (select into_stream into_join s.tasks e) refl h
    where
      by :
          (running : Bool)
          → s.running ≡ running
          → (o : Option (SelectOutput A T X × List A)) → select into_stream into_join s.tasks e ≡ o
          → (if running
              then elim o [
                | none ↦ none
                | some (output, tasks) ↦ some (handle output (record s { tasks = tasks }))
              ]
              else none)
            ≡ some s'
          → (output : SelectOutput A T X) × (tasks : List A) × (select into_stream into_join s.tasks
                e
              ≡ some (output, tasks))
            × (s' ≡ handle output (record s { tasks = tasks }))
            × (s.running ≡ true)
      by true on (some (output, tasks)) e h = (output, tasks, e, cc, on)
      by true on none e h = cc
      by false off o e h = cc

  pub select_task_inv :
      (tasks rest : List A) (i : ℕ) (r : Result (Result T X) J) (output : SelectOutput A T X)
      → select into_stream into_join tasks (task i r) ≡ some (output, rest)
      → (a : A) × (remove i tasks ≡ some (a, rest))
        × (output ≡ on_accept into_stream into_join (joined r))
  unfolding select
  select_task_inv [] rest i r output h = cc
  select_task_inv (b ∷ bs) rest i r output h = by (remove i (b ∷ bs)) refl h
    where
      by :
          (o : Option (A × List A))
          → remove i (b ∷ bs) ≡ o
          → ◌≡◌ {A = Option (SelectOutput A T X × List A)}
              (elim o [
                | none ↦ none
                | some (a, others) ↦ some (on_accept into_stream into_join (joined r), others)
              ])
              (some (output, rest))
          → (a : A) × (remove i (b ∷ bs) ≡ some (a, rest))
            × (output ≡ on_accept into_stream into_join (joined r))
      by none e h = cc
      by (some (a, others)) e h =
          let same : others ≡ rest = cc in (a, e ∙ ap (λ t. some (a, t)) same, cc)
