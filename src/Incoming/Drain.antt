-- ===== src/Incoming/Drain.antt =====
-- What the loop of src/server/incoming.rs comes to when all handshakes have ended.
use tonic_transport_native.Common.{
  ℕ, zero, suc, ◌≤◌, ◌≡◌, refl, sym, ap, ◌∙◌, true, Option, some, List, [], ◌∷◌, ◌++◌, length,
  length-append, append_assoc, append-nil, arith,
}
use tonic_transport_native.Runtime.{Result, ok, err}
use tonic_transport_native.Error.{BoxError}
use tonic_transport_native.Incoming.Loop.{
  Event, stream, task, AcceptLoop, remove, accept_result, joined, on_stream, on_accept, select,
  handle, step, run,
}

-- A place in a list has an element, and one fewer is left without it.
remove_at :
    {A : Type 0} (i n : ℕ) (xs : List A)
    → length xs ≡ suc n
    → i ≤ n
    → (a : A) × (rest : List A) × (remove i xs ≡ some (a, rest)) × (length rest ≡ n)
unfolding remove
remove_at i n [] e within = ground arith
remove_at zero n (x ∷ xs) e within = (x, xs, refl, omega (arith, e))
remove_at (suc i) zero (x ∷ xs) e within = ground arith
remove_at (suc i) (suc n) (x ∷ xs) e within =
    let (a, rest, removed, left) = remove_at i n xs (omega (arith, e)) (omega arith) in
    (a, x ∷ rest, rw removed refl, omega (arith, left))

abbrev going : {A T : Type 0} → List A → List T → AcceptLoop A T
going tasks yielded = record { tasks = tasks; yielded = yielded; running = true }

-- What a handshake yields.
abbrev pub yielded_by : {T X J : Type 0} → Result (Result T X) J → List T
yielded_by (ok (ok t)) = t ∷ []
yielded_by (ok (err x)) = []
yielded_by (err j) = []

module _ {A T X E J : Type 0} where
  -- The events of a time in which the stream does not end, from `n` handshakes under way to none, in
  -- any order: connections arrive, the stream fails, and handshakes end, one way or another.
  pub data Drains : ℕ → List (Event A T X E J) → Type 0 where
    drained : Drains 0 []
    arrives :
        (n : ℕ) (a : A) (es : List (Event A T X E J))
        → Drains (suc n) es
        → Drains n (stream (ok (some a)) ∷ es)
    fails :
        (n : ℕ) (e : E) (es : List (Event A T X E J)) → Drains n es → Drains n (stream (err e) ∷ es)
    ends :
        (n i : ℕ) (r : Result (Result T X) J) (es : List (Event A T X E J))
        → i ≤ n
        → Drains n es
        → Drains (suc n) (task i r ∷ es)

  -- What the handshakes yield that end in some events.
  abbrev pub yields : List (Event A T X E J) → List T
  yields [] = []
  yields (stream r ∷ es) = yields es
  yields (task i r ∷ es) = yielded_by r ++ yields es

module _ {A T X E J : Type 0} (into_stream : E → BoxError X) (into_join : J → BoxError X) where
  select-stream :
      (tasks : List A) (r : Result (Option A) E)
      → select {T = T} into_stream into_join tasks (stream r)
        ≡ some (on_stream into_stream into_join r, tasks)
  unfolding select
  select-stream [] r = refl
  select-stream (a ∷ as') r = refl

  select-task :
      (tasks : List A) (i : ℕ) (a : A) (rest : List A) (r : Result (Result T X) J)
      → remove i tasks ≡ some (a, rest)
      → select into_stream into_join tasks (task i r)
        ≡ some (on_accept into_stream into_join (joined r), rest)
  unfolding remove select on_accept
  select-task [] i a rest r removed = cc
  select-task (b ∷ bs) i a rest r removed = rw (removed, select) refl

  step-arrival :
      (tasks : List A) (yielded : List T) (a : A)
      → step into_stream into_join (going tasks yielded) (stream (ok (some a)))
        ≡ some (going (tasks ++ a ∷ []) yielded)
  unfolding step on_stream handle
  step-arrival tasks yielded a = rw (select-stream tasks (ok (some a))) refl

  step-failure :
      (tasks : List A) (yielded : List T) (e : E)
      → step into_stream into_join (going tasks yielded) (stream (err e))
        ≡ some (going tasks yielded)
  unfolding step on_stream handle
  step-failure tasks yielded e = rw (select-stream tasks (err e)) refl

  handle-end :
      (tasks : List A) (yielded : List T) (r : Result (Result T X) J)
      → handle (on_accept into_stream into_join (joined r)) (going tasks yielded)
        ≡ going tasks (yielded ++ yielded_by r)
  unfolding handle on_accept accept_result
  handle-end tasks yielded (ok (ok t)) = refl
  handle-end tasks yielded (ok (err x)) = ap (going tasks) (sym (append-nil yielded))
  handle-end tasks yielded (err j) = ap (going tasks) (sym (append-nil yielded))

  step-end :
      (tasks : List A) (yielded : List T) (i : ℕ) (a : A) (rest : List A)
      (r : Result (Result T X) J)
      → remove i tasks ≡ some (a, rest)
      → step into_stream into_join (going tasks yielded) (task i r)
        ≡ some (going rest (yielded ++ yielded_by r))
  unfolding step
  step-end tasks yielded i a rest r removed =
      rw (select-task tasks i a rest r removed) (ap some (handle-end rest yielded r))

  run-step :
      (s s' : AcceptLoop A T) (e : Event A T X E J) (es : List (Event A T X E J))
      → step into_stream into_join s e ≡ some s'
      → run into_stream into_join s (e ∷ es) ≡ run into_stream into_join s' es
  unfolding run
  run-step s s' e es stepped = rw (stepped, run) refl

  going-Drains :
      (n : ℕ) (es : List (Event A T X E J)) (tasks : List A) (yielded : List T)
      → length tasks ≡ n
      → Drains n es
      → run into_stream into_join (going tasks yielded) es ≡ some (going [] (yielded ++ yields es))
  unfolding run
  going-Drains _ _ [] yielded size drained =
      ap (λ ts. some (going [] ts)) (sym (append-nil yielded))
  going-Drains _ _ (a ∷ as') yielded size drained = ground arith
  going-Drains _ _ tasks yielded size (arrives n a es rest) =
      run-step (going tasks yielded) (going (tasks ++ a ∷ []) yielded) _ es
        (step-arrival tasks yielded a)
      ∙ going-Drains (suc n) es (tasks ++ a ∷ []) yielded
          (length-append tasks (a ∷ []) ∙ omega (arith, size)) rest
  going-Drains _ _ tasks yielded size (fails n e es rest) =
      run-step (going tasks yielded) (going tasks yielded) _ es (step-failure tasks yielded e)
      ∙ going-Drains n es tasks yielded size rest
  going-Drains _ _ tasks yielded size (ends n i r es within rest) =
      let (a, left, removed, fewer) = remove_at i n tasks size within in
      run-step (going tasks yielded) (going left (yielded ++ yielded_by r)) _ es
        (step-end tasks yielded i a left r removed)
      ∙ going-Drains n es left (yielded ++ yielded_by r) fewer rest
      ∙ ap (λ ts. some (going [] ts)) (append_assoc yielded (yielded_by r) (yields es))

  -- A loop that is running takes all events of such a time (`Drains`), whatever fails, and behind them
  -- it is running, no handshake is under way, and each that succeeded has yielded its connection, in
  -- the order in which they ended.
  pub run-Drains :
      (es : List (Event A T X E J)) (s : AcceptLoop A T)
      → s.running ≡ true
      → Drains (length s.tasks) es
      → run into_stream into_join s es
        ≡ some (record { tasks = []; yielded = s.yielded ++ yields es; running = true })
  run-Drains es s on drains =
      ap (λ b. run into_stream into_join (record s { running = b }) es) on
      ∙ going-Drains (length s.tasks) es s.tasks s.yielded refl drains
