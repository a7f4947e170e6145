-- ===== src/Incoming/Loop.antt =====
-- `tcp_incoming` and `select` of src/server/incoming.rs. What the runtime does in between is a list
-- of events: the next item of the stream of connections, or the end of some handshake.
use tonic_transport_native.Common.{
  ℕ, zero, suc, Bool, true, false, Option, none, some, List, [], ◌∷◌, ◌++◌, if◌then◌else◌,
}
use tonic_transport_native.Runtime.{Result, ok, err, map_err}
use tonic_transport_native.Error.{BoxError, transport, from_foreign}

-- What `select` hands to the loop: a connection (`A`), a connection behind TLS (`T`), an error, or
-- the end.
pub data SelectOutput (A T X : Type 0) : Type 0 where
  incoming : A → SelectOutput A T X
  io : T → SelectOutput A T X
  failure : BoxError X → SelectOutput A T X
  finished : SelectOutput A T X

-- `stream`: the answer of `incoming.try_next()`, with errors `E`. `task i`: the answer of
-- `tasks.next()` when the handshake at place `i` has ended; with errors `X` of the handshake and
-- errors `J` of the task that runs it.
pub data Event (A T X E J : Type 0) : Type 0 where
  stream : Result (Option A) E → Event A T X E J
  task : ℕ → Result (Result T X) J → Event A T X E J

-- The state of the loop: the connections whose handshakes run, in the order of arrival, those that
-- were yielded, and whether the loop still runs.
pub record AcceptLoop (A T : Type 0) : Type 0 where
  pub tasks : List A
  pub yielded : List T
  pub running : Bool

unfoldable pub start : {A T : Type 0} → AcceptLoop A T
start = record { tasks = []; yielded = []; running = true }

-- The element at a place, and the others.
abbrev pub cons_to {ℓ} : {A : Type ℓ} → A → Option (A × List A) → Option (A × List A)
cons_to x none = none
cons_to x (some (y, rest)) = some (y, x ∷ rest)

unfoldable pub remove {ℓ} : {A : Type ℓ} → ℕ → List A → Option (A × List A)
remove i [] = none
remove zero (x ∷ xs) = some (x, xs)
remove (suc i) (x ∷ xs) = cons_to x (remove i xs)

-- `TlsAcceptor::accept` of src/tls.rs, and the `?` of the task, which boxes its error.
unfoldable pub accept_result : {T X : Type 0} → Result T X → Result T (BoxError X)
accept_result r = map_err (λ e. transport (from_foreign e)) r

-- The answer of the task's handle, by that of the handshake.
abbrev pub joined : {T X J : Type 0} → Result (Result T X) J → Result (Result T (BoxError X)) J
joined (ok r) = ok (accept_result r)
joined (err j) = err j

module _ {A T X : Type 0} where
  -- The `match` of the loop. An error is logged, and the loop goes on.
  unfoldable pub handle : SelectOutput A T X → AcceptLoop A T → AcceptLoop A T
  handle (incoming a) s = record s { tasks = s.tasks ++ a ∷ [] }
  handle (io t) s = record s { yielded = s.yielded ++ t ∷ [] }
  handle (failure e) s = s
  handle finished s = record s { running = false }

module _ {A T X E J : Type 0} (into_stream : E → BoxError X) (into_join : J → BoxError X) where
  unfoldable pub on_stream : Result (Option A) E → SelectOutput A T X
  on_stream (ok (some a)) = incoming a
  on_stream (ok none) = finished
  on_stream (err e) = failure (into_stream e)

  unfoldable pub on_accept : Result (Result T (BoxError X)) J → SelectOutput A T X
  on_accept (ok (ok t)) = io t
  on_accept (ok (err e)) = failure e
  on_accept (err j) = failure (into_join j)

  -- With no handshake under way only the stream is awaited, and otherwise whatever comes first.
  -- The result is `none` for an event that cannot occur.
  unfoldable pub select : List A → Event A T X E J → Option (SelectOutput A T X × List A)
  unfolding on_stream on_accept accept_result
  select [] (stream r) = some (on_stream r, [])
  select [] (task i r) = none
  select (a ∷ as') (stream r) = some (on_stream r, a ∷ as')
  select (a ∷ as') (task i r) = elim (remove i (a ∷ as')) [
    | none ↦ none
    | some (b, rest) ↦ some (on_accept (joined r), rest)
  ]

  unfoldable pub step : AcceptLoop A T → Event A T X E J → Option (AcceptLoop A T)
  unfolding handle
  step s e =
      if s.running
      then elim (select s.tasks e) [
        | none ↦ none
        | some (output, tasks) ↦ some (handle output (record s { tasks = tasks }))
      ]
      else none

  unfoldable pub run : AcceptLoop A T → List (Event A T X E J) → Option (AcceptLoop A T)
  run s [] = some s
  run s (e ∷ es) = elim (step s e) [ none ↦ none | some s' ↦ run s' es ]
