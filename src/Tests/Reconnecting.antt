-- ===== src/Tests/Reconnecting.antt =====
-- Tests of the modules below Reconnect.
use tonic_transport_native.Common.{
  ℕ, map, ◌++◌, ◌==◌, if◌then◌else◌, zero, suc, ◌≡◌, refl, Bool, true, false, none, some, List, [],
  ◌∷◌, arith,
}
use tonic_transport_native.Runtime.{
  Result, ok, err, Exec, done, panic, Poll, pending, ready, Future, Service, now, later,
}
use tonic_transport_native.Error.{BoxError, foreign}
use tonic_transport_native.Reconnect.Machine.{
  idle, connecting, connected, Reconnect, error, new, poll_ready, call, turn, turn_at, on_maker,
  on_connecting, on_connected, loop,
}
use tonic_transport_native.Reconnect.Runs.{IsValid, Settled, poll_ready-Settled}
use tonic_transport_native.Reconnect.Contract.{Served, eager_failure_polls_again}
use tonic_transport_native.Reconnect.Reachable.{Reachable, Kept, reachable_call}
use tonic_transport_native.Reconnect.Progress.{Reliable, Answered, poll_ready_answers}
use tonic_transport_native.Reconnect.Delivery.{
  Calls, no_more, polled, called, stored, loop_failures, errors_told_once,
}
use tonic_transport_native.Reconnect.Recovers.{ReadyAfter, lost_connection_recovers}
use tonic_transport_native.Tests.Fixtures.{script}

-- A connection is known by a number, answers requests by the number of the connection, and is
-- made by the future that the maker holds.
abbrev Dial : Type 0
Dial = List (Poll (Result ℕ ℕ))

abbrev maker : Service Dial (Unit {0}) Dial ℕ
maker = record { poll_ready = λ m. done (ready (ok tt), m); call = λ m t. done (m, m) }

abbrev wire : Service ℕ ℕ (List (Poll (Result ℕ ℕ))) ℕ
wire = record {
  poll_ready = λ s. done (ready (ok tt), s);
  call = λ s r. done (ready (ok (suc r)) ∷ [], s);
}

abbrev boxed : ℕ → BoxError ℕ
boxed e = foreign e

abbrev Client : Type 0
Client = Reconnect Dial (Unit {0}) Dial ℕ ℕ

abbrev fresh : Dial → Bool → Client
fresh dial is_lazy = record {
  mk_service = dial;
  state = idle;
  target = tt;
  error = none;
  has_been_connected = false;
  is_lazy = is_lazy;
}

abbrev dials : Dial
dials = ready (ok 9) ∷ []

abbrev linked : Client
linked = record {
  mk_service = dials;
  state = connected 9;
  target = tt;
  error = none;
  has_been_connected = true;
  is_lazy = false;
}

first_connection :
    poll_ready maker script wire boxed 4 (fresh dials false) ≡ done (ready (ok tt), linked)
unfolding poll_ready loop turn turn_at on_maker on_connecting on_connected
first_connection = refl

fresh-IsValid : IsValid (fresh dials false)
fresh-IsValid = ground arith

poll_ready-Settled_example : Settled (fresh dials false) (ready (ok tt)) linked
poll_ready-Settled_example =
    poll_ready-Settled maker script wire boxed 4 (fresh dials false) linked (ready (ok tt))
      fresh-IsValid first_connection

reachable_call_example :
    Served maker script wire boxed linked 1 (call maker script wire boxed linked 1)
    × Kept maker script wire boxed dials tt false linked
unfolding new
reachable_call_example =
    reachable_call maker script wire boxed dials tt false 4 (new dials tt false) linked 1
      Reachable.fresh first_connection

abbrev refused : Dial
refused = ready (err 5) ∷ []

abbrev dialing : Bool → Client
dialing is_lazy = record {
  mk_service = [];
  state = connecting refused;
  target = tt;
  error = none;
  has_been_connected = false;
  is_lazy = is_lazy;
}

eager_failure_polls_again_example :
    (r' : Client) × (poll_ready maker script wire boxed 4 (dialing false)
      ≡ done (ready (err (boxed 5)), r'))
    × (poll_ready maker script wire boxed 4 r' ≡ panic)
eager_failure_polls_again_example =
    eager_failure_polls_again maker script wire boxed 3 (dialing false) refused [] 5 refl refl refl
      refl refl

abbrev failed : Client
failed = record {
  mk_service = [];
  state = idle;
  target = tt;
  error = some (boxed 5);
  has_been_connected = false;
  is_lazy = true;
}

abbrev hung_up : Client
hung_up = record (dialing true) { state = idle }

refused_call : Calls maker script wire boxed (dialing true) (5 ∷ []) (boxed 5 ∷ []) hung_up
unfolding poll_ready loop turn turn_at on_maker on_connecting on_connected call loop_failures
refused_call =
    polled {r = dialing true} {r₁ = failed} {failures = []} {told = boxed 5 ∷ []} 1 (ready (ok tt))
      refl
      (called {r = failed} {r₁ = hung_up} {failures = []} {told = []} 7 (error (some (boxed 5)))
        refl (no_more hung_up))

errors_told_once_example :
    stored (dialing true) ++ map boxed (5 ∷ []) ≡ (boxed 5 ∷ []) ++ stored hung_up
errors_told_once_example =
    errors_told_once maker script wire boxed (dialing true) hung_up (5 ∷ []) (boxed 5 ∷ [])
      refused_call

-- A future that is never polled again once it is ready: a countdown to a connection.
abbrev count_poll : ℕ → Exec (Poll (Result ℕ ℕ) × ℕ)
count_poll zero = done (ready (ok 9), zero)
count_poll (suc n) = done (pending, n)

abbrev countdown : Future ℕ (Result ℕ ℕ)
countdown = record { poll = count_poll }

abbrev counting_maker : Service ℕ (Unit {0}) ℕ ℕ
counting_maker = record { poll_ready = λ m. done (ready (ok tt), m); call = λ m t. done (m, m) }

count_polls :
    (f : ℕ)
    → (a : Poll (Result ℕ ℕ)) × (g : ℕ) × (count_poll f ≡ done (a, g)) × (a ≡ pending → Unit {0})
count_polls zero = (ready (ok 9), zero, refl, λ _. tt)
count_polls (suc n) = (pending, n, refl, λ _. tt)

counting-Reliable : Reliable counting_maker countdown wire boxed (λ _. Unit {0})
counting-Reliable = record {
  maker_polls = λ m. (ready (ok tt), m, refl);
  maker_makes = λ m t. (m, m, refl, tt);
  future_polls = λ f _. count_polls f;
  connection_polls = λ s. (ready (ok tt), s, refl);
  made_fresh = λ f g s e x s' h. cc;
}

abbrev waiting : Reconnect ℕ (Unit {0}) ℕ ℕ ℕ
waiting = record {
  mk_service = 2;
  state = idle;
  target = tt;
  error = none;
  has_been_connected = false;
  is_lazy = true;
}

poll_ready_answers_example :
    Answered counting_maker countdown wire boxed (λ _. Unit {0}) counting-Reliable 4 waiting
poll_ready_answers_example =
    poll_ready_answers counting_maker countdown wire boxed (λ _. Unit {0}) counting-Reliable 4
      waiting (omega arith) (ground arith) tt

-- Connection 3 is lost.
abbrev fragile : Service ℕ ℕ (List (Poll (Result ℕ ℕ))) ℕ
fragile = record {
  poll_ready = λ s. if s == 3 then done (ready (err 5), s) else done (ready (ok tt), s);
  call = λ s r. done (ready (ok (suc r)) ∷ [], s);
}

abbrev redials : Dial
redials = pending ∷ ready (ok 9) ∷ []

abbrev lost : Client
lost = record {
  mk_service = redials;
  state = connected 3;
  target = tt;
  error = none;
  has_been_connected = true;
  is_lazy = false;
}

abbrev regained : Client
regained = record {
  mk_service = redials;
  state = connected 9;
  target = tt;
  error = none;
  has_been_connected = true;
  is_lazy = false;
}

lost_connection_recovers_example : ReadyAfter maker script fragile boxed 4 lost 1 regained
lost_connection_recovers_example =
    lost_connection_recovers maker script fragile boxed 0 lost 3 3 5 redials redials redials 1 9 9
      refl refl refl refl refl (later _ refl (now _ refl)) refl
