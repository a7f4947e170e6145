-- ===== src/Tests/Accepting.antt =====
-- Tests of the modules below Incoming. A connection is a number, also behind TLS.
use tonic_transport_native.Common.{ℕ, ◌+◌, ◌≡◌, refl, true, none, some, arith, List, [], ◌∷◌, map}
use tonic_transport_native.Runtime.{ok, err}
use tonic_transport_native.Error.{BoxError, foreign}
use tonic_transport_native.Incoming.Loop.{
  Event, stream, task, AcceptLoop, start, select, step, run, remove, on_stream, on_accept,
}
use tonic_transport_native.Incoming.Weight.{weight}
use tonic_transport_native.Incoming.Drain.{Drains, drained, arrives, fails, ends, run-Drains}
use tonic_transport_native.Incoming.Conservation.{
  picked, arrivals, failures, run_conserves, end_abandons_handshakes,
}

abbrev boxed : ℕ → BoxError ℕ
boxed e = foreign e

-- Three connections arrive; the handshake of the second succeeds, and that of the first fails.
abbrev busy : List (Event ℕ ℕ ℕ ℕ ℕ)
busy =
    stream (ok (some 10))
    ∷ stream (ok (some 11))
    ∷ stream (err 3)
    ∷ task 1 (ok (ok 11))
    ∷ stream (ok (some 12))
    ∷ task 0 (ok (err 4))
    ∷ []

abbrev later_on : AcceptLoop ℕ ℕ
later_on = record { tasks = 12 ∷ []; yielded = 11 ∷ []; running = true }

busy_runs : run boxed boxed start busy ≡ some later_on
unfolding run step select on_stream on_accept start remove
busy_runs = refl

run_conserves_example :
    weight (λ n. n) (arrivals busy)
    ≡ weight (λ n. n) (12 ∷ [])
      + weight (λ n. n) (map (λ (t : ℕ). t) (11 ∷ []))
      + weight (λ n. n) (failures boxed boxed start busy)
unfolding step select on_stream on_accept start remove picked
run_conserves_example =
    run_conserves boxed boxed (λ t. t) (λ n. n) busy later_on
      (tt, (tt, (tt, (refl, (tt, (tt, tt)))))) busy_runs

end_abandons_handshakes_example :
    (s' : AcceptLoop ℕ ℕ) × (step boxed boxed later_on (stream (ok none)) ≡ some s')
    × (s'.tasks ≡ 12 ∷ [])
    × (s'.yielded ≡ 11 ∷ [])
    × ((e : Event ℕ ℕ ℕ ℕ ℕ) → step boxed boxed s' e ≡ none)
end_abandons_handshakes_example = end_abandons_handshakes boxed boxed later_on refl

-- The stream fails, another connection arrives, its handshake fails, and the other succeeds.
abbrev quiet : List (Event ℕ ℕ ℕ ℕ ℕ)
quiet = stream (err 3) ∷ stream (ok (some 13)) ∷ task 1 (ok (err 4)) ∷ task 0 (ok (ok 12)) ∷ []

quiet-Drains : Drains 1 quiet
quiet-Drains = fails 1 3 _ (
    arrives 1 13 _
      (ends 1 1 (ok (err 4)) _ (omega arith) (ends 0 0 (ok (ok 12)) _ (omega arith) drained)))

run-Drains_example :
    run boxed boxed later_on quiet
    ≡ some (record { tasks = []; yielded = 11 ∷ 12 ∷ []; running = true })
run-Drains_example = run-Drains boxed boxed quiet later_on refl quiet-Drains
