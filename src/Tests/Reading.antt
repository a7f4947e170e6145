-- ===== src/Tests/Reading.antt =====
-- Tests of RecoverError/Reads.antt.
use tonic_transport_native.Common.{
  ℕ, ◌≡◌, Bool, true, false, Option, none, some, List, [], ◌∷◌, map,
}
use tonic_transport_native.Runtime.{Result, ok, Exec, done, panic, Poll, ready}
use tonic_transport_native.RecoverError.Body.{Body, full, empty, maybe_empty_body}
use tonic_transport_native.RecoverError.Reads.{
  Read, data_frame, trailers, end_test, reads, in_full, nothing, reads_kept,
}

abbrev next_frame : List ℕ → Exec (Poll (Option (Result ℕ (Unit {0}))) × List ℕ)
next_frame [] = done (ready none, [])
next_frame (n ∷ ns) = done (ready (some (ok n)), ns)

abbrev is_over : List ℕ → Bool
is_over [] = true
is_over (n ∷ ns) = false

-- A body is the frames that are left of it; its trailers are its last frame, which must not be asked
-- for before.
abbrev trailing : List ℕ → Exec (Poll (Result (Option ℕ) (Unit {0})) × List ℕ)
trailing [] = done (ready (ok none), [])
trailing (n ∷ []) = done (ready (ok (some n)), [])
trailing (n ∷ k ∷ ns) = panic

abbrev frames : Body (List ℕ) ℕ ℕ (Unit {0})
frames = record { poll_data = next_frame; poll_trailers = trailing; is_end_stream = is_over }

abbrev whole : List Read
whole = data_frame ∷ data_frame ∷ trailers ∷ end_test ∷ []

reads_kept_example :
    (reads (maybe_empty_body frames) whole (full (3 ∷ 4 ∷ 12 ∷ []))
      ≡ in_full frames (reads frames whole (3 ∷ 4 ∷ 12 ∷ [])))
    × (reads (maybe_empty_body frames) whole empty ≡ done (map nothing whole, empty))
reads_kept_example = reads_kept frames whole (3 ∷ 4 ∷ 12 ∷ [])
