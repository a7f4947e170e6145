-- ===== src/RecoverError/Body.antt =====
-- `MaybeEmptyBody` of src/server/recover_error.rs.
use tonic_transport_native.Common.{Bool, true, Option, none, some}
use tonic_transport_native.Runtime.{Result, ok, Exec, done, ◌>>=◌, Poll, ready}

-- `http_body::Body` on the state `B`, with data `D`, trailers `M` and errors `E`.
pub record Body (B D M E : Type 0) : Type 0 where
  pub poll_data : B → Exec (Poll (Option (Result D E)) × B)
  pub poll_trailers : B → Exec (Poll (Result (Option M) E) × B)
  pub is_end_stream : B → Bool

pub record MaybeEmptyBody (B : Type 0) : Type 0 where
  pub inner : Option B

unfoldable pub full : {B : Type 0} → B → MaybeEmptyBody B
full inner = record { inner = some inner }

unfoldable pub empty : {B : Type 0} → MaybeEmptyBody B
empty = record { inner = none }

module _ {B D M E : Type 0} (body : Body B D M E) where
  unfoldable pub poll_data : MaybeEmptyBody B → Exec (Poll (Option (Result D E)) × MaybeEmptyBody B)
  poll_data s = elim (s.inner) [
    | some b ↦ (do answer ← body.poll_data b; done (answer.0, record { inner = some answer.1 }))
    | none ↦ done (ready none, s)
  ]

  unfoldable pub poll_trailers :
      MaybeEmptyBody B → Exec (Poll (Result (Option M) E) × MaybeEmptyBody B)
  poll_trailers s = elim (s.inner) [
    | some b ↦ (do answer ← body.poll_trailers b; done (answer.0, record { inner = some answer.1 }))
    | none ↦ done (ready (ok none), s)
  ]

  unfoldable pub is_end_stream : MaybeEmptyBody B → Bool
  is_end_stream s = elim (s.inner) [ some b ↦ body.is_end_stream b | none ↦ true ]

  unfoldable pub maybe_empty_body : Body (MaybeEmptyBody B) D M E
  maybe_empty_body = record {
    poll_data = poll_data;
    poll_trailers = poll_trailers;
    is_end_stream = is_end_stream;
  }
