-- ===== src/RecoverError/Reads.antt =====
-- What is read of a body, and of a body in `MaybeEmptyBody` of src/server/recover_error.rs.
use tonic_transport_native.Common.{
  ◌≡◌, refl, sym, ◌∙◌, Bool, true, Option, none, List, [], ◌∷◌, map,
}
use tonic_transport_native.Runtime.{
  Result, ok, Exec, done, ◌>>=◌, Poll, ready, bind_assoc, bind_same,
}
use tonic_transport_native.RecoverError.Body.{
  Body, MaybeEmptyBody, full, empty, poll_data, poll_trailers, is_end_stream, maybe_empty_body,
}

-- A call on a body, and its answer.
pub data Read : Type 0 where
  data_frame trailers end_test : Read

pub data Frame (D M E : Type 0) : Type 0 where
  got_data : Poll (Option (Result D E)) → Frame D M E
  got_trailers : Poll (Result (Option M) E) → Frame D M E
  at_end : Bool → Frame D M E

module _ {B D M E : Type 0} (body : Body B D M E) where
  abbrev pub read : Read → B → Exec (Frame D M E × B)
  read data_frame b = do answer ← body.poll_data b; done (got_data answer.0, answer.1)
  read trailers b = do answer ← body.poll_trailers b; done (got_trailers answer.0, answer.1)
  read end_test b = done (at_end (body.is_end_stream b), b)

  -- The answers to some calls, one after the other, and the body that is left.
  abbrev pub reads : List Read → B → Exec (List (Frame D M E) × B)
  reads [] b = done ([], b)
  reads (r ∷ rs) b = do first ← read r b; rest ← reads rs first.1; done (first.0 ∷ rest.0, rest.1)

-- The answer of a body that has nothing in it.
abbrev pub nothing : {D M E : Type 0} → Read → Frame D M E
nothing data_frame = got_data (ready none)
nothing trailers = got_trailers (ready (ok none))
nothing end_test = at_end true

module _ {B D M E : Type 0} (body : Body B D M E) where
  -- The same answers, and a body that is left with the other in it.
  abbrev pub in_full : Exec (List (Frame D M E) × B) → Exec (List (Frame D M E) × MaybeEmptyBody B)
  in_full answers = do a ← answers; done (a.0, full a.1)

  read-full :
      (r : Read) (b : B)
      → read (maybe_empty_body body) r (full b) ≡ (read body r b >>= λ a. done (a.0, full a.1))
  unfolding maybe_empty_body poll_data poll_trailers is_end_stream full
  read-full data_frame b =
      bind_assoc (body.poll_data b) _ _ ∙ sym (bind_assoc (body.poll_data b) _ _)
  read-full trailers b =
      bind_assoc (body.poll_trailers b) _ _ ∙ sym (bind_assoc (body.poll_trailers b) _ _)
  read-full end_test b = refl

  reads-full :
      (rs : List Read) (b : B)
      → reads (maybe_empty_body body) rs (full b) ≡ in_full (reads body rs b)
  reads-full [] b = refl
  reads-full (r ∷ rs) b = rw (read-full r b) (
      bind_assoc (read body r b) _ _
      ∙ bind_same (read body r b) _ _ (λ a.
        rw (reads-full rs a.1)
          (bind_assoc (reads body rs a.1) _ _ ∙ sym (bind_assoc (reads body rs a.1) _ _)))
      ∙ sym (bind_assoc (read body r b) _ _))

  read-empty : (r : Read) → read (maybe_empty_body body) r empty ≡ done (nothing r, empty)
  unfolding maybe_empty_body poll_data poll_trailers is_end_stream empty
  read-empty data_frame = refl
  read-empty trailers = refl
  read-empty end_test = refl

  reads-empty :
      (rs : List Read) → reads (maybe_empty_body body) rs empty ≡ done (map nothing rs, empty)
  reads-empty [] = refl
  reads-empty (r ∷ rs) = rw (read-empty r) (rw (reads-empty rs) refl)

  -- Any sequence of polls for data and for trailers, and of questions for the end: a full body
  -- answers as the body in it, and panics where it does; an empty one has neither data nor trailers,
  -- and is at its end.
  pub reads_kept :
      (rs : List Read) (b : B)
      → (reads (maybe_empty_body body) rs (full b) ≡ in_full (reads body rs b))
        × (reads (maybe_empty_body body) rs empty ≡ done (map nothing rs, empty))
  reads_kept rs b = (reads-full rs b, reads-empty rs)
