-- ===== src/RecoverError/Recovery.antt =====
-- The responses of src/server/recover_error.rs.
use tonic_transport_native.Common.{
  ℕ, ◌≡◌, ◌≢◌, ◌↔◌, refl, ◌∙◌, ◌++◌, codes, Bytes, true, Option, none, some, ◌==◌, if◌then◌else◌,
  arith,
}
use tonic_transport_native.Runtime.{
  Result, ok, err, map_err, done, ready, Future, Resolves, now, later,
}
use tonic_transport_native.Error.{BoxError, foreign}
use tonic_transport_native.RecoverError.Status.{
  Code, cancelled, unknown, permission_denied, resource_exhausted, internal, unavailable,
  code_of_reason, Statuses, try_status_from_error, downcast_h2,
}
use tonic_transport_native.RecoverError.Body.{
  MaybeEmptyBody, full, empty, Body, is_end_stream, poll_data, poll_trailers,
}
use tonic_transport_native.RecoverError.Middleware.{
  Response, map_body, recover, respond, poll, future,
}

-- The mapping of the gRPC protocol for HTTP/2 error codes, `unknown` where it has none.
abbrev pub documented : ℕ → Code
documented r =
    if r == 0
    then internal
    else if r == 1
    then internal
    else if r == 2
    then internal
    else if r == 3
    then internal
    else if r == 4
    then internal
    else if r == 6
    then internal
    else if r == 7
    then unavailable
    else if r == 8
    then cancelled
    else if r == 9
    then internal
    else if r == 10
    then internal
    else if r == 11
    then resource_exhausted
    else if r == 12
    then permission_denied
    else unknown

-- The code agrees with the protocol's mapping at every error code but FRAME_SIZE_ERROR, 6, for
-- which the protocol says INTERNAL and the code UNKNOWN.
pub code_of_reason_iff : (r : ℕ) → (code_of_reason (some r) ≡ documented r) ↔ (r ≢ 6)
unfolding code_of_reason
code_of_reason_iff r = (λ e six. ground arith, λ other. ground arith)

-- What the source relies on in tonic: a status is written to an empty header map, from which its
-- code (`code`) can be read (`read`).
pub record StatusLaws {H St M X : Type 0} (g : Statuses H St M X) (code : St → Code)
    (read : M → Option Code) (no_headers : M) : Type 0 where
  pub code-status :
      (c : Code) (message : Bytes) (h : H) → code (g.set_source (g.status c message) h) ≡ c
  pub add_header_ok :
      (s : St) → (m : M) × (g.add_header s no_headers ≡ some m) × (read m ≡ some (code s))

-- The status made of an error of h2.
abbrev h2_status : {H St M X : Type 0} → Statuses H St M X → H → St
h2_status g h2 =
    g.set_source
      (g.status (code_of_reason (g.reason h2)) (codes "h2 protocol error: " ++ g.to_string h2)) h2

module _ {H St M X B : Type 0} (g : Statuses H St M X) (no_headers : M) (b : BoxError X) where
  respond_h2 :
      (h2 : H)
      → downcast_h2 g b ≡ some h2
      → respond {B = B} g no_headers (err b) ≡ recover g no_headers (ok (h2_status g h2))
  unfolding respond try_status_from_error
  respond_h2 h2 found = rw (found, try_status_from_error)

  respond_other :
      (t : Result St (BoxError X))
      → downcast_h2 g b ≡ none
      → g.try_from_error b ≡ t
      → respond {B = B} g no_headers (err b) ≡ recover g no_headers t
  unfolding respond try_status_from_error
  respond_other t missing known = rw (missing, try_status_from_error) (rw known)

module _ {H St M X F B E : Type 0} (g : Statuses H St M X) (no_headers : M)
    (fut : Future F (Result (Response M B) E)) (into : E → BoxError X) where
  future-respond :
      (f : F) (k : ℕ) {r : Result (Response M B) E}
      (r' : Result (Response M (MaybeEmptyBody B)) (BoxError X))
      → Resolves fut f k r
      → respond g no_headers (map_err into r) ≡ done r'
      → Resolves (future g no_headers fut into) (record { inner = f }) k r'
  unfolding future
  future-respond f k r' (now _ {g = f'} e) h =
      now (record { inner = f }) {g = record { inner = f' }} {a = r'} (unfold poll in rw e (rw h))
  future-respond f _ r' (later _ {g = f'} e rest) h =
      later (record { inner = f }) {g = record { inner = f' }} (unfold poll in rw e)
        (future-respond f' _ r' rest h)

  -- A response keeps its status code and its headers, and its body is the full one.
  pub future_success :
      (f : F) (k : ℕ) (res : Response M B)
      → Resolves fut f k (ok res)
      → Resolves (future g no_headers fut into) (record { inner = f }) k (ok (map_body full res))
  unfolding respond
  future_success f k res h = future-respond f k _ h refl

  module _ (code : St → Code) (read : M → Option Code)
      (laws : StatusLaws g code read no_headers) where
    -- A response that tells the client the code, with the empty body.
    pub record Tells (c : Code) (res : Response M (MaybeEmptyBody B)) : Type 0 where
      pub http_ok : res.status ≡ 200
      pub told : read res.headers ≡ some c
      pub no_body : res.body ≡ empty

    recover-Tells :
        (s : St)
        → (res : Response M (MaybeEmptyBody B)) × (recover {X = X} g no_headers (ok s)
            ≡ done (ok res))
          × Tells (code s) res
    unfolding recover
    recover-Tells s =
        let (m, added, reads) = laws.add_header_ok s in
        (
          record { status = 200; headers = m; body = empty },
          rw added,
          record { http_ok = refl; told = reads; no_body = refl },
        )

    -- An error of h2 becomes a response with the HTTP status 200, an empty body and the gRPC code
    -- of the error's reason, at the same poll: the service never fails with it.
    pub future_recovers_h2 :
        (f : F) (k : ℕ) (e : E) (x : X) (h2 : H)
        → Resolves fut f k (err e)
        → into e ≡ foreign x
        → g.downcast x ≡ some h2
        → (res : Response M (MaybeEmptyBody B)) × Resolves
            (future g no_headers fut into)
            (record { inner = f })
            k
            (ok res)
          × Tells (code_of_reason (g.reason h2)) res
    unfolding downcast_h2
    future_recovers_h2 f k e x h2 resolved boxed is_h2 =
        let (res, recovered, tells) = recover-Tells (h2_status g h2) in
        let found : downcast_h2 g (into e) ≡ some h2 = rw boxed is_h2 in
        (
          res,
          future-respond f k (ok res) resolved
              (respond_h2 g no_headers (into e) h2 found ∙ recovered),
          rw laws.code-status at tells,
        )

    -- An error that is none of h2, and of which tonic makes a status, becomes such a response too,
    -- with the status' code.
    pub future_recovers_status :
        (f : F) (k : ℕ) (e : E) (s : St)
        → Resolves fut f k (err e)
        → downcast_h2 g (into e) ≡ none
        → g.try_from_error (into e) ≡ ok s
        → (res : Response M (MaybeEmptyBody B)) × Resolves
            (future g no_headers fut into)
            (record { inner = f })
            k
            (ok res)
          × Tells (code s) res
    future_recovers_status f k e s resolved not_h2 known =
        let (res, recovered, tells) = recover-Tells s in
        (
          res,
          future-respond f k (ok res) resolved
              (respond_other g no_headers (into e) (ok s) not_h2 known ∙ recovered),
          tells,
        )

  -- An error that is none of h2, and of which tonic makes no status, is handed on as tonic gives
  -- it back.
  pub future_hands_on :
      (f : F) (k : ℕ) (e : E) (e' : BoxError X)
      → Resolves fut f k (err e)
      → downcast_h2 g (into e) ≡ none
      → g.try_from_error (into e) ≡ err e'
      → Resolves (future g no_headers fut into) (record { inner = f }) k (err e')
  future_hands_on f k e e' resolved not_h2 unknown_error =
      future-respond f k (err e') resolved
        (respond_other g no_headers (into e) (err e') not_h2 unknown_error ∙ unfold recover in refl)

-- The empty body has ended, and yields neither data nor trailers.
pub empty_ended :
    {B D M E : Type 0} (body : Body B D M E)
    → (is_end_stream body empty ≡ true)
      × (poll_data body empty ≡ done (ready none, empty))
      × (poll_trailers body empty ≡ done (ready (ok none), empty))
unfolding empty is_end_stream poll_data poll_trailers
empty_ended body = (refl, refl, refl)
