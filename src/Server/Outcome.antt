-- ===== src/Server/Outcome.antt =====
-- How each request ends that the server in src/server/mod.rs serves, and what its client is told,
-- with no concurrency limit set.
use tonic_transport_native.Common.{ℕ, ◌≡◌, refl, Option, none, some, ap, Option-cases, inl, inr}
use tonic_transport_native.Runtime.{Result, ok, err, map_ok, Future, Resolves}
use tonic_transport_native.Error.{BoxError, foreign, transport, timeout_expired}
use tonic_transport_native.GrpcTimeout.Ends.{Ends, timed-Resolves}
use tonic_transport_native.GrpcTimeout.Middleware as GrpcTimeout
use tonic_transport_native.RecoverError.Status.{Code, code_of_reason, Statuses, downcast_h2}
use tonic_transport_native.RecoverError.Body.{MaybeEmptyBody, full, empty}
use tonic_transport_native.RecoverError.Middleware as RecoverError
use tonic_transport_native.RecoverError.Middleware.{Response, map_body}
use tonic_transport_native.RecoverError.Recovery.{
  StatusLaws, Tells, future_recovers_h2, future_recovers_status, future_hands_on, future_success,
}
use tonic_transport_native.Server.Told.{svc_future-Resolves, served, serving}

-- The code that stands for an error.
pub data HasCode {H St M X : Type 0} (g : Statuses H St M X) (code : St → Code) (b : BoxError X)
    : Code → Type 0 where
  of_h2 : (h2 : H) → downcast_h2 g b ≡ some h2 → HasCode g code b (code_of_reason (g.reason h2))
  of_status :
      (s : St) → downcast_h2 g b ≡ none → g.try_from_error b ≡ ok s → HasCode g code b (code s)

module _ {H St M X B C : Type 0} (g : Statuses H St M X) (no_headers : M)
    (box : MaybeEmptyBody B → C) (code : St → Code) (read : M → Option Code) where
  -- What the client is told: the response of the service, with its own body; a response with the
  -- HTTP status 200, the code of the error and an empty body; or the error that tonic gives back
  -- where it knows no status.
  pub data Told
      : Result (Response M B) (BoxError X) → Result (Response M C) (BoxError X) → Type 0 where
    answer : (res : Response M B) → Told (ok res) (ok (map_body (λ b. box (full b)) res))
    coded :
        (b : BoxError X) (c : Code) (res : Response M C)
        → HasCode g code b c
        → res.status ≡ 200
        → read res.headers ≡ some c
        → res.body ≡ box empty
        → Told (err b) (ok res)
    unknown_error :
        (b b' : BoxError X)
        → downcast_h2 g b ≡ none
        → g.try_from_error b ≡ err b'
        → Told (err b) (err b')

  module _ {F : Type 0} (fut : Future F (Result (Response M B) (BoxError X)))
      (laws : StatusLaws g code read no_headers) where
    abbrev recovering :
        Future (RecoverError.ResponseFuture F) (Result (Response M (MaybeEmptyBody B)) (BoxError X))
    recovering = RecoverError.future g no_headers fut (λ e. e)

    coded-Told :
        (b : BoxError X) (c : Code) (res : Response M (MaybeEmptyBody B))
        → HasCode g code b c
        → Tells g no_headers fut (λ (e : BoxError X). e) code read laws c res
        → Told (err b) (ok (map_body box res))
    coded-Told b c res known tells =
        coded b c (map_body box res) known tells.http_ok tells.told (ap box tells.no_body)

    abbrev Recovered : F → ℕ → Result (Response M B) (BoxError X) → Type 0
    Recovered f k r =
        (o : Result (Response M (MaybeEmptyBody B)) (BoxError X)) × Resolves recovering
          (record { inner = f }) k o
        × Told r (map_ok (map_body box) o)

    h2-Recovered :
        (f : F) (k : ℕ) (b : BoxError X) (h2 : H)
        → downcast_h2 g b ≡ some h2
        → Resolves fut f k (err b)
        → Recovered f k (err b)
    unfolding downcast_h2
    h2-Recovered f k (foreign x) h2 found resolved =
        let (res, recovered, tells) =
          future_recovers_h2 g no_headers fut (λ e. e) code read laws f k (foreign x) x h2 resolved
            refl found in
        (ok res, recovered, coded-Told (foreign x) _ res (of_h2 h2 found) tells)
    h2-Recovered f k (transport e) h2 found resolved = cc
    h2-Recovered f k timeout_expired h2 found resolved = cc

    other-Recovered :
        (f : F) (k : ℕ) (b : BoxError X) (t : Result St (BoxError X))
        → downcast_h2 g b ≡ none
        → g.try_from_error b ≡ t
        → Resolves fut f k (err b)
        → Recovered f k (err b)
    other-Recovered f k b (ok s) missing known resolved =
        let (res, recovered, tells) =
          future_recovers_status g no_headers fut (λ e. e) code read laws f k b s resolved missing
            known in
        (ok res, recovered, coded-Told b (code s) res (of_status s missing known) tells)
    other-Recovered f k b (err b') missing known resolved = (
      err b',
      future_hands_on g no_headers fut (λ e. e) f k b b' resolved missing known,
      unknown_error b b' missing known,
    )

    any-Recovered :
        (f : F) (k : ℕ) (r : Result (Response M B) (BoxError X))
        → Resolves fut f k r
        → Recovered f k r
    any-Recovered f k (ok res) resolved = (
      ok (map_body full res),
      future_success g no_headers fut (λ e. e) f k res resolved,
      answer res,
    )
    any-Recovered f k (err b) resolved = elim (Option-cases (downcast_h2 g b)) [
      | inl missing ↦ other-Recovered f k b (g.try_from_error b) missing refl resolved
      | inr found ↦ h2-Recovered f k b found.0 found.1 resolved
    ]

module _ {H St M X F T B C E Sp : Type 0} (g : Statuses H St M X) (no_headers : M)
    (fut : Future F (Result (Response M B) E)) (timer : Future T (Unit {0})) (into : E → BoxError X)
    (box : MaybeEmptyBody B → C) where
  pub recovered-served :
      (f : F) (sleep : Option T) (span : Sp) (k : ℕ)
      (o : Result (Response M (MaybeEmptyBody B)) (BoxError X))
      → Resolves
          (RecoverError.future g no_headers (GrpcTimeout.future fut timer into) (λ e. e))
          (record { inner = record { inner = f; sleep = sleep } })
          k
          o
      → Resolves
          (served g no_headers fut timer into box)
          (serving g no_headers fut timer into box f sleep span)
          k
          (map_ok (map_body box) o)
  recovered-served f sleep span k (ok res) recovered =
      svc_future-Resolves
        (RecoverError.future g no_headers (GrpcTimeout.future fut timer into) (λ e. e)) (λ e. e) box
        _ span k (ok res) recovered
  recovered-served f sleep span k (err b) recovered =
      svc_future-Resolves
        (RecoverError.future g no_headers (GrpcTimeout.future fut timer into) (λ e. e)) (λ e. e) box
        _ span k (err b) recovered

  -- Given `StatusLaws`: however a request ends (`Ends`), at the same poll the future of the server is
  -- ready with what the client is told of it (`Told`), and no poll up to then panics.
  pub request-Told :
      (code : St → Code) (read : M → Option Code)
      → StatusLaws g code read no_headers
      → (f : F) (sleep : Option T) (span : Sp) (k : ℕ) (r : Result (Response M B) (BoxError X))
      → Ends fut timer into f sleep k r
      → (o : Result (Response M C) (BoxError X)) × Resolves
          (served g no_headers fut timer into box)
          (serving g no_headers fut timer into box f sleep span)
          k
          o
        × Told g no_headers box code read r o
  request-Told code read laws f sleep span k r ends =
      let (o, recovered, told) =
        any-Recovered g no_headers box code read (GrpcTimeout.future fut timer into) laws
          (record { inner = f; sleep = sleep }) k r
          (timed-Resolves fut timer into f sleep k r ends) in
      (map_ok (map_body box) o, recovered-served f sleep span k o recovered, told)
