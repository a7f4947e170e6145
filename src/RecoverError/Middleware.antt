-- ===== src/RecoverError/Middleware.antt =====
-- `RecoverError` and its response future of src/server/recover_error.rs.
use tonic_transport_native.Common.{ℕ}
use tonic_transport_native.Runtime.{
  expect, Result, ok, err, map_err, Exec, done, ◌>>=◌, Poll, pending, ready, map_poll, Future,
  Service,
}
use tonic_transport_native.Error.{BoxError}
use tonic_transport_native.RecoverError.Status.{Statuses, try_status_from_error}
use tonic_transport_native.RecoverError.Body.{MaybeEmptyBody, full, empty}

-- `http::Response`: the status code, the headers and the body.
pub record Response (M B : Type 0) : Type 0 where
  pub status : ℕ
  pub headers : M
  pub body : B

abbrev pub map_body : {M B C : Type 0} → (B → C) → Response M B → Response M C
map_body f res = record { status = res.status; headers = res.headers; body = f res.body }

pub record RecoverError (S : Type 0) : Type 0 where
  pub inner : S

unfoldable pub new : {S : Type 0} → S → RecoverError S
new inner = record { inner = inner }

pub record ResponseFuture (F : Type 0) : Type 0 where
  pub inner : F

module _ {S R F E X : Type 0} (svc : Service S R F E) (into : E → BoxError X) where
  unfoldable pub poll_ready :
      RecoverError S → Exec (Poll (Result (Unit {0}) (BoxError X)) × RecoverError S)
  poll_ready s = do
    answer ← svc.poll_ready s.inner
    done (map_poll (map_err into) answer.0, record { inner = answer.1 })

  unfoldable pub call : RecoverError S → R → Exec (ResponseFuture F × RecoverError S)
  call s req = do
    answer ← svc.call s.inner req
    done (record { inner = answer.0 }, record { inner = answer.1 })

  unfoldable pub service : Service (RecoverError S) R (ResponseFuture F) (BoxError X)
  service = record { poll_ready = poll_ready; call = call }

module _ {H St M X B : Type 0} (g : Statuses H St M X) (no_headers : M) where
  -- The `match try_status_from_error(err)`. `Response::new` has the status 200 and no headers.
  unfoldable pub recover :
      Result St (BoxError X) → Exec (Result (Response M (MaybeEmptyBody B)) (BoxError X))
  recover (ok status) = do
    headers ← expect (g.add_header status no_headers)
    done (ok (record { status = 200; headers = headers; body = empty }))
  recover (err e) = done (err e)

  -- The `match result`.
  unfoldable pub respond :
      Result (Response M B) (BoxError X)
      → Exec (Result (Response M (MaybeEmptyBody B)) (BoxError X))
  unfolding recover
  respond (ok response) = done (ok (map_body full response))
  respond (err e) = recover (try_status_from_error g e)

module _ {H St M X F B E : Type 0} (g : Statuses H St M X) (no_headers : M)
    (fut : Future F (Result (Response M B) E)) (into : E → BoxError X) where
  unfoldable pub poll :
      ResponseFuture F
      → Exec (Poll (Result (Response M (MaybeEmptyBody B)) (BoxError X)) × ResponseFuture F)
  unfolding respond
  poll this = do
    answer ← fut.poll this.inner
    elim (answer.0) [
      | pending ↦ done (pending, record { inner = answer.1 })
      | ready result ↦ (do
        r ← respond g no_headers (map_err into result)
        done (ready r, record { inner = answer.1 }))
    ]

  unfoldable pub future :
      Future (ResponseFuture F) (Result (Response M (MaybeEmptyBody B)) (BoxError X))
  future = record { poll = poll }
