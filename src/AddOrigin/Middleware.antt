-- ===== src/AddOrigin/Middleware.antt =====
-- `AddOrigin` of src/service/add_origin.rs.
use tonic_transport_native.Common.{Option, ◌||◌, not, is_some, if◌then◌else◌, Bytes}
use tonic_transport_native.Runtime.{
  expect, Result, err, map_err, Exec, done, panic, ◌>>=◌, Poll, pending, ready, map_poll, Future,
  Service,
}
use tonic_transport_native.Error.{Error, BoxError, transport, new_invalid_uri}
use tonic_transport_native.Http.{Uris, Request}

pub record AddOrigin (S Sc Au : Type 0) : Type 0 where
  pub inner : S
  pub scheme : Option Sc
  pub authority : Option Au

-- The boxed future of a response: `Box::pin(async move { Err(err.into()) })`, or the inner
-- future with its error boxed. An async block that has finished panics when it is polled.
pub data BoxFuture (F X : Type 0) : Type 0 where
  failed : Error X → BoxFuture F X
  awaiting : F → BoxFuture F X
  finished : BoxFuture F X

module _ {U Sc Au Pq : Type 0} (u : Uris U Sc Au Pq) where
  unfoldable pub new : {S : Type 0} → S → U → AddOrigin S Sc Au
  new inner origin =
      let parts = u.into_parts origin in
      record { inner = inner; scheme = parts.scheme; authority = parts.authority }

  module _ {S F E M P B X : Type 0} (svc : Service S (Request U M P B) F E) (into : E → BoxError X)
      (detail : Option Au → Option Sc → Bytes) where
    unfoldable pub poll_ready :
        AddOrigin S Sc Au → Exec (Poll (Result (Unit {0}) (BoxError X)) × AddOrigin S Sc Au)
    poll_ready s = do
      answer ← svc.poll_ready s.inner
      done (map_poll (map_err into) answer.0, record s { inner = answer.1 })

    -- The request goes on with a new URI.
    unfoldable pub forward :
        AddOrigin S Sc Au → Request U M P B → Exec (BoxFuture F X × AddOrigin S Sc Au)
    forward s req = do
      let parts = u.into_parts req.uri
      uri ← expect (u.from_parts (record parts { scheme = s.scheme; authority = s.authority }))
      answer ← svc.call s.inner (record req { uri = uri })
      done (awaiting answer.0, record s { inner = answer.1 })

    -- `detail` is the message that `format!` makes of both parts.
    unfoldable pub call :
        AddOrigin S Sc Au → Request U M P B → Exec (BoxFuture F X × AddOrigin S Sc Au)
    call s req =
        if not (is_some s.scheme) || not (is_some s.authority)
        then done (failed (new_invalid_uri (detail s.authority s.scheme)), s)
        else forward s req

    unfoldable pub service :
        Service (AddOrigin S Sc Au) (Request U M P B) (BoxFuture F X) (BoxError X)
    service = record { poll_ready = poll_ready; call = call }

module _ {F A E X : Type 0} (fut : Future F (Result A E)) (into : E → BoxError X) where
  -- The block behind a poll of the future that it awaits.
  unfoldable pub behind : Poll (Result A E) → F → BoxFuture F X
  behind pending f = awaiting f
  behind (ready r) f = finished

  unfoldable pub poll : BoxFuture F X → Exec (Poll (Result A (BoxError X)) × BoxFuture F X)
  unfolding behind
  poll (failed e) = done (ready (err (transport e)), finished)
  poll (awaiting f) = do
    answer ← fut.poll f
    done (map_poll (map_err into) answer.0, behind answer.0 answer.1)
  poll finished = panic

  unfoldable pub future : Future (BoxFuture F X) (Result A (BoxError X))
  future = record { poll = poll }
