-- ===== src/GrpcTimeout/Middleware.antt =====
-- The `Service` and the response future of src/service/grpc_timeout.rs.
use mathlib.Core.Option
use tonic_transport_native.Common.{Option, none, some}
use tonic_transport_native.Runtime.{
  Result, ok, err, map_err, Exec, done, ◌>>=◌, Poll, pending, ready, map_poll, Future, Service,
}
use tonic_transport_native.Error.{BoxError, timeout_expired}
use tonic_transport_native.Duration.{Duration, min}
use tonic_transport_native.Http.{Headers}
use tonic_transport_native.GrpcTimeout.Parse.{try_parse_grpc_timeout}

pub record GrpcTimeout (S : Type 0) : Type 0 where
  pub inner : S
  pub server_timeout : Option Duration

unfoldable pub new : {S : Type 0} → S → Option Duration → GrpcTimeout S
new inner server_timeout = record { inner = inner; server_timeout = server_timeout }

-- The future of the response: the inner one, and the timer (tokio's `Sleep`), if one runs.
pub record ResponseFuture (F T : Type 0) : Type 0 where
  pub inner : F
  pub sleep : Option T

-- The shorter of the two durations, if either is set.
unfoldable pub timeout_duration : Option Duration → Option Duration → Option Duration
timeout_duration none none = none
timeout_duration (some dur) none = some dur
timeout_duration none (some dur) = some dur
timeout_duration (some header) (some server) = some (min header server)

abbrev pub client_timeout_of {ℓ} : {V : Type ℓ} → Result (Option Duration) V → Option Duration
client_timeout_of (ok timeout) = timeout
client_timeout_of (err e) = none

module _ {S R F E V M T X : Type 0} (h : Headers V M) (headers : R → M) (sleep : Duration → T)
    (svc : Service S R F E) (into : E → BoxError X) where
  unfoldable pub poll_ready :
      GrpcTimeout S → Exec (Poll (Result (Unit {0}) (BoxError X)) × GrpcTimeout S)
  poll_ready s = do
    answer ← svc.poll_ready s.inner
    done (map_poll (map_err into) answer.0, record s { inner = answer.1 })

  unfoldable pub call : GrpcTimeout S → R → Exec (ResponseFuture F T × GrpcTimeout S)
  unfolding timeout_duration
  call s req = do
    parsed ← try_parse_grpc_timeout h (headers req)
    let duration = timeout_duration (client_timeout_of parsed) s.server_timeout
    answer ← svc.call s.inner req
    done (
      record { inner = answer.0; sleep = Option.map sleep duration },
      record s { inner = answer.1 },
    )

  unfoldable pub service : Service (GrpcTimeout S) R (ResponseFuture F T) (BoxError X)
  service = record { poll_ready = poll_ready; call = call }

module _ {F T E A X : Type 0} (fut : Future F (Result A E)) (timer : Future T (Unit {0}))
    (into : E → BoxError X) where
  -- What is done when the inner future is not ready: the timer is polled, if there is one.
  unfoldable pub poll_sleep :
      F → Option T → Exec (Poll (Result A (BoxError X)) × ResponseFuture F T)
  poll_sleep inner none = done (pending, record { inner = inner; sleep = none })
  poll_sleep inner (some t) = do
    fired ← timer.poll t
    elim (fired.0) [
      | pending ↦ done (pending, record { inner = inner; sleep = some fired.1 })
      | ready _ ↦ done (ready (err timeout_expired), record { inner = inner; sleep = some fired.1 })
    ]

  unfoldable pub poll :
      ResponseFuture F T → Exec (Poll (Result A (BoxError X)) × ResponseFuture F T)
  unfolding poll_sleep
  poll this = do
    answer ← fut.poll this.inner
    elim (answer.0) [
      | ready result ↦ done (ready (map_err into result), record this { inner = answer.1 })
      | pending ↦ poll_sleep answer.1 this.sleep
    ]

  unfoldable pub future : Future (ResponseFuture F T) (Result A (BoxError X))
  future = record { poll = poll }
