-- ===== src/Server/Told.antt =====
-- The future of the service of a connection in src/server/mod.rs: that of `Svc`, around the error
-- recovery and the timeout, with no concurrency limit set.
use tonic_transport_native.Common.{ℕ, Option}
use tonic_transport_native.Runtime.{Result, map_ok, map_err, Future, Resolves, now, later}
use tonic_transport_native.Error.{BoxError}
use tonic_transport_native.GrpcTimeout.Middleware as GrpcTimeout
use tonic_transport_native.RecoverError.Status.{Statuses}
use tonic_transport_native.RecoverError.Body.{MaybeEmptyBody}
use tonic_transport_native.RecoverError.Middleware as RecoverError
use tonic_transport_native.RecoverError.Middleware.{Response, map_body}
use tonic_transport_native.Server.Make.{SvcFuture, svc_future_poll}

module _ {F M B C E X Sp : Type 0} (fut : Future F (Result (Response M B) E))
    (into : E → BoxError X) (box : B → C) where
  abbrev pub svc_future : Future (SvcFuture F Sp) (Result (Response M C) (BoxError X))
  svc_future = record { poll = svc_future_poll fut into box }

  pub svc_future-Resolves :
      (f : F) (span : Sp) (k : ℕ) (r : Result (Response M B) E)
      → Resolves fut f k r
      → Resolves svc_future
          (record { inner = f; span = span })
          k
          (map_ok (map_body box) (map_err into r))
  unfolding svc_future_poll
  svc_future-Resolves f span k r (now _ {g = f'} e) =
      now (record { inner = f; span = span }) {g = record { inner = f'; span = span }} (rw e)
  svc_future-Resolves f span _ r (later _ {g = f'} e rest) =
      later (record { inner = f; span = span }) {g = record { inner = f'; span = span }} (rw e)
        (svc_future-Resolves f' span _ r rest)

module _ {H St M X F T B C E Sp : Type 0} (g : Statuses H St M X) (no_headers : M)
    (fut : Future F (Result (Response M B) E)) (timer : Future T (Unit {0})) (into : E → BoxError X)
    (box : MaybeEmptyBody B → C) where
  -- The future of the service of a connection, around the service `fut` and its timer.
  abbrev pub served :
      Future
        (SvcFuture (RecoverError.ResponseFuture (GrpcTimeout.ResponseFuture F T)) Sp)
        (Result (Response M C) (BoxError X))
  served =
      svc_future (RecoverError.future g no_headers (GrpcTimeout.future fut timer into) (λ e. e))
        (λ e. e) box

  abbrev pub serving :
      F
      → Option T
      → Sp
      → SvcFuture (RecoverError.ResponseFuture (GrpcTimeout.ResponseFuture F T)) Sp
  serving f sleep span = record {
    inner = record { inner = record { inner = f; sleep = sleep } };
    span = span;
  }
