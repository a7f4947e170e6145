-- ===== src/Server/Make.antt =====
-- `Svc` and `MakeSvc` of src/server/mod.rs: the service that is made for each connection.
use tonic_transport_native.Common.{ℕ, Option, none, some}
use tonic_transport_native.Runtime.{
  Result, ok, err, Exec, done, ◌>>=◌, Poll, Future, ready, map_poll, map_ok, map_err, Service,
}
use tonic_transport_native.Error.{Error, BoxError, transport}
use tonic_transport_native.Duration.{Duration}
use tonic_transport_native.GrpcTimeout.Middleware as GrpcTimeout
use tonic_transport_native.RecoverError.Middleware as RecoverError
use tonic_transport_native.Server.Info.{TlsConnectInfo}

pub record Svc (S Tr : Type 0) : Type 0 where
  pub inner : S
  pub trace_interceptor : Option Tr

-- The future with the span in which it is polled.
pub record SvcFuture (F Sp : Type 0) : Type 0 where
  pub inner : F
  pub span : Sp

-- What is used of the tracing crate, and of the extensions of a request.
pub record Requests (R Tr Sp I : Type 0) : Type 0 where
  pub intercept : Tr → R → Sp
  pub no_span : Sp
  pub insert_tls : R → TlsConnectInfo I → R
  pub insert_inner : R → I → R

unfoldable pub span_of : {R Tr Sp I : Type 0} → Requests R Tr Sp I → Option Tr → R → Sp
span_of reqs (some f) req = reqs.intercept f req
span_of reqs none req = reqs.no_span

module _ {S R F E X : Type 0} (svc : Service S R F E) (into : E → BoxError X) where
  unfoldable pub svc_poll_ready :
      {Tr : Type 0} → Svc S Tr → Exec (Poll (Result (Unit {0}) (BoxError X)) × Svc S Tr)
  svc_poll_ready s = do
    answer ← svc.poll_ready s.inner
    done (map_poll (map_err into) answer.0, record s { inner = answer.1 })

  unfoldable pub svc_call :
      {Tr Sp I : Type 0} → Requests R Tr Sp I → Svc S Tr → R → Exec (SvcFuture F Sp × Svc S Tr)
  unfolding span_of
  svc_call reqs s req = do
    let span = span_of reqs s.trace_interceptor req
    answer ← svc.call s.inner req
    done (record { inner = answer.0; span = span }, record s { inner = answer.1 })

-- The poll of the future, in its span; `box` is what boxes a body.
module _ {F M B C E X : Type 0} (fut : Future F (Result (RecoverError.Response M B) E))
    (into : E → BoxError X) (box : B → C) where
  unfoldable pub svc_future_poll :
      {Sp : Type 0}
      → SvcFuture F Sp
      → Exec (Poll (Result (RecoverError.Response M C) (BoxError X)) × SvcFuture F Sp)
  svc_future_poll this = do
    answer ← fut.poll this.inner
    let boxed = map_poll (λ r. map_ok (RecoverError.map_body box) (map_err into r)) answer.0
    done (boxed, record this { inner = answer.1 })

-- The service of a connection: the closure of `map_request`, by what it holds, in front of `Svc`.
pub record ConnSvc (S Tr I : Type 0) : Type 0 where
  pub conn_info : TlsConnectInfo I
  pub svc : Svc (RecoverError.RecoverError S) Tr

-- The request as the closure of `map_request` changes it.
unfoldable pub with_info : {R Tr Sp I : Type 0} → Requests R Tr Sp I → TlsConnectInfo I → R → R
with_info reqs conn_info req = reqs.insert_inner (reqs.insert_tls req conn_info) conn_info.inner

module _ {S R F E X : Type 0} (svc : Service S R F E) (into : E → BoxError X) where
  unfoldable pub recovering :
      Service (RecoverError.RecoverError S) R (RecoverError.ResponseFuture F) (BoxError X)
  recovering = RecoverError.service svc into

  unfoldable pub conn_call :
      {Tr Sp I : Type 0}
      → Requests R Tr Sp I
      → ConnSvc S Tr I
      → R
      → Exec (SvcFuture (RecoverError.ResponseFuture F) Sp × ConnSvc S Tr I)
  unfolding with_info recovering
  conn_call reqs c req = do
    answer ← svc_call recovering (λ e. e) reqs c.svc (with_info reqs c.conn_info req)
    done (answer.0, record c { svc = answer.1 })

pub record MakeSvc (S Tr : Type 0) : Type 0 where
  pub concurrency_limit : Option ℕ
  pub timeout : Option Duration
  pub inner : S
  pub trace_interceptor : Option Tr

-- The layers around the service; `limit` is tower's `option_layer` of the concurrency limit.
unfoldable pub layers :
    {S₀ S Tr : Type 0}
    → (Option ℕ → GrpcTimeout.GrpcTimeout S₀ → S)
    → MakeSvc S₀ Tr
    → Svc (RecoverError.RecoverError S) Tr
layers limit m = record {
  inner = RecoverError.new (limit m.concurrency_limit (GrpcTimeout.new m.inner m.timeout));
  trace_interceptor = m.trace_interceptor;
}

module _ {S₀ S Tr Tls I X : Type 0} (limit : Option ℕ → GrpcTimeout.GrpcTimeout S₀ → S)
    (info : Tls → Result (TlsConnectInfo I) (Error X)) where
  unfoldable pub make_call : MakeSvc S₀ Tr → Tls → Result (ConnSvc S Tr I) (BoxError X)
  unfolding layers
  make_call m io = elim (info io) [
    | err e ↦ err (transport e)
    | ok conn_info ↦ ok (record { conn_info = conn_info; svc = layers limit m })
  ]

unfoldable pub make_poll_ready :
    {S Tr X : Type 0} → MakeSvc S Tr → Poll (Result (Unit {0}) (BoxError X)) × MakeSvc S Tr
make_poll_ready m = (ready (ok tt), m)
