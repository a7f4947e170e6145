-- ===== src/Server/Replied.antt =====
-- What the server in src/server/mod.rs replies to a request that its services answer in time.
use mathlib.Core.Option
use tonic_transport_native.Common.{ℕ, ap, ◌∙◌, ◌≡◌, Option, none}
use tonic_transport_native.Runtime.{Result, ok, map_err, done, Future, Service, Resolves}
use tonic_transport_native.Error.{Error, BoxError}
use tonic_transport_native.Duration.{Duration}
use tonic_transport_native.Http.{Headers, TextLaws}
use tonic_transport_native.GrpcTimeout.Timer.{TimerLaws}
use tonic_transport_native.GrpcTimeout.Leaves.{Leaves, Leaves-Unfired}
use tonic_transport_native.GrpcTimeout.Deadline.{AllNormal, call-Timed}
use tonic_transport_native.GrpcTimeout.Middleware as GrpcTimeout
use tonic_transport_native.RecoverError.Status.{Code, Statuses}
use tonic_transport_native.RecoverError.Body.{MaybeEmptyBody}
use tonic_transport_native.RecoverError.Middleware as RecoverError
use tonic_transport_native.RecoverError.Middleware.{Response}
use tonic_transport_native.RecoverError.Recovery.{StatusLaws}
use tonic_transport_native.Server.Info.{TlsConnectInfo}
use tonic_transport_native.Server.Make.{
  Requests, ConnSvc, SvcFuture, MakeSvc, span_of, with_info, conn_call, make_call,
}
use tonic_transport_native.Server.Made.{call-Served}
use tonic_transport_native.Server.Told.{served, serving}
use tonic_transport_native.GrpcTimeout.Ends.{in_time}
use tonic_transport_native.Server.Outcome.{Told, request-Told}

module _ {H St V Mq M X R F T B C E S₀ Tr Sp I Tls : Type 0} (h : Headers V Mq) (texts : TextLaws h)
    (headers : R → Mq) (sleep : Duration → T) (timer : Future T (Unit {0}))
    (timers : TimerLaws timer sleep) (g : Statuses H St M X) (no_headers : M)
    (fut : Future F (Result (Response M B) E)) (svc : Service S₀ R F E) (into : E → BoxError X)
    (box : MaybeEmptyBody B → C)
    (limit : Option ℕ → GrpcTimeout.GrpcTimeout S₀ → GrpcTimeout.GrpcTimeout S₀)
    (info : Tls → Result (TlsConnectInfo I) (Error X)) (reqs : Requests R Tr Sp I)
    (code : St → Code) (read : M → Option Code) where
  abbrev pub Replying : Type 0
  Replying = SvcFuture (RecoverError.ResponseFuture (GrpcTimeout.ResponseFuture F T)) Sp

  abbrev pub replying : Future Replying (Result (Response M C) (BoxError X))
  replying = served g no_headers fut timer into box

  abbrev pub below :
      Service (GrpcTimeout.GrpcTimeout S₀) R (GrpcTimeout.ResponseFuture F T) (BoxError X)
  below = GrpcTimeout.service h headers sleep svc into

  -- At the poll behind `k` polls, the client of a connection is told what stands for the result of
  -- the services.
  pub record Replied (m : MakeSvc S₀ Tr) (io : Tls) (req : R) (k : ℕ) (r : Result (Response M B) E)
      : Type 0 where
    pub conn : ConnSvc (GrpcTimeout.GrpcTimeout S₀) Tr I
    pub made : make_call limit info m io ≡ ok conn
    pub future : Replying
    pub after : ConnSvc (GrpcTimeout.GrpcTimeout S₀) Tr I
    pub called : conn_call below (λ e. e) reqs conn req ≡ done (future, after)
    pub reply : Result (Response M C) (BoxError X)
    pub replied : Resolves replying future k reply
    pub told : Told g no_headers box code read (map_err into r) reply

  -- A server with no concurrency limit, whose timeout is normal if set, makes a service for a
  -- connection that tells of itself. If the services below take a request, and their future comes to
  -- a result before a timer for the request's time or for the server's timeout is ready, then the
  -- client is told of that result at the same poll.
  pub call-Replied :
      (laws : StatusLaws g code read no_headers) (m : MakeSvc S₀ Tr) (io : Tls)
      (i : TlsConnectInfo I) (req : R) (f : F) (s' : S₀) (k : ℕ) (r : Result (Response M B) E)
      → m.concurrency_limit ≡ none
      → ((t : GrpcTimeout.GrpcTimeout S₀) → limit none t ≡ t)
      → AllNormal m.timeout
      → info io ≡ ok i
      → svc.call m.inner (with_info reqs i req) ≡ done (f, s')
      → Resolves fut f k r
      → Leaves h timer sleep timers (headers (with_info reqs i req)) m.timeout k
      → Replied m io req k r
  unfolding GrpcTimeout.service GrpcTimeout.new
  call-Replied laws m io i req f s' k r no_limit unlimited normal told taken resolved leaves =
      let q = with_info reqs i req in
      let s₀ = GrpcTimeout.new m.inner m.timeout in
      let t = call-Timed h texts headers sleep svc into s₀ q f s' normal taken in
      let sleeping = Option.map sleep t.allowed in
      let unfired =
        Leaves-Unfired h timer sleep timers fut (headers q) m.timeout t.client t.allowed k leaves
          t.announced t.shortest in
      let same : limit m.concurrency_limit s₀ ≡ s₀ = ap (λ l. limit l s₀) no_limit ∙ unlimited s₀ in
      let made =
        call-Served limit info reqs below (λ e. e) m io i req _ (record s₀ { inner = s' }) told
          (ap (λ s. below.call s q) same ∙ t.result) in
      let (reply, replied, is_told) =
        request-Told g no_headers fut timer into box code read laws f sleeping
          (span_of reqs m.trace_interceptor q) k (map_err into r)
          (in_time sleeping k r resolved unfired) in
      record {
        conn = made.conn;
        made = made.made;
        future =
            serving g no_headers fut timer into box f sleeping (span_of reqs m.trace_interceptor q);
        after = made.after;
        called = made.served;
        reply = reply;
        replied = replied;
        told = is_told;
      }
