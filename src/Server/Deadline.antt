-- ===== src/Server/Deadline.antt =====
-- How long a client of the server in src/server/mod.rs waits for an answer, from the header of its
-- request through all layers of the service of its connection, with no concurrency limit set.

use tonic_transport_native.Common.{ℕ, suc, ◌≤◌, ◌≡◌, refl, subst, ◌∙◌, Option, none, some, arith}
use tonic_transport_native.Runtime.{Result, ok, err, done, Future, Service, Resolves, Waits}
use tonic_transport_native.Error.{Error, BoxError, timeout_expired}
use tonic_transport_native.Duration.{Duration, as_nanos}
use tonic_transport_native.Http.{Headers, TextLaws}
use tonic_transport_native.GrpcTimeout.Header.{try_parse_grpc_timeout_accepts}
use tonic_transport_native.GrpcTimeout.Middleware as GrpcTimeout
use tonic_transport_native.GrpcTimeout.Timer.{TimerLaws, Waits-less}
use tonic_transport_native.GrpcTimeout.Deadline.{
  AllNormal, Announces, Carries, IsShortest, call-Timed,
}
use tonic_transport_native.RecoverError.Status.{Code, Statuses}
use tonic_transport_native.RecoverError.Body.{MaybeEmptyBody}
use tonic_transport_native.RecoverError.Middleware as RecoverError
use tonic_transport_native.RecoverError.Middleware.{Response, map_body}
use tonic_transport_native.RecoverError.Recovery.{StatusLaws}
use tonic_transport_native.Server.Info.{TlsConnectInfo}
use tonic_transport_native.Server.Make.{
  Requests, ConnSvc, SvcFuture, MakeSvc, span_of, with_info, conn_call, make_call,
}
use tonic_transport_native.Server.Made.{call-Served}
use tonic_transport_native.Server.Told.{served}
use tonic_transport_native.GrpcTimeout.Ends.{out_of_time}
use tonic_transport_native.Server.Outcome.{Told, request-Told}

module _ {V M : Type 0} (h : Headers V M) (texts : TextLaws h) where
  Carries-same : (headers : M) (c d : Duration) → Carries h headers c → Carries h headers d → c ≡ d
  Carries-same headers c d p q =
      let found =
        (try_parse_grpc_timeout_accepts h texts headers c).1
          (p.val, p.present, p.text, p.read, p.encoded) in
      let again =
        (try_parse_grpc_timeout_accepts h texts headers d).1
          (q.val, q.present, q.text, q.read, q.encoded) in
      cc

  -- A request that announces a time is given no more than that.
  pub allowed_within :
      (headers : M) (d : Duration) (client server allowed : Option Duration)
      → Carries h headers d
      → Announces h headers client
      → IsShortest client server allowed
      → (x : Duration) × (allowed ≡ some x) × (as_nanos x ≤ as_nanos d)
  allowed_within headers d none server allowed carried announced shortest =
      absurd (announced d carried)
  allowed_within headers d (some c) server none carried announced shortest =
      let unset = shortest.unset.0 refl in cc
  allowed_within headers d (some c) server (some x) carried announced shortest = (
    x,
    refl,
    subst (λ y. as_nanos x ≤ as_nanos y) (Carries-same headers c d announced carried)
        (shortest.within_client x c refl refl),
  )

module _ {H St V Mq M X R F T B C E S₀ Tr Sp I Tls : Type 0} (h : Headers V Mq) (texts : TextLaws h)
    (headers : R → Mq) (sleep : Duration → T) (timer : Future T (Unit {0}))
    (timers : TimerLaws timer sleep) (g : Statuses H St M X) (no_headers : M)
    (fut : Future F (Result (Response M B) E)) (svc : Service S₀ R F E) (into : E → BoxError X)
    (box : MaybeEmptyBody B → C)
    (limit : Option ℕ → GrpcTimeout.GrpcTimeout S₀ → GrpcTimeout.GrpcTimeout S₀)
    (info : Tls → Result (TlsConnectInfo I) (Error X)) (reqs : Requests R Tr Sp I) where
  abbrev Answering : Type 0
  Answering = SvcFuture (RecoverError.ResponseFuture (GrpcTimeout.ResponseFuture F T)) Sp

  abbrev Conn : Type 0
  Conn = ConnSvc (GrpcTimeout.GrpcTimeout S₀) Tr I

  -- The services below the error recovery.
  abbrev pub timed :
      Service (GrpcTimeout.GrpcTimeout S₀) R (GrpcTimeout.ResponseFuture F T) (BoxError X)
  timed = GrpcTimeout.service h headers sleep svc into

  -- The services below the error recovery take a request that they are given some time for.
  taken_timed :
      (m : MakeSvc S₀ Tr) (req : R) (d : Duration) (f : F) (s' : S₀)
      → m.concurrency_limit ≡ none
      → ((s : GrpcTimeout.GrpcTimeout S₀) → limit none s ≡ s)
      → AllNormal m.timeout
      → Carries h (headers req) d
      → svc.call m.inner req ≡ done (f, s')
      → (x : Duration) × (as_nanos x ≤ as_nanos d)
        × (s'' : GrpcTimeout.GrpcTimeout S₀) × (timed.call
              (limit m.concurrency_limit (GrpcTimeout.new m.inner m.timeout))
              req
            ≡ done (record { inner = f; sleep = some (sleep x) }, s''))
  unfolding GrpcTimeout.service GrpcTimeout.new
  taken_timed m req d f s' no_limit unlimited normal carried taken =
      let s₀ = GrpcTimeout.new m.inner m.timeout in
      let t = call-Timed h texts headers sleep svc into s₀ req f s' normal taken in
      let (x, allowed, within) =
        allowed_within h texts (headers req) d t.client m.timeout t.allowed carried t.announced
          t.shortest in
      (
        x,
        within,
        record s₀ { inner = s' },
        rw no_limit (rw (unlimited s₀) (t.result ∙ rw allowed refl)),
      )

  module _ (code : St → Code) (read : M → Option Code)
      (laws : StatusLaws g code read no_headers) where
    -- A request on the connection has an outcome, no later than a timer for `d` is ready, which stands
    -- for the error `TimeoutExpired`: the code of the status that tonic makes of that error, if it
    -- makes one, and else the error that tonic hands back.
    pub record Expired (m : MakeSvc S₀ Tr) (io : Tls) (req : R) (d : Duration) : Type 0 where
      pub conn : Conn
      pub made : make_call limit info m io ≡ ok conn
      pub answering : Answering
      pub after : Conn
      pub called : conn_call timed (λ e. e) reqs conn req ≡ done (answering, after)
      pub polls : ℕ
      pub in_time : polls ≤ timers.fires (as_nanos d)
      pub outcome : Result (Response M C) (BoxError X)
      pub answered : Resolves (served g no_headers fut timer into box) answering polls outcome
      pub told : Told g no_headers box code read (err timeout_expired) outcome

    -- A server with no concurrency limit makes a service for a connection, and a request with a
    -- readable `grpc-timeout` comes. If the services below take it, and their future is not ready by
    -- the time that a timer for the announced duration is, then by then the client is told of the error
    -- `TimeoutExpired`.
    pub call-Expired :
        (m : MakeSvc S₀ Tr) (io : Tls) (i : TlsConnectInfo I) (req : R) (d : Duration) (f : F)
        (s' : S₀)
        → m.concurrency_limit ≡ none
        → ((t : GrpcTimeout.GrpcTimeout S₀) → limit none t ≡ t)
        → AllNormal m.timeout
        → info io ≡ ok i
        → Carries h (headers (with_info reqs i req)) d
        → svc.call m.inner (with_info reqs i req) ≡ done (f, s')
        → Waits fut f (suc (timers.fires (as_nanos d)))
        → Expired m io req d
    call-Expired m io i req d f s' no_limit unlimited normal told carried taken waits =
        let (x, within, s'', timed_call) =
          taken_timed m (with_info reqs i req) d f s' no_limit unlimited normal carried taken in
        let made = call-Served limit info reqs timed (λ e. e) m io i req _ s'' told timed_call in
        let sooner = timers.fires_later (as_nanos x) (as_nanos d) within in
        let (outcome, answered, is_told) =
          request-Told g no_headers fut timer into box code read laws f (some (sleep x))
            (span_of reqs m.trace_interceptor (with_info reqs i req)) (timers.fires (as_nanos x)) _
            (out_of_time (sleep x) (timers.fires (as_nanos x))
              (Waits-less fut f _ _ (omega arith) waits) (timers.sleeps x)) in
        record {
          conn = made.conn;
          made = made.made;
          answering = _;
          after = made.after;
          called = made.served;
          polls = timers.fires (as_nanos x);
          in_time = sooner;
          outcome = outcome;
          answered = answered;
          told = is_told;
        }
