-- ===== src/Server/Unknown.antt =====
-- What a client of the server in src/server/mod.rs is told of a request for a service that the server
-- does not have, through all layers around the routes of src/service/router.rs.
use mathlib.Core.Option
use tonic_transport_native.Common.{
  ℕ, ◌≡◌, ◌≢◌, ap, ◌∙◌, Option, none, some, List, ◌∷◌, [], Bytes, codes,
}
use tonic_transport_native.Runtime.{Result, ok, done, ◌>>=◌, Future, Resolves, idle, Service}
use tonic_transport_native.Error.{Error, BoxError, transport}
use tonic_transport_native.Duration.{Duration}
use tonic_transport_native.Http.{Headers, TextLaws}
use tonic_transport_native.GrpcTimeout.Deadline.{AllNormal, call-Timed}
use tonic_transport_native.GrpcTimeout.Middleware as GrpcTimeout
use tonic_transport_native.RecoverError.Status.{Statuses}
use tonic_transport_native.RecoverError.Body.{MaybeEmptyBody, full}
use tonic_transport_native.RecoverError.Middleware as RecoverError
use tonic_transport_native.RecoverError.Middleware.{Response, map_body}
use tonic_transport_native.Router.Routes.{
  Answer, unimplemented, Axum, Routes, Router, routes_call, server_add_service, add_all,
}
use tonic_transport_native.Router.Respond.{
  RoutesFuture, routes_service, routes_future, routes-Resolves,
}
use tonic_transport_native.Router.Unmatched.{AxumLaws, IsUnmatched, unmatched_unimplemented}
use tonic_transport_native.Server.Info.{TlsConnectInfo}
use tonic_transport_native.Server.Make.{
  Requests, ConnSvc, SvcFuture, MakeSvc, span_of, with_info, conn_call, make_call,
}
use tonic_transport_native.Server.Made.{call-Served}
use tonic_transport_native.Server.Told.{served, serving}
use tonic_transport_native.GrpcTimeout.Ends.{Unfired, in_time, timed-Resolves}
use tonic_transport_native.Server.Outcome.{recovered-served}
use tonic_transport_native.Server.Builder.{Server}
use tonic_transport_native.RecoverError.Recovery.{future_success}
use tonic_transport_native.Server.Serve.{Hyper, make_svc}

-- The documented behaviour of axum's futures of answers: they are ready when they are polled first,
-- with a response that has the status code of the answer and its headers.
pub record AnswerLaws {Rt Sv R F M B : Type 0} {axum : Axum Rt Sv R F} (laws : AxumLaws axum)
    (fut : Future F (Result (Response M B) ⊥)) (get : M → Bytes → Option Bytes) : Type 0 where
  pub response_of : Answer → Response M B
  pub answers : (a : Answer) → Resolves fut (laws.into_response a) 0 (ok (response_of a))
  pub status : (a : Answer) → (response_of a).status ≡ a.status
  pub two_headers :
      (code : ℕ) (k k' v v' : Bytes)
      → k ≢ k'
      → (get (response_of (record { status = code; headers = (k, v) ∷ (k', v') ∷ [] })).headers k
          ≡ some v)
        × (get (response_of (record { status = code; headers = (k, v) ∷ (k', v') ∷ [] })).headers k'
            ≡ some v')

names_differ : codes "grpc-status" ≢ codes "content-type"
names_differ = λ e. cc

module _ {Rt Sv R F M B Cr Cb V HM H St Tr Sp I T Tls In A L Bh Run Sig X : Type 0}
    (axum : Axum Rt Sv R F) (laws : AxumLaws axum) (fut : Future F (Result (Response M B) ⊥))
    (get : M → Bytes → Option Bytes) (answers : AnswerLaws laws fut get) (boxed : B → Cr)
    (h : Headers V HM) (texts : TextLaws h) (headers : R → HM) (sleep : Duration → T)
    (timer : Future T (Unit {0})) (g : Statuses H St M X) (no_headers : M)
    (box : MaybeEmptyBody Cr → Cb)
    (limit : Option ℕ → GrpcTimeout.GrpcTimeout (Routes Rt) → GrpcTimeout.GrpcTimeout (Routes Rt))
    (info : Tls → Result (TlsConnectInfo I) (Error X)) (reqs : Requests R Tr Sp I)
    (hyper : Hyper In A L Rt (Routes Rt) Tr Bh Run Sig X) where
  abbrev timed :
      Service
        (GrpcTimeout.GrpcTimeout (Routes Rt))
        R
        (GrpcTimeout.ResponseFuture (RoutesFuture F) T)
        (BoxError X)
  timed = GrpcTimeout.service h headers sleep (routes_service axum) transport

  abbrev Answering : Type 0
  Answering =
      SvcFuture (RecoverError.ResponseFuture (GrpcTimeout.ResponseFuture (RoutesFuture F) T)) Sp

  abbrev answering : Future Answering (Result (Response M Cb) (BoxError X))
  answering = served g no_headers (routes_future {X = X} fut boxed) timer transport box

  -- A request on a connection of the server is answered at the first poll: that it is for nothing
  -- that is implemented.
  pub record IsUnimplemented (m : MakeSvc (Routes Rt) Tr) (io : Tls) (req : R) : Type 0 where
    pub conn : ConnSvc (GrpcTimeout.GrpcTimeout (Routes Rt)) Tr I
    pub made : make_call limit info m io ≡ ok conn
    pub future : Answering
    pub after : ConnSvc (GrpcTimeout.GrpcTimeout (Routes Rt)) Tr I
    pub called : conn_call timed (λ e. e) reqs conn req ≡ done (future, after)
    pub res : Response M Cb
    pub answered : Resolves answering future 0 (ok res)
    pub http_ok : res.status ≡ 200
    pub grpc_status : get res.headers (codes "grpc-status") ≡ some (codes "12")
    pub content_type : get res.headers (codes "content-type") ≡ some (codes "application/grpc")

  unfired : (t : Option T) → Unfired (routes_future {X = X} fut boxed) timer t 0
  unfired none = tt
  unfired (some t) = idle t

  -- What axum's future of the answer comes to behind all layers, whatever timer there is.
  answered_at_once :
      (f : F) (t : Option T) (span : Sp) (res : Response M B)
      → Resolves fut f 0 (ok res)
      → Resolves answering
          (serving g no_headers
            (routes_future {X = X} fut boxed)
            timer
            transport
            box
            (record { inner = f })
            t
            span)
          0
          (ok (map_body (λ b. box (full (boxed b))) res))
  answered_at_once f t span res resolved =
      let routed = routes-Resolves fut boxed f 0 res resolved in
      let in_time =
        timed-Resolves (routes_future fut boxed) timer transport (record { inner = f }) t 0 _
          (in_time t 0 _ routed (unfired t)) in
      recovered-served g no_headers (routes_future fut boxed) timer transport box
        (record { inner = f }) t span 0 _
        (future_success g no_headers
          (GrpcTimeout.future (routes_future {X = X} fut boxed) timer transport) (λ e. e)
          (record { inner = record { inner = f }; sleep = t }) 0 (map_body boxed res) in_time)

  -- Given `TextLaws`, `AxumLaws` and `AnswerLaws`: a server begins with a service, others are added,
  -- optional ones among them, and its `MakeSvc` is made, with tower's `ServiceBuilder` adding no
  -- layers, no concurrency limit, and a timeout that is normal, if it is set. On a connection that
  -- tells of itself, a request that is for none of the services, whatever its headers, is answered at
  -- the first poll, with the HTTP status 200, the gRPC status 12 and the content type of gRPC.
  pub unmatched-IsUnimplemented :
      (server : Server Tr A L) (svc : Sv) (svcs : List (Option Sv)) (r : Router (Server Tr A L) Rt)
      (io : Tls) (i : TlsConnectInfo I) (req : R)
      → (server_add_service axum server svc >>= λ first. add_all axum first svcs) ≡ done r
      → ((rs : Routes Rt) → hyper.service r.server.service_builder rs ≡ rs)
      → r.server.concurrency_limit ≡ none
      → ((t : GrpcTimeout.GrpcTimeout (Routes Rt)) → limit none t ≡ t)
      → AllNormal r.server.timeout
      → info io ≡ ok i
      → IsUnmatched axum laws (with_info reqs i req) (some svc ∷ svcs)
      → IsUnimplemented (make_svc hyper r.server r.routes) io req
  unfolding make_svc GrpcTimeout.service GrpcTimeout.new routes_service unimplemented
  unmatched-IsUnimplemented server svc svcs r io i req added no_layers no_limit unlimited normal
        told others =
      let m = make_svc hyper r.server r.routes in
      let s₀ = GrpcTimeout.new m.inner m.timeout in
      let q = with_info reqs i req in
      let f = laws.into_response unimplemented in
      let routed : routes_call axum m.inner q ≡ f =
        ap (λ rs. routes_call axum rs q) (no_layers r.routes)
        ∙ unmatched_unimplemented axum laws q server svc svcs r added others in
      let taken : (routes_service {X = X} axum).call m.inner q
          ≡ done (record { inner = f }, m.inner) =
        ap (λ x. done (record { inner = x }, m.inner)) routed in
      let t =
        call-Timed h texts headers sleep (routes_service {X = X} axum) transport s₀ q
          (record { inner = f }) m.inner normal taken in
      let unlimited : limit m.concurrency_limit s₀ ≡ s₀ =
        ap (λ l. limit l s₀) no_limit ∙ unlimited s₀ in
      let made =
        call-Served limit info reqs timed (λ e. e) m io i req _ (record s₀ { inner = m.inner }) told
          (ap (λ s. timed.call s q) unlimited ∙ t.result) in
      let (grpc_status, content_type) =
        answers.two_headers 200 (codes "grpc-status") (codes "content-type") (codes "12")
          (codes "application/grpc") names_differ in
      let res = answers.response_of unimplemented in
      record {
        conn = made.conn;
        made = made.made;
        future =
            serving g no_headers (routes_future {X = X} fut boxed) timer transport box
              (record { inner = f }) (Option.map sleep t.allowed)
              (span_of reqs m.trace_interceptor q);
        after = made.after;
        called = made.served;
        res = map_body (λ b. box (full (boxed b))) res;
        answered =
            answered_at_once f (Option.map sleep t.allowed) (span_of reqs m.trace_interceptor q) res
              (answers.answers unimplemented);
        http_ok = answers.status unimplemented;
        grpc_status = grpc_status;
        content_type = content_type;
      }
