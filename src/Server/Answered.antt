-- ===== src/Server/Answered.antt =====
-- The answer to a request, from the connection of a client (src/service/connection.rs) over the wire
-- to the server (src/server/mod.rs), and back.
use mathlib.Core.Option
use tonic_transport_native.Common.{ℕ, subst, ◌∙◌, refl, ◌≡◌, ◌+◌, Option, none, some, Bytes}
use tonic_transport_native.Runtime.{Result, ok, err, map_err, done, Future, Service, Resolves}
use tonic_transport_native.Error.{Error, BoxError}
use tonic_transport_native.Duration.{Duration}
use tonic_transport_native.Http.{Headers, TextLaws, MapLaws, ValueLaws, Uris, UriLaws, Request}
use tonic_transport_native.Channel.Builder.{ChannelBuilder}
use tonic_transport_native.Connection.Stack.{Connection, origin_of, stack}
use tonic_transport_native.Connection.Sent.{Sent, agent_is_no_timeout, Carries-along, call-Sent}
use tonic_transport_native.Connection.Deadline.{awaiting-Resolves}
use tonic_transport_native.GrpcTimeout.Parse.{grpc_timeout_header}
use tonic_transport_native.GrpcTimeout.Timer.{TimerLaws}
use tonic_transport_native.GrpcTimeout.Leaves.{Leaves, Leaves-Unfired}
use tonic_transport_native.GrpcTimeout.Deadline.{AllNormal, Announces, IsShortest}
use tonic_transport_native.GrpcTimeout.Middleware as GrpcTimeout
use tonic_transport_native.AddOrigin.Middleware as AddOrigin
use tonic_transport_native.RecoverError.Status.{Code, Statuses}
use tonic_transport_native.RecoverError.Body.{MaybeEmptyBody}
use tonic_transport_native.RecoverError.Middleware.{Response}
use tonic_transport_native.RecoverError.Recovery.{StatusLaws}
use tonic_transport_native.Server.Info.{TlsConnectInfo}
use tonic_transport_native.Server.Make.{Requests, MakeSvc, with_info}
use tonic_transport_native.Server.Replied.{Replied, call-Replied}
use tonic_transport_native.GrpcTimeout.Ends.{in_time, timed-Resolves}

map_err_same : {A E : Type 0} (r : Result A E) → map_err (λ (e : E). e) r ≡ r
map_err_same (ok a) = refl
map_err_same (err e) = refl

-- The response of a client, from what the services below its timeout answer in time.
response-Resolves :
    {V M F T A E X : Type 0} (h : Headers V M) (timer : Future T (Unit {0})) (sleep : Duration → T)
    (timers : TimerLaws timer sleep) (fut : Future F (Result A E)) (into : E → BoxError X)
    (headers : M) (set client allowed : Option Duration) (f : F) (k : ℕ) (r : Result A E)
    → Announces h headers client
    → IsShortest client set allowed
    → Leaves h timer sleep timers headers set k
    → Resolves fut f k r
    → Resolves
        (AddOrigin.future (GrpcTimeout.future fut timer into) (λ e. e))
        (AddOrigin.awaiting (record { inner = f; sleep = Option.map sleep allowed }))
        k
        (map_err into r)
response-Resolves h timer sleep timers fut into headers set client allowed f k r announced shortest
      leaves resolved =
    let unfired =
      Leaves-Unfired h timer sleep timers fut headers set client allowed k leaves announced
        shortest in
    subst
      (λ o.
        Resolves (AddOrigin.future (GrpcTimeout.future fut timer into) (λ e. e))
          (AddOrigin.awaiting (record { inner = f; sleep = Option.map sleep allowed })) k o)
      (map_err_same (map_err into r))
      (awaiting-Resolves (GrpcTimeout.future fut timer into) (λ e. e) _ k (map_err into r)
        (timed-Resolves fut timer into f (Option.map sleep allowed) k (map_err into r)
          (in_time (Option.map sleep allowed) k r resolved unfired)))

-- The client: its connection and what is below. The server: its services and its connections. The
-- wire: `arrives` takes a request that is sent to one that the server is given, and `carry` a reply
-- to what the client's services are told, `delay` polls later.
module _ {U Sc Au Pq V HM P Bq Sw Fw Aw Ew Tc X C H St M R F T B Cb E S₀ Tr Sp I Tls Xs : Type 0}
    (u : Uris U Sc Au Pq) (h : Headers V HM) (texts : TextLaws h) (clock : Duration → Tc)
    (ctimer : Future Tc (Unit {0})) (ctimers : TimerLaws ctimer clock)
    (detail : Option Au → Option Sc → Bytes) (wire : Service Sw (Request U HM P Bq) Fw Ew)
    (wired : Future Fw (Result Aw Ew)) (into_box : Ew → BoxError X) (headers : R → HM)
    (sleep : Duration → T) (timer : Future T (Unit {0})) (timers : TimerLaws timer sleep)
    (g : Statuses H St M Xs) (no_headers : M) (fut : Future F (Result (Response M B) E))
    (svc : Service S₀ R F E) (into : E → BoxError Xs) (box : MaybeEmptyBody B → Cb)
    (limit : Option ℕ → GrpcTimeout.GrpcTimeout S₀ → GrpcTimeout.GrpcTimeout S₀)
    (info : Tls → Result (TlsConnectInfo I) (Error Xs)) (reqs : Requests R Tr Sp I)
    (code : St → Code) (read : M → Option Code) (endpoint : ChannelBuilder U C V) (under : Sw)
    (answer : Request U HM P Bq → Fw × Sw) (arrives : Request U HM P Bq → R) (delay : ℕ)
    (carry : Result (Response M Cb) (BoxError Xs) → Result Aw Ew) (m : MakeSvc S₀ Tr)
    (io : Tls) where
  -- The wire brings every reply of the server to the client.
  abbrev pub Brings : Type 0
  Brings =
      (req : Request U HM P Bq) (k : ℕ) (r : Result (Response M B) E)
      (p : Replied h texts headers sleep timer timers g no_headers fut svc into box limit info reqs
        code read m io (arrives req) k r)
      → Resolves wired (answer req).0 (k + delay) (carry p.reply)

  -- A request is sent, the server replies to it, and the client's call comes to that reply.
  pub record Answered (req : Request U HM P Bq) (k : ℕ) (reply : R → Result (Response M B) E)
      : Type 0 where
    pub conn : Connection Sw V Sc Au
    pub built : stack u h endpoint under ≡ done conn
    pub sent : Sent u h clock detail wire into_box endpoint under answer conn req
    pub replied :
        Replied h texts headers sleep timer timers g no_headers fut svc into box limit info reqs
          code read m io
          (arrives sent.sent)
          k
          (reply (arrives sent.sent))
    pub answered :
        Resolves
          (AddOrigin.future (GrpcTimeout.future wired ctimer into_box) (λ e. e))
          (AddOrigin.awaiting
            (record { inner = (answer sent.sent).0; sleep = Option.map clock sent.allowed }))
          (k + delay)
          (map_err into_box (carry replied.reply))

  -- The builder of a client's connection has a timeout that is normal, if it has one, and an origin
  -- (or else a URI) with a scheme and an authority, and a request that has a path is sent on the
  -- connection. The wire takes every request, keeps its `grpc-timeout`, and brings every reply back
  -- some polls later. The server has no concurrency limit and a timeout that is normal, if it has one,
  -- and is told of its connection; its service takes every request, and comes to a result at the poll
  -- behind `k` polls. If neither a timer for the time that the request announces, nor one for the
  -- server's timeout, nor, with the delay, one for the client's, is ready before that: then at that
  -- poll the server's client is told of the result, and with the delay the client's call comes to
  -- that reply.
  pub request-Answered :
      (maps : MapLaws h) (values : ValueLaws h) (uris : UriLaws u)
      (laws : StatusLaws g code read no_headers) (i : TlsConnectInfo I) (req : Request U HM P Bq)
      (sc : Sc) (au : Au) (pq : Pq) (f : R → F) (after : R → S₀)
      (reply : R → Result (Response M B) E) (k : ℕ)
      → (u.into_parts (origin_of endpoint)).scheme ≡ some sc
      → (u.into_parts (origin_of endpoint)).authority ≡ some au
      → (u.into_parts req.uri).path_and_query ≡ some pq
      → AllNormal endpoint.timeout
      → ((r : Request U HM P Bq) → wire.call under r ≡ done (answer r))
      → ((r : Request U HM P Bq)
          → h.get (headers (with_info reqs i (arrives r))) grpc_timeout_header
            ≡ h.get r.headers grpc_timeout_header)
      → Brings
      → m.concurrency_limit ≡ none
      → ((t : GrpcTimeout.GrpcTimeout S₀) → limit none t ≡ t)
      → AllNormal m.timeout
      → info io ≡ ok i
      → ((r : R) → svc.call m.inner (with_info reqs i r) ≡ done (f r, after r))
      → ((r : R) → Resolves fut (f r) k (reply r))
      → Leaves h timer sleep timers req.headers m.timeout k
      → Leaves h ctimer clock ctimers req.headers endpoint.timeout (k + delay)
      → Answered req k reply
  request-Answered maps values uris laws i req sc au pq f after reply k has_scheme has_authority
        has_path normal sends kept brings no_limit unlimited server_normal told taken resolves
        leaves client_leaves =
      let (conn, built, sent) =
        call-Sent u h clock detail wire into_box texts maps values uris endpoint under answer req sc
          au pq has_scheme has_authority has_path normal sends in
      let arrived = arrives sent.sent in
      let same = kept sent.sent ∙ sent.other_headers grpc_timeout_header agent_is_no_timeout in
      let server_leaves : Leaves h timer sleep timers (headers (with_info reqs i arrived)) m.timeout
          k =
        record {
          by_headers = λ d c.
              leaves.by_headers d
                (Carries-along h (headers (with_info reqs i arrived)) req.headers d same c);
          by_timeout = leaves.by_timeout;
        } in
      let replied =
        call-Replied h texts headers sleep timer timers g no_headers fut svc into box limit info
          reqs code read laws m io i arrived (f arrived) (after arrived) k (reply arrived) no_limit
          unlimited server_normal told (taken arrived) (resolves arrived) server_leaves in
      record {
        conn = conn;
        built = built;
        sent = sent;
        replied = replied;
        answered =
            response-Resolves h ctimer clock ctimers wired into_box req.headers endpoint.timeout
              sent.client sent.allowed (answer sent.sent).0 (k + delay) (carry replied.reply)
              sent.announced sent.shortest client_leaves
              (brings sent.sent k (reply arrived) replied);
      }
