-- ===== src/Server/Across.antt =====
-- The time that a request announces, from the connection of a client (src/service/connection.rs)
-- over the wire to the server (src/server/mod.rs).
use tonic_transport_native.Common.{ℕ, sym, ◌∙◌, suc, ◌≤◌, ◌≡◌, Option, none, some, Bytes}
use tonic_transport_native.Runtime.{Result, ok, done, Future, Service, Waits}
use tonic_transport_native.Error.{Error, BoxError}
use tonic_transport_native.Duration.{Duration, as_nanos}
use tonic_transport_native.Http.{Headers, TextLaws, MapLaws, ValueLaws, Uris, UriLaws, Request}
use tonic_transport_native.Channel.Builder.{ChannelBuilder}
use tonic_transport_native.Connection.Stack.{Connection, origin_of, stack}
use tonic_transport_native.Connection.Sent.{Sent, agent_is_no_timeout, Carries-along, call-Sent}
use tonic_transport_native.GrpcTimeout.Parse.{grpc_timeout_header}
use tonic_transport_native.GrpcTimeout.Timer.{TimerLaws}
use tonic_transport_native.GrpcTimeout.Deadline.{AllNormal, Carries}
use tonic_transport_native.GrpcTimeout.Middleware as GrpcTimeout
use tonic_transport_native.RecoverError.Status.{Code, Statuses}
use tonic_transport_native.RecoverError.Body.{MaybeEmptyBody}
use tonic_transport_native.RecoverError.Middleware.{Response}
use tonic_transport_native.RecoverError.Recovery.{StatusLaws}
use tonic_transport_native.Server.Info.{TlsConnectInfo}
use tonic_transport_native.Server.Make.{Requests, MakeSvc, with_info}
use tonic_transport_native.Server.Deadline.{Expired, allowed_within, call-Expired}

-- The client: its connection and what is below. The server: its services, its timers and its
-- connections. `arrives` is the wire, from a request that is sent to one that the server is given.
module _ {U Sc Au Pq V HM P Bq Sw Fw Ew Tc X C H St M R F T B Cb E S₀ Tr Sp I Tls Xs : Type 0}
    (u : Uris U Sc Au Pq) (h : Headers V HM) (texts : TextLaws h) (clock : Duration → Tc)
    (detail : Option Au → Option Sc → Bytes) (wire : Service Sw (Request U HM P Bq) Fw Ew)
    (into_box : Ew → BoxError X) (headers : R → HM) (sleep : Duration → T)
    (timer : Future T (Unit {0})) (timers : TimerLaws timer sleep) (g : Statuses H St M Xs)
    (no_headers : M) (fut : Future F (Result (Response M B) E)) (svc : Service S₀ R F E)
    (into : E → BoxError Xs) (box : MaybeEmptyBody B → Cb)
    (limit : Option ℕ → GrpcTimeout.GrpcTimeout S₀ → GrpcTimeout.GrpcTimeout S₀)
    (info : Tls → Result (TlsConnectInfo I) (Error Xs)) (reqs : Requests R Tr Sp I)
    (code : St → Code) (read : M → Option Code) (laws : StatusLaws g code read no_headers) where
  -- A request is sent, its client waits no longer than `d`, and the server answers what arrives no
  -- later than a timer for `d` is ready, that its time has expired.
  pub record Crossed (endpoint : ChannelBuilder U C V) (below : Sw)
      (answer : Request U HM P Bq → Fw × Sw) (arrives : Request U HM P Bq → R) (m : MakeSvc S₀ Tr)
      (io : Tls) (req : Request U HM P Bq) (d : Duration) : Type 0 where
    pub conn : Connection Sw V Sc Au
    pub built : stack u h endpoint below ≡ done conn
    pub sent : Sent u h clock detail wire into_box endpoint below answer conn req
    pub client : Duration
    pub client_waits : sent.allowed ≡ some client
    pub client_within : as_nanos client ≤ as_nanos d
    pub expired :
        Expired h texts headers sleep timer timers g no_headers fut svc into box limit info reqs
          code read laws m io
          (arrives sent.sent)
          d

  module _ (maps : MapLaws h) (values : ValueLaws h) (uris : UriLaws u)
      (endpoint : ChannelBuilder U C V) (below : Sw) (answer : Request U HM P Bq → Fw × Sw)
      (arrives : Request U HM P Bq → R) (m : MakeSvc S₀ Tr) (io : Tls) (i : TlsConnectInfo I) where
    -- The builder of a client's connection has a timeout that is normal, if it has one, and an origin
    -- (or else a URI) with a scheme and an authority, and a request that has a path and a readable
    -- `grpc-timeout` of `d` is sent on the connection, whose services below the timeout take every
    -- request. If the wire keeps that header, the server has no concurrency limit and a timeout that
    -- is normal, if it has one, and is told of its connection, and its service takes every request,
    -- but does not answer by the time that a timer for `d` is ready: then the client's own timer is for
    -- no more than `d`, and by the time that a timer for `d` is ready the server's future has come to
    -- what stands for the error `TimeoutExpired` (`Told`): a response with the code of the status that
    -- tonic makes of it, if tonic makes one, and else the error that tonic hands back.
    pub deadline-Crossed :
        (req : Request U HM P Bq) (sc : Sc) (au : Au) (pq : Pq) (d : Duration) (f : R → F)
        (after : R → S₀)
        → (u.into_parts (origin_of endpoint)).scheme ≡ some sc
        → (u.into_parts (origin_of endpoint)).authority ≡ some au
        → (u.into_parts req.uri).path_and_query ≡ some pq
        → AllNormal endpoint.timeout
        → ((r : Request U HM P Bq) → wire.call below r ≡ done (answer r))
        → ((r : Request U HM P Bq)
            → h.get (headers (with_info reqs i (arrives r))) grpc_timeout_header
              ≡ h.get r.headers grpc_timeout_header)
        → Carries h req.headers d
        → m.concurrency_limit ≡ none
        → ((t : GrpcTimeout.GrpcTimeout S₀) → limit none t ≡ t)
        → AllNormal m.timeout
        → info io ≡ ok i
        → ((r : R) → svc.call m.inner r ≡ done (f r, after r))
        → ((r : R) → Waits fut (f r) (suc (timers.fires (as_nanos d))))
        → Crossed endpoint below answer arrives m io req d
    deadline-Crossed req sc au pq d f after has_scheme has_authority has_path normal sends kept
          carried no_limit unlimited server_normal told taken waits =
        let (conn, built, sent) =
          call-Sent u h clock detail wire into_box texts maps values uris endpoint below answer req
            sc au pq has_scheme has_authority has_path normal sends in
        let (client, allowed, within) =
          allowed_within h texts req.headers d sent.client endpoint.timeout sent.allowed carried
            sent.announced sent.shortest in
        let arrived = with_info reqs i (arrives sent.sent) in
        let same = sent.other_headers grpc_timeout_header agent_is_no_timeout in
        record {
          conn = conn;
          built = built;
          sent = sent;
          client = client;
          client_waits = allowed;
          client_within = within;
          expired =
              call-Expired h texts headers sleep timer timers g no_headers fut svc into box limit
                info reqs code read laws m io i (arrives sent.sent) d (f arrived) (after arrived)
                no_limit unlimited server_normal told
                (Carries-along h req.headers (headers arrived) d (sym (kept sent.sent ∙ same))
                  carried)
                (taken arrived) (waits arrived);
        }
