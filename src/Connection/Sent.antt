-- ===== src/Connection/Sent.antt =====
-- What a call of src/service/connection.rs sends, through all of its layers.
use mathlib.Core.Option
use tonic_transport_native.Common.{sym, ◌≡◌, ◌≢◌, refl, Option, none, some, Bytes}
use tonic_transport_native.Runtime.{done, Service}
use tonic_transport_native.Error.{BoxError}
use tonic_transport_native.Duration.{Duration}
use tonic_transport_native.Http.{Headers, TextLaws, MapLaws, ValueLaws, Uris, UriLaws, Request}
use tonic_transport_native.Channel.Builder.{ChannelBuilder}
use tonic_transport_native.GrpcTimeout.Parse.{grpc_timeout_header}
use tonic_transport_native.GrpcTimeout.Deadline.{
  IsShortest, AllNormal, Announces, Carries, call-Timed,
}
use tonic_transport_native.GrpcTimeout.Middleware as GrpcTimeout
use tonic_transport_native.AddOrigin.Middleware as AddOrigin
use tonic_transport_native.AddOrigin.Origin.{call-Rebased}
use tonic_transport_native.UserAgent.Middleware as UserAgent
use tonic_transport_native.UserAgent.Header.{call-Stamped, expected_bytes}
use tonic_transport_native.Connection.Stack.{Connection, origin_of, call, timed, agent, stack}

pub agent_is_no_timeout : UserAgent.user_agent_name ≢ grpc_timeout_header
agent_is_no_timeout = λ e. cc

module _ {V M : Type 0} (h : Headers V M) where
  pub Carries-along :
      (m m' : M) (d : Duration)
      → h.get m grpc_timeout_header ≡ h.get m' grpc_timeout_header
      → Carries h m d
      → Carries h m' d
  Carries-along m m' d same c = record {
    val = c.val;
    present = cc (same, c.present);
    text = c.text;
    read = c.read;
    encoded = c.encoded;
  }

  Announces-along :
      (m m' : M) (client : Option Duration)
      → h.get m grpc_timeout_header ≡ h.get m' grpc_timeout_header
      → Announces h m client
      → Announces h m' client
  Announces-along m m' none same refuted = λ d c. refuted d (Carries-along m' m d (sym same) c)
  Announces-along m m' (some d) same c = Carries-along m m' d same c

module _ {U Sc Au Pq V M P B S F E T X C : Type 0} (u : Uris U Sc Au Pq) (h : Headers V M)
    (sleep : Duration → T) (detail : Option Au → Option Sc → Bytes)
    (svc : Service S (Request U M P B) F E) (into : E → BoxError X) where
  -- What a connection of the builder does with a request, if the services below its timeout hold
  -- the state `below` and take every request, `answer` being what they do.
  pub record Sent (endpoint : ChannelBuilder U C V) (below : S) (answer : Request U M P B → F × S)
      (conn : Connection S V Sc Au) (req : Request U M P B) : Type 0 where
    pub sent : Request U M P B
    pub scheme : (u.into_parts sent.uri).scheme ≡ (u.into_parts (origin_of endpoint)).scheme
    pub authority :
        (u.into_parts sent.uri).authority ≡ (u.into_parts (origin_of endpoint)).authority
    pub path : (u.into_parts sent.uri).path_and_query ≡ (u.into_parts req.uri).path_and_query
    pub agent : V
    pub present : h.get sent.headers UserAgent.user_agent_name ≡ some agent
    pub agent_bytes : h.as_bytes agent ≡ expected_bytes h endpoint.user_agent
    pub other_headers :
        (name : Bytes)
        → UserAgent.user_agent_name ≢ name
        → h.get sent.headers name ≡ h.get req.headers name
    pub rest : sent.rest ≡ req.rest
    pub body : sent.body ≡ req.body
    pub client : Option Duration
    pub announced : Announces h req.headers client
    pub allowed : Option Duration
    pub shortest : IsShortest client endpoint.timeout allowed
    pub after : Connection S V Sc Au
    pub result :
        call h sleep svc into u detail conn req
        ≡ done (
          AddOrigin.awaiting (record { inner = (answer sent).0; sleep = Option.map sleep allowed }),
          after,
        )
    pub below_after : after.inner.inner.inner.inner ≡ (answer sent).1

  module _ (texts : TextLaws h) (maps : MapLaws h) (values : ValueLaws h) (laws : UriLaws u)
      (endpoint : ChannelBuilder U C V) (below : S) (answer : Request U M P B → F × S) where
    -- If the origin (the builder's, or else its URI) has a scheme and an authority, the services of
    -- a connection can be built and take a request that has a path, both without a panic. What
    -- reaches the services below the timeout is that request with the origin's scheme and
    -- authority, a `user-agent` that is the value of the builder, if any, and the default, and all
    -- else unchanged; the response future has a timer for the shorter of the time in the request's
    -- header and the builder's timeout, if either is set.
    pub call-Sent :
        (req : Request U M P B) (s : Sc) (a : Au) (p : Pq)
        → (u.into_parts (origin_of endpoint)).scheme ≡ some s
        → (u.into_parts (origin_of endpoint)).authority ≡ some a
        → (u.into_parts req.uri).path_and_query ≡ some p
        → AllNormal endpoint.timeout
        → ((r : Request U M P B) → svc.call below r ≡ done (answer r))
        → (conn : Connection S V Sc Au) × (stack u h endpoint below ≡ done conn)
          × Sent endpoint below answer conn req
    unfolding stack call timed agent GrpcTimeout.new AddOrigin.service UserAgent.service
        GrpcTimeout.service
    call-Sent req s a p es ea ep normal taken =
        let inner = GrpcTimeout.new below endpoint.timeout in
        let (layer, built, stamps) =
          call-Stamped h values maps (timed h sleep svc into) inner endpoint.user_agent in
        let (uri, rebased) =
          call-Rebased u laws (agent h sleep svc into) (λ e. e) detail layer (origin_of endpoint)
            req s a p es ea ep in
        let stamped = stamps (record req { uri = uri }) in
        let sent = record req { uri = uri; headers = stamped.headers } in
        let clock =
          call-Timed h texts (λ r. r.headers) sleep svc into inner sent (answer sent).0
            (answer sent).1 normal (taken sent) in
        (
          record { inner = AddOrigin.new u layer (origin_of endpoint) },
          rw built,
          record {
            sent = sent;
            scheme = rebased.scheme_of_origin;
            authority = rebased.authority_of_origin;
            path = rebased.path_of_request;
            agent = stamped.value;
            present = stamped.present;
            agent_bytes = stamped.bytes;
            other_headers = stamped.others;
            rest = refl;
            body = refl;
            client = clock.client;
            announced =
                Announces-along h sent.headers req.headers clock.client
                  (stamped.others grpc_timeout_header agent_is_no_timeout) clock.announced;
            allowed = clock.allowed;
            shortest = clock.shortest;
            after = record {
              inner = record {
                inner = record {
                  inner = record inner { inner = (answer sent).1 };
                  user_agent = layer.user_agent;
                };
                scheme = (u.into_parts (origin_of endpoint)).scheme;
                authority = (u.into_parts (origin_of endpoint)).authority;
              };
            };
            result = rw (rebased.forwarded) (rw (stamped.forwarded) (rw (clock.result)));
            below_after = refl;
          },
        )
