-- ===== src/Connection/Stack.antt =====
-- `Connection` of src/service/connection.rs: the layers of a client, the outermost first.
use tonic_transport_native.Common.{ℕ, Bool, true, false, Option, none, some, Bytes}
use tonic_transport_native.Runtime.{Result, Exec, done, ◌>>=◌, Poll, Service}
use tonic_transport_native.Error.{BoxError}
use tonic_transport_native.Duration.{Duration}
use tonic_transport_native.Http.{Headers, Uris, Request}
use tonic_transport_native.Channel.Builder.{ChannelBuilder}
use tonic_transport_native.Connection.Settings.{HyperBuilder, settings}
use tonic_transport_native.AddOrigin.Middleware as AddOrigin
use tonic_transport_native.UserAgent.Middleware as UserAgent
use tonic_transport_native.GrpcTimeout.Middleware as GrpcTimeout
use tonic_transport_native.Reconnect.Machine as Reconnect

-- The services of a connection, around the service `S` that stands in for the two limits of tower
-- and what they hold.
abbrev pub Timed : Type 0 → Type 0
Timed S = GrpcTimeout.GrpcTimeout S

abbrev pub Agent : Type 0 → Type 0 → Type 0
Agent S V = UserAgent.UserAgent (Timed S) V

pub record Connection (S V Sc Au : Type 0) : Type 0 where
  pub inner : AddOrigin.AddOrigin (Agent S V) Sc Au

-- `endpoint.origin.as_ref().unwrap_or(&endpoint.uri)`.
abbrev pub origin_of : {U C V : Type 0} → ChannelBuilder U C V → U
origin_of endpoint = elim (endpoint.origin) [ some origin ↦ origin | none ↦ endpoint.uri ]

-- The three layers of this crate, around a service that is in the state `below`.
unfoldable pub stack :
    {U Sc Au Pq V M C S : Type 0}
    → Uris U Sc Au Pq
    → Headers V M
    → ChannelBuilder U C V
    → S
    → Exec (Connection S V Sc Au)
stack u h endpoint below = do
  agent ← UserAgent.new h (GrpcTimeout.new below endpoint.timeout) endpoint.user_agent
  done (record { inner = AddOrigin.new u agent (origin_of endpoint) })

-- `connector` is hyper's `Connect::new`, and `concurrency` and `rate` are tower's `option_layer`
-- with the layers for the two limits.
module _ {U Sc Au Pq V M C K H B F I S₁ S X : Type 0} (u : Uris U Sc Au Pq) (h : Headers V M)
    (hyper : HyperBuilder B) (connector : K → B → H)
    (rate : Option (ℕ × Duration) → Reconnect.Reconnect H U F I X → S₁)
    (concurrency : Option ℕ → S₁ → S) where
  -- What stands below `GrpcTimeout`.
  unfoldable pub limited : K → ChannelBuilder U C V → Bool → S
  limited make endpoint is_lazy =
      let conn = Reconnect.new (connector make (settings hyper endpoint)) endpoint.uri is_lazy in
      concurrency endpoint.concurrency_limit (rate endpoint.rate_limit conn)

  unfoldable pub new : K → ChannelBuilder U C V → Bool → Exec (Connection S V Sc Au)
  unfolding stack
  new make endpoint is_lazy = stack u h endpoint (limited make endpoint is_lazy)

  -- `ready_oneshot` is tower's: it polls a service until it is ready.
  unfoldable pub connect :
      {D : Type 0} → (Connection S V Sc Au → D) → K → ChannelBuilder U C V → Exec D
  connect ready_oneshot make endpoint = do conn ← new make endpoint false; done (ready_oneshot conn)

  unfoldable pub lazy : K → ChannelBuilder U C V → Exec (Connection S V Sc Au)
  lazy make endpoint = new make endpoint true

-- The load that tower's balancer is told of.
unfoldable pub load : {S V Sc Au : Type 0} → Connection S V Sc Au → ℕ
load c = 0

module _ {U V M P B S F E T X : Type 0} (h : Headers V M) (sleep : Duration → T)
    (svc : Service S (Request U M P B) F E) (into : E → BoxError X) where
  unfoldable pub timed :
      Service (Timed S) (Request U M P B) (GrpcTimeout.ResponseFuture F T) (BoxError X)
  timed = GrpcTimeout.service h (λ req. req.headers) sleep svc into

  unfoldable pub agent :
      Service (Agent S V) (Request U M P B) (GrpcTimeout.ResponseFuture F T) (BoxError X)
  agent = UserAgent.service h timed

  module _ {Sc Au Pq : Type 0} (u : Uris U Sc Au Pq) (detail : Option Au → Option Sc → Bytes) where
    unfoldable pub poll_ready :
        Connection S V Sc Au → Exec (Poll (Result (Unit {0}) (BoxError X)) × Connection S V Sc Au)
    poll_ready c = do
      answer ← AddOrigin.poll_ready u agent (λ e. e) detail c.inner
      done (answer.0, record { inner = answer.1 })

    unfoldable pub call :
        Connection S V Sc Au
        → Request U M P B
        → Exec (AddOrigin.BoxFuture (GrpcTimeout.ResponseFuture F T) X × Connection S V Sc Au)
    call c req = do
      answer ← AddOrigin.call u agent (λ e. e) detail c.inner req
      done (answer.0, record { inner = answer.1 })
