-- ===== src/Discovery/Changes.antt =====
-- `DynamicServiceStream` of src/service/discover.rs.
use tonic_transport_native.Common.{false, Option, none, some}
use tonic_transport_native.Runtime.{unwrap, Result, ok, Exec, done, ◌>>=◌, Poll, pending, ready}
use tonic_transport_native.Error.{BoxError}
use tonic_transport_native.Http.{Headers, Uris}
use tonic_transport_native.Channel.Builder.{ChannelBuilder}
use tonic_transport_native.Channel.Domain.{tls_connector}
use tonic_transport_native.Channel.Core.{Crates}
use tonic_transport_native.Channel.Connect.{Dialers, Dialer, plain}
use tonic_transport_native.Connection.Stack.{Connection, lazy}
use tonic_transport_native.Connector.Handshake.{connector}

-- `tower::discover::Change`.
pub data Change (K V : Type 0) : Type 0 where
  insert : K → V → Change K V
  remove : K → Change K V

pub record DynamicServiceStream (Rx : Type 0) : Type 0 where
  pub changes : Rx

unfoldable pub new : {Rx : Type 0} → Rx → DynamicServiceStream Rx
new changes = record { changes = changes }

-- The `HttpConnector` of a builder, set up in the order of this file.
abbrev pub http_of : {U C V K T : Type 0} → Dialers C K T → ChannelBuilder U C V → K
http_of dial endpoint =
    let http = dial.set_nodelay dial.http_new endpoint.tcp_nodelay in
    dial.enforce_http (dial.set_keepalive http endpoint.tcp_keepalive) false

module _ {U Sc Au Pq V M C K T H B F I S₁ S Bal D Bf Key X : Type 0} (u : Uris U Sc Au Pq)
    (h : Headers V M) (crates : Crates U Sc Au V (Dialer C K T) H B F I S₁ S Bal D Bf X)
    (dial : Dialers C K T) where
  -- The arms of `match change`.
  unfoldable pub on_change :
      Change Key (ChannelBuilder U C V)
      → Exec (Result (Change Key (Connection S V Sc Au)) (BoxError X))
  on_change (insert k endpoint) = do
    tls ← unwrap (tls_connector {X = X} u endpoint)
    let dialer = plain (connector (http_of dial endpoint) tls)
    connection ←
        lazy u h crates.hyper crates.hyper_connect crates.rate crates.concurrency dialer endpoint
    done (ok (insert k connection))
  on_change (remove k) = done (ok (remove k))

  -- The `match` on what the receiver answers.
  unfoldable pub on_received :
      Poll (Option (Change Key (ChannelBuilder U C V)))
      → Exec (Poll (Option (Result (Change Key (Connection S V Sc Au)) (BoxError X))))
  unfolding on_change
  on_received pending = done pending
  on_received (ready none) = done pending
  on_received (ready (some change)) = do item ← on_change change; done (ready (some item))

  -- `poll_recv` is that of tokio's receiver.
  unfoldable pub poll_next :
      {Rx : Type 0}
      → (Rx → Poll (Option (Change Key (ChannelBuilder U C V))) × Rx)
      → DynamicServiceStream Rx
      → Exec (
          Poll (Option (Result (Change Key (Connection S V Sc Au)) (BoxError X)))
          × DynamicServiceStream Rx)
  unfolding on_received
  poll_next poll_recv s = do
    let received = poll_recv s.changes
    item ← on_received received.0
    done (item, record { changes = received.1 })
