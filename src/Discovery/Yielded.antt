-- ===== src/Discovery/Yielded.antt =====
-- The connections that src/service/discover.rs yields.
use tonic_transport_native.Common.{◌≡◌, refl, true, Option, some, Bytes}
use tonic_transport_native.Runtime.{ok, done, Poll, ready}
use tonic_transport_native.Http.{Headers, ValueLaws, Uris}
use tonic_transport_native.Channel.Builder.{ChannelBuilder}
use tonic_transport_native.Channel.Domain.{TlsConnector, tls_connector, tls_connector_iff, Selects}
use tonic_transport_native.Channel.Core.{Crates}
use tonic_transport_native.Channel.Connect.{Dialers, Dialer, plain}
use tonic_transport_native.Connection.Stack.{Connection, origin_of, stack, limited, new, lazy}
use tonic_transport_native.Connector.Handshake.{connector}
use tonic_transport_native.GrpcTimeout.Middleware as GrpcTimeout
use tonic_transport_native.AddOrigin.Middleware as AddOrigin
use tonic_transport_native.UserAgent.Header.{new_total}
use tonic_transport_native.Discovery.Changes.{
  Change, insert, DynamicServiceStream, http_of, on_change, on_received, poll_next,
}

module _ {U Sc Au Pq V M C K T H B F I S₁ S Bal D Bf X : Type 0} (u : Uris U Sc Au Pq)
    (h : Headers V M) (crates : Crates U Sc Au V (Dialer C K T) H B F I S₁ S Bal D Bf X)
    (dial : Dialers C K T) where
  -- The connection of a builder whose domain is `d`, which is made when it is first used: the layers
  -- of the crate around the limits around a service that connects through HTTP and TLS.
  pub record Yields (b : ChannelBuilder U C V) (d : Bytes) (conn : Connection S V Sc Au)
      : Type 0 where
    pub dialer : Dialer C K T
    pub is_plain :
        dialer
        ≡ plain (record { inner = http_of dial b; tls = record { connector = b.tls; domain = d } })
    pub layered :
        stack u h b (
          limited u h crates.hyper crates.hyper_connect crates.rate crates.concurrency dialer b
            true)
        ≡ done conn

module _ {U Sc Au Pq V M C K T H B F I S₁ S Bal D Bf Key Rx X : Type 0} (u : Uris U Sc Au Pq)
    (h : Headers V M) (crates : Crates U Sc Au V (Dialer C K T) H B F I S₁ S Bal D Bf X)
    (dial : Dialers C K T) (poll_recv : Rx → Poll (Option (Change Key (ChannelBuilder U C V))) × Rx)
    (s : DynamicServiceStream Rx) where
  abbrev after : DynamicServiceStream Rx
  after = record { changes = (poll_recv s.changes).1 }

  -- When a builder is received for a key, and a domain is set or else its URI has a host, the stream
  -- of services yields the key with a connection of the builder, which verifies that domain and is
  -- made when it is first used, and takes the message.
  pub poll_next-Yields :
      (values : ValueLaws h) (k : Key) (b : ChannelBuilder U C V) (d : Bytes)
      → (poll_recv s.changes).0 ≡ ready (some (insert k b))
      → Selects u b d
      → (conn : Connection S V Sc Au) × (poll_next u h crates dial poll_recv s
          ≡ done (ready (some (ok (insert k conn))), after))
        × Yields u h crates dial b d conn
  unfolding poll_next on_received on_change connector lazy new stack
  poll_next-Yields values k b d received selected =
      let tls : TlsConnector C = record { connector = b.tls; domain = d } in
      let known : tls_connector {X = X} u b ≡ ok tls =
        (tls_connector_iff u b tls).1 (refl, selected) in
      let dialer : Dialer C K T = plain (record { inner = http_of dial b; tls = tls }) in
      let below =
        limited u h crates.hyper crates.hyper_connect crates.rate crates.concurrency dialer b
          true in
      let (layer, built) = new_total h values (GrpcTimeout.new below b.timeout) b.user_agent in
      (
        record { inner = AddOrigin.new u layer (origin_of b) },
        rw received (rw known (rw built refl)),
        record { dialer = dialer; is_plain = refl; layered = rw built refl },
      )
