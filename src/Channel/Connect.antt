-- ===== src/Channel/Connect.antt =====
-- The four ways to make a channel from its builder in src/channel/endpoint.rs.
use tonic_transport_native.Common.{Bool, false, Option, none, some}
use tonic_transport_native.Runtime.{Result, ok, err, Exec, done, ◌>>=◌}
use tonic_transport_native.Error.{Error}
use tonic_transport_native.Duration.{Duration}
use tonic_transport_native.Http.{Headers, Uris}
use tonic_transport_native.Channel.Builder.{ChannelBuilder}
use tonic_transport_native.Channel.Domain.{tls_connector}
use tonic_transport_native.Channel.Core.{Channel, Crates}
use tonic_transport_native.Channel.Core as Channel
use tonic_transport_native.Connector.Handshake.{Connector, connector}

-- What is used of hyper's `HttpConnector`, and of hyper_timeout's `TimeoutConnector`.
pub record Dialers (C K T : Type 0) : Type 0 where
  pub http_new : K
  pub enforce_http : K → Bool → K
  pub set_nodelay : K → Bool → K
  pub set_keepalive : K → Option Duration → K
  pub timeout_new : Connector K C → T
  pub set_connect_timeout : T → Option Duration → T

-- What a channel is given to connect with: the connector, or one with a timeout around it.
pub data Dialer (C K T : Type 0) : Type 0 where
  plain : Connector K C → Dialer C K T
  timed : T → Dialer C K T

-- The operator `?` in front of code that may panic.
abbrev pub with_ok : {A B E : Type 0} → Result A E → (A → Exec (Result B E)) → Exec (Result B E)
with_ok (err e) next = done (err e)
with_ok (ok a) next = next a

module _ {U Sc Au Pq V M C K T H B F I S₁ S Bal D Bf X : Type 0} (u : Uris U Sc Au Pq)
    (h : Headers V M) (crates : Crates U Sc Au V (Dialer C K T) H B F I S₁ S Bal D Bf X)
    (dial : Dialers C K T) where
  -- The `HttpConnector` of a builder.
  unfoldable pub http_for : ChannelBuilder U C V → K
  http_for b =
      dial.set_keepalive (dial.set_nodelay (dial.enforce_http dial.http_new false) b.tcp_nodelay)
        b.tcp_keepalive

  -- The `if let Some(connect_timeout) = self.connect_timeout`.
  unfoldable pub within : Option Duration → Connector K C → Dialer C K T
  within none c = plain c
  within (some t) c = timed (dial.set_connect_timeout (dial.timeout_new c) (some t))

  unfoldable pub connect_with_connector :
      ChannelBuilder U C V → K → Exec (Result (Channel Bf) (Error X))
  unfolding within
  connect_with_connector b inner =
      with_ok (tls_connector u b)
        (λ tls. Channel.connect u h crates (within b.connect_timeout (connector inner tls)) b)

  unfoldable pub connect : ChannelBuilder U C V → Exec (Result (Channel Bf) (Error X))
  unfolding within http_for
  connect b =
      with_ok (tls_connector u b) (λ tls.
        Channel.connect u h crates (within b.connect_timeout (connector (http_for b) tls)) b)

  unfoldable pub connect_lazy : ChannelBuilder U C V → Exec (Result (Channel Bf) (Error X))
  unfolding within http_for
  connect_lazy b = with_ok (tls_connector u b) (λ tls. do
    channel ← Channel.new u h crates (within b.connect_timeout (connector (http_for b) tls)) b
    done (ok channel))

  unfoldable pub connect_with_connector_lazy :
      ChannelBuilder U C V → K → Exec (Result (Channel Bf) (Error X))
  connect_with_connector_lazy b inner = with_ok (tls_connector u b) (λ tls. do
    channel ← Channel.new u h crates (plain (connector inner tls)) b
    done (ok channel))
