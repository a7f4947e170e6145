-- ===== src/Channel/Refused.antt =====
-- What the ways to connect in src/channel/endpoint.rs make of the builder's settings.
use tonic_transport_native.Common.{◌≡◌, refl, none}
use tonic_transport_native.Runtime.{err, done}
use tonic_transport_native.Error.{invalid_uri}
use tonic_transport_native.Duration.{Duration}
use tonic_transport_native.Http.{Headers, Uris}
use tonic_transport_native.Channel.Builder.{ChannelBuilder}
use tonic_transport_native.Channel.Setters.{connect_timeout}
use tonic_transport_native.Channel.Domain.{tls_connector, tls_connector_error_iff, domain_of}
use tonic_transport_native.Channel.Core.{Crates}
use tonic_transport_native.Channel.Core as Channel
use tonic_transport_native.Channel.Connect.{
  Dialers, Dialer, within, connect, connect_lazy, connect_with_connector,
  connect_with_connector_lazy, http_for,
}
use tonic_transport_native.Connection.Stack as Connection
use tonic_transport_native.Connection.Settings.{settings}

module _ {U Sc Au Pq V M C K T H B F I S₁ S Bal D Bf X : Type 0} (u : Uris U Sc Au Pq)
    (h : Headers V M) (crates : Crates U Sc Au V (Dialer C K T) H B F I S₁ S Bal D Bf X)
    (dial : Dialers C K T) (b : ChannelBuilder U C V) where
  -- With no domain set and a URI that has no host, each of the four ways to connect fails with an
  -- invalid URI, before anything is connected.
  pub connects_refused :
      (k : K)
      → b.tls_verify_domain ≡ none
      → u.host b.uri ≡ none
      → (connect u h crates dial b ≡ done (err (invalid_uri (u.to_string b.uri))))
        × (connect_lazy u h crates dial b ≡ done (err (invalid_uri (u.to_string b.uri))))
        × (connect_with_connector u h crates dial b k
            ≡ done (err (invalid_uri (u.to_string b.uri))))
        × (connect_with_connector_lazy u h crates dial b k
            ≡ done (err (invalid_uri (u.to_string b.uri))))
  unfolding connect connect_lazy connect_with_connector connect_with_connector_lazy
  connects_refused k unset hostless =
      let refused : tls_connector {X = X} u b ≡ err (invalid_uri (u.to_string b.uri)) =
        (tls_connector_error_iff u b (invalid_uri (u.to_string b.uri))).1 (unset, hostless, refl) in
      (rw refused, rw refused, rw refused, rw refused)

  -- Connecting lazily with a custom connector, the builder's connect timeout makes no difference.
  pub connect_timeout_unused :
      (k : K) (t : Duration)
      → connect_with_connector_lazy u h crates dial (connect_timeout b t) k
        ≡ connect_with_connector_lazy u h crates dial b k
  unfolding connect_with_connector_lazy connect_timeout tls_connector domain_of Channel.new
      Connection.lazy Connection.new Connection.stack Connection.limited settings
  connect_timeout_unused k t = refl

  -- With no connect timeout, connecting lazily is connecting lazily with the crate's own connector.
  pub connect_lazy_untimed :
      b.connect_timeout ≡ none
      → connect_lazy u h crates dial b
        ≡ connect_with_connector_lazy u h crates dial b (http_for u h crates dial b)
  unfolding connect_lazy connect_with_connector_lazy within http_for
  connect_lazy_untimed none_set = simp none_set
