-- ===== src/Channel/Domain.antt =====
-- `ChannelBuilder::tls_connector` of src/channel/endpoint.rs and `TlsConnector` of src/tls.rs.
use tonic_transport_native.Common.{◌≡◌, ◌↔◌, ◌⊎◌, Option, none, some, Bytes, arith}
use tonic_transport_native.Runtime.{Result, ok, err}
use tonic_transport_native.Error.{Error, invalid_uri, new_invalid_uri}
use tonic_transport_native.Http.{Uris}
use tonic_transport_native.Channel.Builder.{ChannelBuilder}

pub record TlsConnector (C : Type 0) : Type 0 where
  pub connector : C
  pub domain : Bytes

unfoldable pub new : {C : Type 0} → C → Bytes → TlsConnector C
new connector domain = record { connector = connector; domain = domain }

-- The `match &self.tls_verify_domain`.
unfoldable pub domain_of :
    {X : Type 0} → Option Bytes → Option Bytes → Bytes → Result Bytes (Error X)
domain_of none none uri = err (new_invalid_uri uri)
domain_of none (some host) uri = ok host
domain_of (some domain) host uri = ok domain

-- The domain that was set, or the host of the channel's URI if none was.
abbrev pub Selects :
    {U Sc Au Pq C V : Type 0} → Uris U Sc Au Pq → ChannelBuilder U C V → Bytes → Type 0
Selects u b domain =
    (b.tls_verify_domain ≡ some domain)
    ⊎ ((b.tls_verify_domain ≡ none) × (u.host b.uri ≡ some domain))

module _ {U Sc Au Pq C V X : Type 0} (u : Uris U Sc Au Pq) where
  unfoldable pub tls_connector : ChannelBuilder U C V → Result (TlsConnector C) (Error X)
  unfolding new domain_of new_invalid_uri
  tls_connector b = elim (domain_of b.tls_verify_domain (u.host b.uri) (u.to_string b.uri)) [
    | ok domain ↦ ok (new b.tls domain)
    | err e ↦ err e
  ]

  -- The server's certificate is verified against a domain exactly if that is the one that was set,
  -- or none was set and it is the host of the channel's URI; always with the builder's connector.
  pub tls_connector_iff :
      (b : ChannelBuilder U C V) (tls : TlsConnector C)
      → (tls_connector b ≡ ok tls) ↔ ((tls.connector ≡ b.tls) × Selects u b tls.domain)
  unfolding tls_connector
  tls_connector_iff b tls = (λ h. ground arith, λ h. ground arith)

  -- There is no connector exactly if no domain was set and the channel's URI has no host, and the
  -- error then names the URI.
  pub tls_connector_error_iff :
      (b : ChannelBuilder U C V) (e : Error X)
      → (tls_connector b ≡ err e) ↔ (
          (b.tls_verify_domain ≡ none)
          × (u.host b.uri ≡ none)
          × (e ≡ invalid_uri (u.to_string b.uri)))
  unfolding tls_connector
  tls_connector_error_iff b e = (λ h. ground arith, λ h. ground arith)
