-- ===== src/Examples/Client.antt =====
-- The client of examples/src/client.rs.
use tonic_transport_native.Common.{[], ◌∷◌, Bytes, codes}
use tonic_transport_native.Runtime.{Result, ok, map_err, Exec, done, ◌>>=◌}
use tonic_transport_native.Error.{BoxError, foreign, transport}
use tonic_transport_native.Http.{Headers, Uris}
use tonic_transport_native.Channel.Builder.{ChannelBuilder, of_static, into_uri, builder}
use tonic_transport_native.Channel.Setters.{tls_verify_domain}
use tonic_transport_native.Channel.Core.{Channel, Crates}
use tonic_transport_native.Channel.Connect.{Dialers, Dialer, connect}
use tonic_transport_native.Examples.Program.{Program, and_then, println}
use tonic_transport_native.Examples.Tls.{Connectors, set_up_connector}
use tonic_transport_native.Examples.Number.{pos}
use tonic_transport_native.Examples.Hello.{Tonic}

-- What the generated client is: `HelloClient::new`, and what its `count_hello` comes to.
pub record HelloClient (Bf Cl Rq Rs St : Type 0) : Type 0 where
  pub new : Channel Bf → Cl
  pub count_hello : Cl → Rq → Result Rs St

-- The conversions of strings to URIs of the http crate.
pub record ReadsUris (U P : Type 0) : Type 0 where
  pub from_static : Bytes → Exec U
  pub from_maybe_shared : Bytes → Result U P
  pub to_string : P → Bytes

abbrev pub server_uri : Bytes
server_uri = codes "http://[::1]:50051"

abbrev pub verified_builder : {U C V : Type 0} → ChannelBuilder U C V → ChannelBuilder U C V
verified_builder b = tls_verify_domain b (codes "localhost")

-- `secure` is the conversion of a connector of native_tls, and `status` that of a status to an error.
module _ {Bd Me Ft Nb N U Pe Sc Au Pq V M C K T H B F I S₁ S Bal D Bf Cl Rq Rs St X : Type 0}
    (connectors : Connectors Bd Me Ft Nb N X) (reads : ReadsUris U Pe) (secure : N → C)
    (u : Uris U Sc Au Pq) (h : Headers V M)
    (crates : Crates U Sc Au V (Dialer C K T) H B F I S₁ S Bal D Bf X) (dial : Dialers C K T)
    (tonic : Tonic Rq Rs) (client : HelloClient Bf Cl Rq Rs St) (status : St → X) where
  abbrev pub greet : Channel Bf → Program (Unit {0}) (BoxError X)
  greet channel =
      let request = tonic.request (record { number = pos 42 }) in
      and_then (map_err (λ s. foreign (status s)) (client.count_hello (client.new channel) request))
        (λ response. println ((tonic.response_into_inner response).message ∷ []) (done ([], ok tt)))

  abbrev pub connected : ChannelBuilder U C V → Program (Unit {0}) (BoxError X)
  connected b = do
    channel ← connect u h crates dial (verified_builder b)
    and_then (map_err transport channel) greet

  unfoldable pub main : Program (Unit {0}) (BoxError X)
  main = and_then (set_up_connector connectors) (λ sync_connector. do
    uri ←
        into_uri {X = X} reads.from_static reads.from_maybe_shared reads.to_string
          (of_static server_uri)
    and_then (map_err transport (builder uri (secure sync_connector))) connected)
