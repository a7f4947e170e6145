-- ===== src/Examples/Verifies.antt =====
-- When the client of examples/src/client.rs prints a greeting.
use tonic_transport_native.Common.{◌≡◌, refl, ap, ◌∙◌, ◌↔◌, inl, inr, List, [], ◌∷◌, Bytes, codes}
use tonic_transport_native.Runtime.{ok, map_err, Exec, done, panic, out_of_fuel, ◌>>=◌, bind_done}
use tonic_transport_native.Attempt.{map_err_ok}
use tonic_transport_native.Error.{Error, transport}
use tonic_transport_native.Http.{Headers, Uris}
use tonic_transport_native.Channel.Builder.{ChannelBuilder, into_uri, builder, new, with_defaults}
use tonic_transport_native.Channel.Setters.{tls_verify_domain}
use tonic_transport_native.Channel.Core.{Channel, Crates}
use tonic_transport_native.Channel.Connect.{Dialers, Dialer, connect}
use tonic_transport_native.Channel.Domain.{Selects}
use tonic_transport_native.Channel.Verified.{eagerly, IsVerified, connects_iff}
use tonic_transport_native.Examples.Program.{and_then, and_then_ok}
use tonic_transport_native.Examples.Tls.{Connectors, set_up_connector}
use tonic_transport_native.Examples.Number.{pos}
use tonic_transport_native.Examples.Hello.{Tonic}
use tonic_transport_native.Examples.Client.{
  HelloClient, ReadsUris, server_uri, verified_builder, greet, connected, main,
}

module _ {Bd Me Ft Nb N U Pe Sc Au Pq V M C K T H B F I S₁ S Bal D Bf Cl Rq Rs St X : Type 0}
    (connectors : Connectors Bd Me Ft Nb N X) (reads : ReadsUris U Pe) (secure : N → C)
    (u : Uris U Sc Au Pq) (h : Headers V M)
    (crates : Crates U Sc Au V (Dialer C K T) H B F I S₁ S Bal D Bf X) (dial : Dialers C K T)
    (tonic : Tonic Rq Rs) (client : HelloClient Bf Cl Rq Rs St) (status : St → X) where
  abbrev endpoint : U → N → ChannelBuilder U C V
  endpoint uri sync = verified_builder (with_defaults uri (secure sync))

  -- A greeting is received over a channel that is verified to go to `localhost`.
  pub record Greeted (lines : List Bytes) : Type 0 where
    pub sync : N
    pub set_up : set_up_connector connectors ≡ ok sync
    pub uri : U
    pub parsed : reads.from_static server_uri ≡ done uri
    pub channel : Channel Bf
    pub verified : IsVerified u h crates dial (endpoint uri sync) eagerly channel
    pub domain : verified.domain ≡ codes "localhost"
    pub response : Rs
    pub answered :
        client.count_hello (client.new channel) (tonic.request (record { number = pos 42 }))
        ≡ ok response
    pub printed : lines ≡ (tonic.response_into_inner response).message ∷ []

  Selects-localhost :
      (uri : U) (sync : N) (domain : Bytes)
      → Selects u (endpoint uri sync) domain
      → domain ≡ codes "localhost"
  unfolding tls_verify_domain
  Selects-localhost uri sync domain (inl set) = cc
  Selects-localhost uri sync domain (inr (unset, host)) = cc

  greet_ok :
      (channel : Channel Bf) (lines : List Bytes)
      → greet connectors reads secure u h crates dial tonic client status channel
        ≡ done (lines, ok tt)
      → (response : Rs) × (client.count_hello
            (client.new channel)
            (tonic.request (record { number = pos 42 }))
          ≡ ok response)
        × (lines ≡ (tonic.response_into_inner response).message ∷ [])
  greet_ok channel lines e =
      let (response, answered, printed) = and_then_ok _ _ lines tt e in
      (response, map_err_ok _ _ response answered, cc)

  connected_ok :
      (b : ChannelBuilder U C V) (lines : List Bytes)
      → connected connectors reads secure u h crates dial tonic client status b
        ≡ done (lines, ok tt)
      → (channel : Channel Bf) × (connect u h crates dial (verified_builder b) ≡ done (ok channel))
        × (greet connectors reads secure u h crates dial tonic client status channel
            ≡ done (lines, ok tt))
  connected_ok b lines e =
      let (made, connects, rest) =
        bind_done (connect u h crates dial (verified_builder b)) _ (lines, ok tt) e in
      let (channel, is_ok, rest) = and_then_ok (map_err transport made) _ lines tt rest in
      (channel, connects ∙ ap done (map_err_ok transport made channel is_ok), rest)

  uri_ok :
      (m : Exec U) (sync : N) (lines : List Bytes)
      → (do
        uri ← do u ← m; done (ok u)
        and_then
            (map_err {E = Error X} transport (builder uri (secure sync)))
            (connected connectors reads secure u h crates dial tonic client status))
        ≡ done (lines, ok tt)
      → (uri : U) × (m ≡ done uri)
        × (connected connectors reads secure u h crates dial tonic client status
              (with_defaults uri (secure sync))
            ≡ done (lines, ok tt))
  unfolding builder new
  uri_ok (done uri) sync lines e = (uri, refl, e)
  uri_ok panic sync lines e = cc
  uri_ok out_of_fuel sync lines e = cc

  greeted :
      (lines : List Bytes)
      → main connectors reads secure u h crates dial tonic client status ≡ done (lines, ok tt)
      → Greeted lines
  unfolding main into_uri
  greeted lines e =
      let (sync, set_up, rest) = and_then_ok (set_up_connector connectors) _ lines tt e in
      let (uri, parsed, rest) = uri_ok (reads.from_static server_uri) sync lines rest in
      let (channel, connects, rest) = connected_ok (with_defaults uri (secure sync)) lines rest in
      let (response, answered, printed) = greet_ok channel lines rest in
      let verified =
        (connects_iff u h crates dial (endpoint uri sync) eagerly channel).0 connects in
      record {
        sync = sync;
        set_up = set_up;
        uri = uri;
        parsed = parsed;
        channel = channel;
        verified = verified;
        domain = Selects-localhost uri sync verified.domain verified.selected;
        response = response;
        answered = answered;
        printed = printed;
      }

  prints :
      (lines : List Bytes)
      → Greeted lines
      → main connectors reads secure u h crates dial tonic client status ≡ done (lines, ok tt)
  unfolding main into_uri builder new
  prints lines g =
      let connects : connect u h crates dial (endpoint g.uri g.sync) ≡ done (ok g.channel) =
        (connects_iff u h crates dial (endpoint g.uri g.sync) eagerly g.channel).1 g.verified in
      rw (g.set_up) (rw (g.parsed) (rw connects (rw (g.answered) (rw (g.printed) refl))))

  -- The client succeeds, and has printed some lines, exactly if these are the one message of the
  -- answer to the number 42, TLS having been set up and the URI read, over a channel that is made at
  -- once and whose streams are secured for `localhost` (`Greeted`).
  pub main_iff :
      (lines : List Bytes)
      → (main connectors reads secure u h crates dial tonic client status ≡ done (lines, ok tt))
        ↔ Greeted lines
  main_iff lines = (greeted lines, prints lines)
