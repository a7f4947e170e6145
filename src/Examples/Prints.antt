-- ===== src/Examples/Prints.antt =====
-- What the client of examples/src/client.rs prints when the greeter of examples/src/server.rs answers.
use tonic_transport_native.Common.{◌≡◌, refl, ap, ◌∙◌, List, [], ◌∷◌, Bytes, codes}
use tonic_transport_native.Runtime.{ok, done}
use tonic_transport_native.Http.{Headers, Uris}
use tonic_transport_native.Channel.Core.{Channel, Crates}
use tonic_transport_native.Channel.Connect.{Dialers, Dialer}
use tonic_transport_native.GrpcTimeout.Print.{digits}
use tonic_transport_native.Examples.Number.{pos, show}
use tonic_transport_native.Examples.Tls.{Connectors}
use tonic_transport_native.Examples.Hello.{Tonic, TonicLaws}
use tonic_transport_native.Examples.Client.{HelloClient, ReadsUris, main}
use tonic_transport_native.Examples.Verifies.{Greeted, main_iff}
use tonic_transport_native.Examples.Greeting.{IsDelivered, greeting, call_greets}

greeting_42 : greeting (pos 42) ≡ codes "Hello 42!"
unfolding show digits
greeting_42 = refl

module _ {Bd Me Ft Nb N U Pe Sc Au Pq V M C K T H B F I S₁ S Bal D Bf Cl Rq Rs St X : Type 0}
    (connectors : Connectors Bd Me Ft Nb N X) (reads : ReadsUris U Pe) (secure : N → C)
    (u : Uris U Sc Au Pq) (h : Headers V M)
    (crates : Crates U Sc Au V (Dialer C K T) H B F I S₁ S Bal D Bf X) (dial : Dialers C K T)
    (tonic : Tonic Rq Rs) (client : HelloClient Bf Cl Rq Rs St) (status : St → X) where
  -- Given `TonicLaws`, and that the calls over any channel that succeed are answered by the greeter:
  -- where a greeting is received (`Greeted`), the client prints this line and succeeds.
  pub main-Greeted :
      (laws : TonicLaws tonic) (lines : List Bytes)
      → ((channel : Channel Bf) → IsDelivered tonic laws (client.count_hello (client.new channel)))
      → Greeted connectors reads secure u h crates dial tonic client status lines
      → main connectors reads secure u h crates dial tonic client status
        ≡ done (codes "Hello 42!" ∷ [], ok tt)
  main-Greeted laws lines delivered g =
      let told =
        call_greets tonic laws (client.count_hello (client.new g.channel)) (pos 42) g.response
          (delivered g.channel) g.answered in
      (main_iff connectors reads secure u h crates dial tonic client status lines).1 g
      ∙ ap (λ t. done (t, ok tt)) (g.printed ∙ ap (λ t. t ∷ []) (told ∙ greeting_42))
