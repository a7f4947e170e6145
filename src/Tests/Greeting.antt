-- ===== src/Tests/Greeting.antt =====
-- Tests of the modules below Examples.
use tonic_transport_native.Common.{
  ℕ, suc, ◌≡◌, ◌↔◌, refl, none, some, List, [], ◌∷◌, ◌++◌, Bytes, codes, arith,
}
use tonic_transport_native.Runtime.{Result, ok, done}
use tonic_transport_native.Channel.Builder.{into_uri, builder, new, with_defaults}
use tonic_transport_native.Channel.Setters.{tls_verify_domain}
use tonic_transport_native.Channel.Domain.{tls_connector}
use tonic_transport_native.Channel.Connect.{connect}
use tonic_transport_native.Channel.Core.{Channel, Svc}
use tonic_transport_native.Channel.Core as Channel
use tonic_transport_native.Connection.Stack as Connection
use tonic_transport_native.UserAgent.Middleware as UserAgent
use tonic_transport_native.Router.Routes.{Axum}
use tonic_transport_native.Examples.Number.{pos, negsuc, show}
use tonic_transport_native.Examples.Tls.{Ssl, Acceptors, Connectors, set_up_connector}
use tonic_transport_native.Examples.Hello.{
  HelloRequest, HelloResponse, Tonic, TonicLaws, MyGreeter, default, count_hello,
}
use tonic_transport_native.Examples.Ends.{Ends, main-Ends}
use tonic_transport_native.Server.Configured.{holding}
use tonic_transport_native.Examples.Server as Server
use tonic_transport_native.Examples.Client.{HelloClient, ReadsUris}
use tonic_transport_native.Examples.Client as Client
use tonic_transport_native.Examples.Verifies.{Greeted, main_iff}
use tonic_transport_native.Examples.Prints.{main-Greeted}
use tonic_transport_native.Examples.Greeting.{IsDelivered, answers_iff}
use tonic_transport_native.GrpcTimeout.Print.{digits}
use tonic_transport_native.Tests.Fixtures.{headers, Uri, uris}
use tonic_transport_native.Tests.Connecting.{Conn, crates, dialers}
use tonic_transport_native.Tests.Ending.{tcp, fresh, start, until, awaited, service}

-- A builder is the list of what it was told.
abbrev Told : Type 0
Told = List Bytes

abbrev ssl : Ssl Told (Unit {0}) (Unit {0}) ℕ
ssl = record {
  tls = tt;
  pem = tt;
  set_ca_file = λ b file. ok (file ∷ b);
  set_certificate_chain_file = λ b file. ok (file ∷ b);
  set_private_key_file = λ b file kind. ok (file ∷ b);
  set_alpn_protos = λ b protos. ok (protos ∷ b);
}

abbrev acceptors : Acceptors Told (Unit {0}) (Unit {0}) (Unit {0}) ℕ Told ℕ ℕ
acceptors = record {
  ssl = ssl;
  mozilla_intermediate = λ m. ok [];
  set_alpn_select_callback = λ b f. b;
  native = λ b. b;
  build = λ b. ok 1;
}

abbrev connectors : Connectors Told (Unit {0}) (Unit {0}) Told (Unit {0}) ℕ
connectors = record { ssl = ssl; builder = λ m. ok []; native = λ b. b; build = λ b. ok tt }

abbrev parse : Bytes → Result ℕ ℕ
parse s = ok 5

-- A router is the number of its routes.
abbrev axum : Axum ℕ MyGreeter ℕ ℕ
axum = record {
  new = 0;
  fallback = λ r a. r;
  route = λ r path svc. done (suc r);
  call = λ r q. q;
  name = λ svc. codes "hello.Hello";
  boxed = λ svc. svc;
}

main-Ends_example :
    Ends acceptors parse
      (λ n. n)
      []
      axum
      (λ g. g)
      tcp
      fresh
      start
      until
      awaited
      service
      (λ a. refl)
      (Server.main acceptors parse
        (λ n. n)
        []
        axum
        (λ g. g)
        tcp
        (holding fresh start until awaited service))
main-Ends_example =
    main-Ends acceptors parse (λ n. n) [] axum (λ g. g) tcp fresh start until awaited service
      (λ a. refl) (λ added. cc)

-- Requests and responses are their messages.
abbrev tonic : Tonic HelloRequest HelloResponse
tonic = record {
  request = λ m. m;
  request_into_inner = λ m. m;
  request_debug = λ m. show m.number;
  response = λ m. m;
  response_into_inner = λ m. m;
}

tonic_laws : TonicLaws tonic
tonic_laws = record {
  request_into_inner-request = λ m. refl;
  response_into_inner-response = λ m. refl;
}

-- A call is answered by the greeter.
abbrev answer : HelloRequest → Result HelloResponse ℕ
answer req = (count_hello {St = ℕ} tonic default req).1

delivered : IsDelivered tonic tonic_laws answer
unfolding count_hello
delivered = record {
  received = λ req. req;
  request_arrives = λ req. refl;
  reply_arrives = λ req rs answered. (rs, answered, refl);
}

abbrev hello : Bytes → HelloResponse
hello n = record { message = codes "Hello " ++ n ++ codes "!" }

answers_iff_example : (codes "Hello 42!" ≡ codes "Hello -7!") ↔ (pos 42 ≡ negsuc 6)
unfolding count_hello show digits
answers_iff_example =
    answers_iff tonic tonic_laws answer (pos 42) (negsuc 6) (hello (codes "42"))
      (hello (codes "-7")) delivered (omega arith) (omega arith) refl refl

abbrev Chan : Type 0
Chan = Channel (Svc Conn (Unit {0}) × ℕ)

abbrev client : HelloClient (Svc Conn (Unit {0}) × ℕ) Chan HelloRequest HelloResponse ℕ
client = record { new = λ channel. channel; count_hello = λ c req. answer req }

abbrev uri : Uri
uri = record {
  scheme = some (codes "http");
  authority = some (codes "[::1]:50051");
  path_and_query = none;
}

abbrev reads : ReadsUris Uri ℕ
reads = record { from_static = λ s. done uri; from_maybe_shared = λ s. ok uri; to_string = λ e. [] }

client_greets :
    Client.main connectors reads (λ n. n) uris headers crates dialers tonic client (λ s. s)
    ≡ done (codes "Hello 42!" ∷ [], ok tt)
unfolding Client.main set_up_connector into_uri builder new with_defaults tls_verify_domain
    count_hello show digits connect tls_connector Channel.connect Connection.connect Connection.new
    UserAgent.new UserAgent.header_value
client_greets = refl

greeted :
    Greeted connectors reads
      (λ n. n)
      uris
      headers
      crates
      dialers
      tonic
      client
      (λ s. s)
      (codes "Hello 42!" ∷ [])
greeted =
    (main_iff connectors reads (λ n. n) uris headers crates dialers tonic client (λ s. s)
        (codes "Hello 42!" ∷ [])).0
      client_greets

main_iff_example :
    (Client.main connectors reads (λ n. n) uris headers crates dialers tonic client (λ s. s)
      ≡ done (codes "Hello 42!" ∷ [], ok tt))
    ↔ Greeted connectors reads
        (λ n. n)
        uris
        headers
        crates
        dialers
        tonic
        client
        (λ s. s)
        (codes "Hello 42!" ∷ [])
main_iff_example =
    main_iff connectors reads (λ n. n) uris headers crates dialers tonic client (λ s. s)
      (codes "Hello 42!" ∷ [])

main-Greeted_example :
    Client.main connectors reads (λ n. n) uris headers crates dialers tonic client (λ s. s)
    ≡ done (codes "Hello 42!" ∷ [], ok tt)
main-Greeted_example =
    main-Greeted connectors reads (λ n. n) uris headers crates dialers tonic client (λ s. s)
      tonic_laws (codes "Hello 42!" ∷ []) (λ channel. delivered) (greeted)
