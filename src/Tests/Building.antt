-- ===== src/Tests/Building.antt =====
-- Tests of the modules below Channel and Server.
use tonic_transport_native.Common.{
  ℕ, ◌==◌, if◌then◌else◌, ◌≡◌, refl, true, false, Option, none, some, List, [], ◌∷◌, Bytes, codes,
}
use tonic_transport_native.Runtime.{ok}
use tonic_transport_native.Tests.Fixtures.{Uri, uris}
use tonic_transport_native.Channel.Builder.{ChannelBuilder, with_defaults}
use tonic_transport_native.Channel.Calls as Calls
use tonic_transport_native.Channel.Settings as Channel
use tonic_transport_native.Channel.Domain.{tls_connector, tls_connector_iff}
use tonic_transport_native.Channel.Domain as Domain
use tonic_transport_native.Server.Builder.{Server, builder}
use tonic_transport_native.Server.Settings as Serving

abbrev uri_at : Option Bytes → Uri
uri_at authority = record {
  scheme = some (codes "https");
  authority = authority;
  path_and_query = none;
}

abbrev at : Option Bytes → ChannelBuilder Uri (Unit {0}) (Unit {0})
at authority = with_defaults (uri_at authority) tt

abbrev client : ChannelBuilder Uri (Unit {0}) (Unit {0})
client = at (some (codes "example.com"))

abbrev calls : List (Calls.Setting Uri ℕ)
calls =
    Calls.tcp_nodelay false
    ∷ Calls.user_agent 0
    ∷ Calls.concurrency_limit 4
    ∷ Calls.tcp_nodelay true
    ∷ Calls.concurrency_limit 9
    ∷ []

-- The number 0 is a header value.
abbrev try_into : ℕ → Option (Unit {0})
try_into n = if n == 0 then some tt else none

apply_all-latest_example :
    Channel.apply_all {X = ℕ} try_into calls client ≡ ok (Channel.settled try_into calls client)
apply_all-latest_example = Channel.apply_all-latest try_into calls client

verified :
    tls_connector {X = ℕ} uris client ≡ ok (record { connector = tt; domain = codes "example.com" })
unfolding tls_connector Domain.domain_of Domain.new with_defaults
verified = refl

abbrev server : Server ℕ (Unit {0}) (List ℕ)
server = builder tt []

abbrev settings : List (Serving.Setting ℕ)
settings = Serving.trace_fn 5 ∷ Serving.max_frame_size (some 9) ∷ Serving.max_frame_size none ∷ []
