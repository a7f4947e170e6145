-- ===== src/Tests/Making.antt =====
-- Tests of Channel/Verified.antt.
use tonic_transport_native.Common.{ℕ, ◌≡◌, ◌↔◌, refl, false, some, none, codes}
use tonic_transport_native.Runtime.{ok, done}
use tonic_transport_native.Channel.Builder.{with_defaults}
use tonic_transport_native.Channel.Core.{Channel, Svc, direct}
use tonic_transport_native.Channel.Core as Channel
use tonic_transport_native.Channel.Domain.{tls_connector}
use tonic_transport_native.Channel.Connect.{connect_with_connector}
use tonic_transport_native.Channel.Verified.{
  Way, eagerly_with, connects, dialer, IsVerified, connects_iff,
}
use tonic_transport_native.Connection.Stack.{limited, stack}
use tonic_transport_native.Connection.Stack as Connection
use tonic_transport_native.GrpcTimeout.Middleware as GrpcTimeout
use tonic_transport_native.AddOrigin.Middleware as AddOrigin
use tonic_transport_native.UserAgent.Middleware as UserAgent
use tonic_transport_native.UserAgent.Middleware.{tonic_user_agent}
use tonic_transport_native.Tests.Fixtures.{headers, uris, field}
use tonic_transport_native.Tests.Connecting.{Base, Conn, crates, dialers, Builder, at}

abbrev builder : Builder
builder = at (some (codes "a"))

-- What is made at once, over the caller's connector 7, for the host of the URI.
abbrev way : Way ℕ
way = eagerly_with 7

abbrev base : Base
base =
    limited uris headers crates.hyper crates.hyper_connect crates.rate crates.concurrency
      (dialer uris headers crates dialers builder way (codes "a")) builder false

abbrev conn : Conn
conn = record {
  inner =
      AddOrigin.new uris
        (record { inner = GrpcTimeout.new base none; user_agent = field tonic_user_agent refl })
        builder.uri;
}

abbrev channel : Channel (Svc Conn (Unit {0}) × ℕ)
channel = record { svc = (direct conn, 1024) }

made : connects uris headers crates dialers builder way ≡ done (ok channel)
unfolding connect_with_connector tls_connector with_defaults Channel.connect Connection.connect
    Connection.new stack UserAgent.new UserAgent.header_value
    tonic_transport_native.Connector.Handshake.connector
made = refl

connects_iff_example :
    (connects uris headers crates dialers builder way ≡ done (ok channel))
    ↔ IsVerified uris headers crates dialers builder way channel
connects_iff_example = connects_iff uris headers crates dialers builder way channel
