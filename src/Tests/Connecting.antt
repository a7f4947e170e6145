-- ===== src/Tests/Connecting.antt =====
-- Tests of the modules below Channel, Connector and Discovery that connect.
use tonic_transport_native.Common.{
  ℕ, Bool, ◌+◌, ◌≡◌, ◌↔◌, refl, inr, Option, none, some, List, [], ◌∷◌, Bytes, codes,
}
use tonic_transport_native.Runtime.{Result, ok, panic, Poll, ready}
use tonic_transport_native.Error.{foreign}
use tonic_transport_native.Duration.{Duration}
use tonic_transport_native.Channel.Builder.{ChannelBuilder, with_defaults}
use tonic_transport_native.Channel.Setters.{connect_timeout}
use tonic_transport_native.Channel.Core.{Crates, Svc}
use tonic_transport_native.Channel.Connect.{Dialers, Dialer}
use tonic_transport_native.Connection.Stack.{Connection}
use tonic_transport_native.Connection.Settings.{HyperBuilder}
use tonic_transport_native.Connector.Handshake.{NativeTls, Connector}
use tonic_transport_native.Connector.Handshake as Connector
use tonic_transport_native.Connector.Negotiated.{Negotiated, call-Negotiated}
use tonic_transport_native.Reconnect.Machine.{Reconnect}
use tonic_transport_native.Discovery.Changes.{Change, insert, remove, poll_next}
use tonic_transport_native.Discovery.Balanced.{poll_next_hostless}
use tonic_transport_native.Channel.Listed.{messages, last_at, list-Serves}
use tonic_transport_native.Discovery.Followed.{
  held_at, Receives, no_more, message, Streams, AllSelect, Serves, stream_follows,
}
use tonic_transport_native.Tests.Fixtures.{FieldValue, headers, value_laws, Uri, uris}

-- The calls that are made on hyper's builder are counted.
abbrev hyper : HyperBuilder ℕ
hyper = record {
  new = 0;
  http2_initial_stream_window_size = λ b x. b + 1;
  http2_initial_connection_window_size = λ b x. b + 1;
  http2_only = λ b x. b + 1;
  http2_keep_alive_interval = λ b x. b + 1;
  http2_keep_alive_timeout = λ b x. b + 1;
  http2_keep_alive_while_idle = λ b x. b + 1;
  http2_adaptive_window = λ b x. b + 1;
}

abbrev pub Dial : Type 0
Dial = Dialer (Unit {0}) ℕ (Option Duration)

abbrev pub Base : Type 0
Base = Reconnect (Dial × ℕ) Uri (Unit {0}) (Unit {0}) ℕ

abbrev pub Conn : Type 0
Conn = Connection Base FieldValue Bytes Bytes

-- A buffer is its service and its size; the limits of tower are left out.
abbrev pub crates :
    Crates Uri Bytes Bytes FieldValue Dial
      (Dial × ℕ)
      ℕ
      (Unit {0})
      (Unit {0})
      Base
      Base
      (Unit {0})
      (Unit {0})
      (Svc Conn (Unit {0}) × ℕ)
      ℕ
crates = record {
  pair = λ svc size. (svc, size);
  balance = λ d. d;
  ready_oneshot = λ c. ok c;
  hyper = hyper;
  hyper_connect = λ dial b. (dial, b);
  rate = λ limit c. c;
  concurrency = λ limit c. c;
}

abbrev pub dialers : Dialers (Unit {0}) ℕ (Option Duration)
dialers = record {
  http_new = 80;
  enforce_http = λ k b. k;
  set_nodelay = λ k b. k + 1;
  set_keepalive = λ k d. k;
  timeout_new = λ c. none;
  set_connect_timeout = λ t d. d;
}

abbrev pub Builder : Type 0
Builder = ChannelBuilder Uri (Unit {0}) FieldValue

abbrev pub at : Option Bytes → Builder
at authority =
    with_defaults
      (record { scheme = some (codes "https"); authority = authority; path_and_query = none }) tt

abbrev second : Duration
second = record { secs = 1; nanos = 0 }

abbrev Rx : Type 0
Rx = List (Change ℕ Builder)

abbrev poll_recv : Rx → Poll (Option (Change ℕ Builder)) × Rx
poll_recv [] = (ready none, [])
poll_recv (c ∷ cs) = (ready (some c), cs)

poll_next_hostless_example :
    poll_next uris headers crates dialers poll_recv (record { changes = insert 1 (at none) ∷ [] })
    ≡ panic
unfolding with_defaults
poll_next_hostless_example =
    poll_next_hostless uris headers crates dialers poll_recv
      (record { changes = insert 1 (at none) ∷ [] }) 1 (at none) refl refl refl

-- A TLS stream is the protocol that it agrees on.
abbrev native : NativeTls ℕ ℕ (Option Bytes) ℕ
native = record { connect = λ c domain io. ok (some (codes "h2")); negotiated_alpn = λ tls. ok tls }

abbrev client : Connector (Unit {0}) ℕ
client = record { inner = tt; tls = record { connector = 3; domain = codes "example.com" } }

abbrev make : Unit {0} → ℕ → Result ℕ ℕ × Unit {0}
make s uri = (ok uri, s)

call-Negotiated_example :
    ((Connector.call native (λ e. foreign e) make client 5).0
      ≡ ok (record { stream = record { stream = some (codes "h2") } }))
    ↔ Negotiated native (λ e. foreign e) make client 5 (some (codes "h2"))
call-Negotiated_example = call-Negotiated native (λ e. foreign e) make client 5 (some (codes "h2"))

-- The service of key 1 is inserted and removed, and that of key 2 inserted.
abbrev sent : Rx
sent = insert 1 (at (some (codes "a"))) ∷ remove 1 ∷ insert 2 (at (some (codes "b"))) ∷ []

sent-Receives : Receives poll_recv sent sent []
sent-Receives = message _ _ _ refl (message _ _ _ refl (message _ _ _ refl (no_more [])))

sent-AllSelect : AllSelect uris sent
unfolding with_defaults
sent-AllSelect = ((codes "a", inr (refl, refl)), ((codes "b", inr (refl, refl)), tt))

stream_follows_example :
    (ds : List (Change ℕ Conn)) × Streams uris headers crates dialers poll_recv
      (record { changes = sent })
      ds
      (record { changes = [] })
    × ((eq : ℕ → ℕ → Bool) (k : ℕ)
        → Serves uris headers crates dialers (held_at eq k sent none) (held_at eq k ds none))
stream_follows_example =
    stream_follows uris headers crates dialers poll_recv value_laws sent [] sent sent-AllSelect
      sent-Receives

-- Two builders with the same URI, and one with another.
abbrev same_twice : List (ℕ × Builder)
same_twice =
    (0, at (some (codes "a")))
    ∷ (0, at (some (codes "b")))
    ∷ (1, connect_timeout (at (some (codes "a"))) second)
    ∷ []

abbrev uri_recv :
    List (Change Uri Builder) → Poll (Option (Change Uri Builder)) × List (Change Uri Builder)
uri_recv [] = (ready none, [])
uri_recv (c ∷ cs) = (ready (some c), cs)

same_twice-Receives : Receives uri_recv (messages same_twice) (messages same_twice) []
same_twice-Receives = message _ _ _ refl (message _ _ _ refl (message _ _ _ refl (no_more [])))

same_twice-AllSelect : AllSelect uris (messages same_twice)
unfolding with_defaults connect_timeout
same_twice-AllSelect = (
  (codes "a", inr (refl, refl)),
  ((codes "b", inr (refl, refl)), ((codes "a", inr (refl, refl)), tt)),
)

list-Serves_example :
    (ds : List (Change Uri Conn)) × Streams uris headers crates dialers uri_recv
      (record { changes = messages same_twice })
      ds
      (record { changes = [] })
    × ((eq : Uri → Uri → Bool) (uri : Uri)
        → Serves uris headers crates dialers
            (last_at eq uri same_twice none)
            (held_at eq uri ds none))
list-Serves_example =
    list-Serves uris headers crates dialers uri_recv value_laws (messages same_twice) [] same_twice
      same_twice-AllSelect same_twice-Receives
