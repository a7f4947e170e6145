-- ===== src/Tests/Sending.antt =====
-- Tests of the modules below Connection.
use tonic_transport_native.Common.{
  ℕ, ◌≡◌, refl, Option, none, some, List, [], ◌∷◌, Bytes, codes, arith,
}
use tonic_transport_native.Runtime.{
  Result, ok, done, Poll, pending, ready, Future, Service, now, later, idle, still,
}
use tonic_transport_native.Error.{BoxError, foreign}
use tonic_transport_native.Duration.{Duration}
use tonic_transport_native.Http.{Request}
use tonic_transport_native.Channel.Builder.{ChannelBuilder, with_defaults}
use tonic_transport_native.Connection.Stack.{Connection, stack}
use tonic_transport_native.Channel.Setters.{timeout}
use tonic_transport_native.GrpcTimeout.Timer.{TimerLaws}
use tonic_transport_native.Connection.Deadline.{Expired, deadline_kept}
use tonic_transport_native.Connection.Sent.{Sent, call-Sent}
use tonic_transport_native.Tests.Fixtures.{
  FieldValue, FieldMap, headers, text_laws, map_laws, value_laws, field, Uri, uris, uri_laws, echo,
  script,
}

abbrev pub Req : Type 0
Req = Request Uri FieldMap (Unit {0}) (Unit {0})

abbrev pub answers : List (Poll (Result ℕ ℕ))
answers = ready (ok 1) ∷ []

abbrev pub client_svc : Service (List Req) Req (List (Poll (Result ℕ ℕ))) ℕ
client_svc = echo {R = Req} {A = Result ℕ ℕ} {E = ℕ} answers

abbrev pub client_boxed : ℕ → BoxError ℕ
client_boxed e = foreign e

abbrev pub detail : Option Bytes → Option Bytes → Bytes
detail authority scheme = []

abbrev pub minute : Duration → Duration
minute d = d

abbrev pub endpoint : ChannelBuilder Uri (Unit {0}) FieldValue
endpoint =
    with_defaults
      (record {
        scheme = some (codes "https");
        authority = some (codes "example.com");
        path_and_query = none;
      })
      tt

abbrev hello : Req
hello = record {
  uri = record { scheme = none; authority = none; path_and_query = some (codes "/hello") };
  headers = (codes "grpc-timeout", field (codes "5S") refl) ∷ [];
  rest = tt;
  body = tt;
}

call-Sent_example :
    (conn : Connection (List Req) FieldValue Bytes Bytes) × (stack uris headers endpoint []
      ≡ done conn)
    × Sent uris headers minute detail client_svc client_boxed endpoint []
        (λ r. (answers, r ∷ []))
        conn
        hello
unfolding with_defaults
call-Sent_example =
    call-Sent uris headers minute detail client_svc client_boxed text_laws map_laws value_laws
      uri_laws endpoint [] (λ r. (answers, r ∷ [])) hello (codes "https") (codes "example.com")
      (codes "/hello") refl refl refl tt (λ r. refl)

-- Every timer is ready at its second poll.
abbrev pub Timer : Type 0
Timer = List (Poll (Unit {0}))

abbrev pub timer : Future Timer (Unit {0})
timer = script

abbrev pub sleep : Duration → Timer
sleep d = pending ∷ ready tt ∷ []

abbrev pub timers : TimerLaws timer sleep
timers = record {
  fires = λ n. 1;
  fires_later = λ a b less. omega arith;
  sleeps = λ d. later _ refl (now _ refl);
}

abbrev five_seconds : Duration
five_seconds = record { secs = 5; nanos = 0 }

abbrev slow : List (Poll (Result ℕ ℕ))
slow = pending ∷ pending ∷ []

deadline_kept_example :
    Expired uris headers sleep timer timers detail
      (echo {R = Req} {A = Result ℕ ℕ} {E = ℕ} slow)
      (script {A = Result ℕ ℕ})
      client_boxed
      (timeout endpoint five_seconds)
      []
      hello
      five_seconds
unfolding with_defaults timeout
deadline_kept_example =
    deadline_kept uris headers sleep timer timers detail
      (echo {R = Req} {A = Result ℕ ℕ} {E = ℕ} slow) (script {A = Result ℕ ℕ}) client_boxed
      text_laws map_laws value_laws uri_laws (timeout endpoint five_seconds) []
      (λ r. (slow, r ∷ [])) hello (codes "https") (codes "example.com") (codes "/hello")
      five_seconds refl refl refl refl (omega arith) (λ r. refl)
      (λ r. still _ refl (still _ refl (idle _)))
