-- ===== src/Tests/Deadline.antt =====
-- Tests of Server/Deadline.antt.
use tonic_transport_native.Common.{ℕ, refl, Option, none, some, List, [], ◌∷◌, arith}
use tonic_transport_native.Runtime.{Result, ok, Poll, pending, ready, Future, Service, now, later}
use tonic_transport_native.Error.{BoxError, Error, foreign}
use tonic_transport_native.Duration.{Duration, from_secs}
use tonic_transport_native.GrpcTimeout.Middleware.{GrpcTimeout}
use tonic_transport_native.GrpcTimeout.Header.{try_parse_grpc_timeout_accepts}
use tonic_transport_native.GrpcTimeout.Deadline.{Carries}
use tonic_transport_native.RecoverError.Status.{Code}
use tonic_transport_native.RecoverError.Body.{MaybeEmptyBody}
use tonic_transport_native.RecoverError.Middleware.{Response}
use tonic_transport_native.Server.Info.{der, TlsConnectInfo}
use tonic_transport_native.Server.Make.{Requests, MakeSvc}
use tonic_transport_native.GrpcTimeout.Timer.{TimerLaws}
use tonic_transport_native.Tests.Timeout.{three_hours, hours}
use tonic_transport_native.Tests.Fixtures.{FieldMap, headers, text_laws, script, echo}

abbrev pub Answer : Type 0
Answer = Result (Response (Option Code) ℕ) ℕ

abbrev pub Timer : Type 0
Timer = List (Poll (Unit {0}))

abbrev pub timer : Future Timer (Unit {0})
timer = script

-- Time passes quickly: every timer is ready at its second poll.
abbrev pub sleep : Duration → Timer
sleep d = pending ∷ ready tt ∷ []

abbrev pub timers : TimerLaws timer sleep
timers = record {
  fires = λ n. 1;
  fires_later = λ a b less. omega arith;
  sleeps = λ d. later _ refl (now _ refl);
}

abbrev pub slow : List (Poll Answer)
slow = pending ∷ pending ∷ []

abbrev pub svc : Service (List FieldMap) FieldMap (List (Poll Answer)) ℕ
svc = echo {R = FieldMap} {A = Answer} {E = ℕ} slow

-- A request is its headers.
abbrev pub reqs : Requests FieldMap ℕ ℕ ℕ
reqs = record { intercept = λ f r. f; no_span = 0; insert_tls = λ r i. r; insert_inner = λ r i. r }

abbrev pub boxed : ℕ → BoxError ℕ
boxed e = foreign e

abbrev pub box : MaybeEmptyBody ℕ → MaybeEmptyBody ℕ
box b = b

abbrev pub maker : MakeSvc (List FieldMap) ℕ
maker = record {
  concurrency_limit = none;
  timeout = some (record { secs = 20000; nanos = 0 });
  inner = [];
  trace_interceptor = none;
}

abbrev pub unlimited : Option ℕ → GrpcTimeout (List FieldMap) → GrpcTimeout (List FieldMap)
unlimited limit s = s

abbrev pub known : TlsConnectInfo ℕ
known = record { inner = 1; cert = some (der (7 ∷ [])) }

abbrev pub told : ℕ → Result (TlsConnectInfo ℕ) (Error ℕ)
told io = ok known

pub carried : Carries headers three_hours (from_secs 10800)
carried =
    let (val, present, text, read, encoded) =
      (try_parse_grpc_timeout_accepts headers text_laws three_hours (from_secs 10800)).0 hours in
    record { val = val; present = present; text = text; read = read; encoded = encoded }
