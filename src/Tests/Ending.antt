-- ===== src/Tests/Ending.antt =====
-- Tests of Server/Outcome.antt and Server/Bound.antt.
use tonic_transport_native.Common.{
  ℕ, false, ◌==◌, refl, if◌then◌else◌, Option, none, some, List, [], ◌∷◌,
}
use tonic_transport_native.Runtime.{
  Result, ok, err, Poll, pending, ready, Future, Resolves, now, later, idle, still,
}
use tonic_transport_native.Error.{BoxError, foreign, timeout_expired}
use tonic_transport_native.RecoverError.Status.{Code}
use tonic_transport_native.RecoverError.Body.{MaybeEmptyBody}
use tonic_transport_native.RecoverError.Middleware.{Response}
use tonic_transport_native.Incoming.Tcp.{AddrIncoming, TcpIncoming}
use tonic_transport_native.Router.Routes.{Routes, Router}
use tonic_transport_native.Server.Builder.{Server, builder}
use tonic_transport_native.Server.Serve.{Accepting, serve, router_serve_with_shutdown}
use tonic_transport_native.Server.Make.{MakeSvc}
use tonic_transport_native.Server.Configured.{Config, holding}
use tonic_transport_native.Server.Bound.{Served, serve-Served}
use tonic_transport_native.Server.Told.{served, serving}
use tonic_transport_native.GrpcTimeout.Ends.{Ends, out_of_time}
use tonic_transport_native.Server.Outcome.{Told, request-Told}
use tonic_transport_native.Tests.Recovering.{statuses, statuses_lawful}
use tonic_transport_native.Tests.Fixtures.{script}

abbrev Answer : Type 0
Answer = Result (Response (Option Code) ℕ) ℕ

abbrev answers : Future (List (Poll Answer)) Answer
answers = script

abbrev timer : Future (List (Poll (Unit {0}))) (Unit {0})
timer = script

abbrev ticks : List (Poll (Unit {0}))
ticks = pending ∷ ready tt ∷ []

abbrev boxed : ℕ → BoxError ℕ
boxed e = foreign e

abbrev box : MaybeEmptyBody ℕ → MaybeEmptyBody ℕ
box b = b

abbrev slow : List (Poll Answer)
slow = pending ∷ pending ∷ []

expired-Ends : Ends answers timer boxed slow (some ticks) 1 (err timeout_expired)
expired-Ends =
    out_of_time ticks 1 (still _ refl (still _ refl (idle _))) (later _ refl (now _ refl))

request-Told_example :
    (o : Result (Response (Option Code) (MaybeEmptyBody ℕ)) (BoxError ℕ)) × Resolves
      (served {Sp = ℕ} statuses none answers timer boxed box)
      (serving {Sp = ℕ} statuses none answers timer boxed box slow (some ticks) 8)
      1
      o
    × Told statuses none box (λ s. s) (λ m. m) (err timeout_expired) o
request-Told_example =
    request-Told statuses none answers timer boxed box (λ s. s) (λ m. m) statuses_lawful slow
      (some ticks) 8 1 (err timeout_expired) expired-Ends

-- Addresses and sockets are numbers; nothing can be bound to 0.
abbrev pub tcp : AddrIncoming ℕ ℕ ℕ ℕ
tcp = record {
  bind = λ addr. if addr == 0 then err 98 else ok addr;
  set_nodelay = λ i on. i;
  set_keepalive = λ i d. i;
  poll_accept = λ i. (pending, i);
}

abbrev pub fresh : Accepting (TcpIncoming ℕ) ℕ → Config (TcpIncoming ℕ) ℕ
fresh a = record {
  accepting = a;
  only_http2 = false;
  connection_window = none;
  stream_window = none;
  streams = none;
  keep_alive_interval = none;
  keep_alive_timeout = record { secs = 0; nanos = 0 };
  adaptive_window = false;
  frame_size = none;
}

-- hyper's server is its socket and its signal; it fails on socket 1.
abbrev pub start : Config (TcpIncoming ℕ) ℕ → MakeSvc ℕ ℕ → ℕ × Option ℕ
start b m = (b.accepting.incoming.inner, none)

abbrev pub until : ℕ × Option ℕ → ℕ → ℕ × Option ℕ
until r signal = (r.0, some signal)

abbrev pub awaited : ℕ × Option ℕ → Result (Unit {0}) ℕ
awaited r = if r.0 == 1 then err 7 else ok tt

abbrev pub service : List ℕ → Routes ℕ → ℕ
service l r = r.router

abbrev router : Router (Server ℕ ℕ (List ℕ)) ℕ
router = record { server = builder 3 []; routes = record { router = 4 } }

serve-Served_example :
    Served tcp fresh start until awaited service
      (λ a. refl)
      router
      1
      none
      (serve tcp (holding fresh start until awaited service) router 1)
    × Served tcp fresh start until awaited service
        (λ a. refl)
        router
        1
        (some 5)
        (router_serve_with_shutdown tcp (holding fresh start until awaited service) router 1 5)
serve-Served_example = serve-Served tcp fresh start until awaited service (λ a. refl) router 1 5
