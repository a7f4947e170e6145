-- ===== src/Tests/Usable.antt =====
-- Tests of Connection/Reached.antt.
use tonic_transport_native.Common.{
  ℕ, inl, inr, ◌⊎◌, ◌-◌, ltb, if◌then◌else◌, ◌∙◌, Bool, ◌≡◌, refl, Option, none, some, true, false,
  List, [], ◌∷◌, Bytes, codes, arith,
}
use tonic_transport_native.Runtime.{
  Result, ok, Exec, done, panic, out_of_fuel, ◌>>=◌, Poll, pending, ready, Service,
}
use tonic_transport_native.Error.{BoxError, foreign}
use tonic_transport_native.Duration.{Duration}
use tonic_transport_native.Http.{Request}
use tonic_transport_native.GrpcTimeout.Middleware as GrpcTimeout
use tonic_transport_native.AddOrigin.Middleware as AddOrigin
use tonic_transport_native.UserAgent.Middleware as UserAgent
use tonic_transport_native.UserAgent.Middleware.{tonic_user_agent}
use tonic_transport_native.Reconnect.Machine.{
  State, idle, connected, Reconnect, Inner, turn, turn_at, on_maker, on_connecting, on_connected,
  loop,
}
use tonic_transport_native.Reconnect.Machine as Reconnect
use tonic_transport_native.Connection.Stack.{Connection, stack, agent, timed, poll_ready, call}
use tonic_transport_native.Connection.Usable.{LimitLaws, IsUsable}
use tonic_transport_native.Connection.Reached.{begun, polled, Reached-call}
use tonic_transport_native.Channel.Builder.{ChannelBuilder, with_defaults}
use tonic_transport_native.Tests.Fixtures.{
  FieldValue, FieldMap, headers, text_laws, value_laws, field, Uri, uris, uri_laws, script,
}

abbrev Req : Type 0
Req = Request Uri FieldMap (Unit {0}) (Unit {0})

abbrev Dial : Type 0
Dial = List (Poll (Result ℕ ℕ))

abbrev maker : Service Dial (Unit {0}) Dial ℕ
maker = record { poll_ready = λ m. done (ready (ok tt), m); call = λ m t. done (m, m) }

abbrev takes : ℕ → Req → Dial × ℕ
takes s r = (ready (ok s) ∷ [], s)

abbrev wire : Service ℕ Req Dial ℕ
wire = record { poll_ready = λ s. done (ready (ok tt), s); call = λ s r. done (takes s r) }

abbrev boxed : ℕ → BoxError ℕ
boxed e = foreign e

abbrev detail : Option Bytes → Option Bytes → Bytes
detail authority scheme = []

abbrev second : Duration → Duration
second d = d

-- A limit on the requests under way: `poll_ready` takes a permit, which `call` uses up.
record Limited (S : Type 0) : Type 0 where
  permits : ℕ
  holds : Bool
  inner : S

abbrev acquire : {S : Type 0} → Limited S → Option (Limited S)
acquire l =
    if l.holds
    then some l
    else if ltb 0 l.permits
    then some (record l { permits = l.permits - 1; holds = true })
    else none

acquire_inner :
    {S : Type 0} (l l' : Limited S) → acquire l ≡ some l' → (l'.inner ≡ l.inner) × (l'.holds ≡ true)
acquire_inner l l' h = ground arith

module _ {S R F E : Type 0} (svc : Service S R F E) where
  abbrev polled_with :
      Option (Limited S) → Limited S → Exec (Poll (Result (Unit {0}) E) × Limited S)
  polled_with none l = done (pending, l)
  polled_with (some l') l = do
    answer ← svc.poll_ready l'.inner
    done (answer.0, record l' { inner = answer.1 })

  abbrev limits_call : Limited S → R → Exec (F × Limited S)
  limits_call l req =
      if l.holds
      then (do
        answer ← svc.call l.inner req
        done (answer.0, record l { holds = false; inner = answer.1 }))
      else panic

  abbrev limits : Service (Limited S) R F E
  limits = record { poll_ready = λ l. polled_with (acquire l) l; call = limits_call }

  bound_ready :
      (m : Exec (Poll (Result (Unit {0}) E) × S)) (l l' : Limited S)
      → ◌>>=◌ {B = Poll (Result (Unit {0}) E) × Limited S} m
          (λ answer. done (answer.0, record l { inner = answer.1 }))
        ≡ done (ready (ok tt), l')
      → (m ≡ done (ready (ok tt), l'.inner)) × (l'.holds ≡ l.holds)
  bound_ready (done (p, s)) l l' h = (cc, cc)
  bound_ready panic l l' h = cc
  bound_ready out_of_fuel l l' h = cc

  polled_ready :
      (o : Option (Limited S)) (l l' : Limited S)
      → acquire l ≡ o
      → polled_with o l ≡ done (ready (ok tt), l')
      → (svc.poll_ready l.inner ≡ done (ready (ok tt), l'.inner)) × (l'.holds ≡ true)
  polled_ready none l l' got h = cc
  polled_ready (some l₁) l l' got h =
      let (same, held) = acquire_inner l l₁ got in
      let (through, holds) = bound_ready (svc.poll_ready l₁.inner) l₁ l' h in
      (rw same at through, holds ∙ held)

  bound_kept :
      (m : Exec (Poll (Result (Unit {0}) E) × S)) (l l' : Limited S)
      (p : Poll (Result (Unit {0}) E))
      → ◌>>=◌ {B = Poll (Result (Unit {0}) E) × Limited S} m
          (λ answer. done (answer.0, record l { inner = answer.1 }))
        ≡ done (p, l')
      → m ≡ done (p, l'.inner)
  bound_kept (done (q, s)) l l' p h = cc
  bound_kept panic l l' p h = cc
  bound_kept out_of_fuel l l' p h = cc

  polled_kept :
      (o : Option (Limited S)) (l l' : Limited S) (p : Poll (Result (Unit {0}) E))
      → acquire l ≡ o
      → polled_with o l ≡ done (p, l')
      → (l'.inner ≡ l.inner)
        ⊎ ((q : Poll (Result (Unit {0}) E)) × (svc.poll_ready l.inner ≡ done (q, l'.inner)))
  polled_kept none l l' p got h = inl cc
  polled_kept (some l₁) l l' p got h =
      let (same, held) = acquire_inner l l₁ got in
      let through = bound_kept (svc.poll_ready l₁.inner) l₁ l' p h in inr (p, rw same at through)

  limits_lawful : LimitLaws limits svc (λ l. l.inner)
  limits_lawful = record {
    poll_ready-through = λ l l' h. (polled_ready (acquire l) l l' refl h).0;
    poll_ready-kept = λ l l' p h. polled_kept (acquire l) l l' p refl h;
    call-through = λ l l' req f s h called.
        let (_, holds) = polled_ready (acquire l) l l' refl h in
        (f, record l' { holds = false; inner = s }, rw holds (rw called refl), refl);
  }

abbrev Client : Type 0
Client = Reconnect Dial (Unit {0}) Dial ℕ ℕ

abbrev inside : Limited Client → Client
inside l = l.inner

abbrev Conn : Type 0
Conn = Connection (Limited Client) FieldValue Bytes Bytes

abbrev with_state : ℕ → Bool → Bool → State Dial ℕ → Conn
with_state permits holds known state = record {
  inner = record {
    inner = record {
      inner = record {
        inner = record {
          permits = permits;
          holds = holds;
          inner = record {
            mk_service = ready (ok 9) ∷ [];
            state = state;
            target = tt;
            error = none;
            has_been_connected = known;
            is_lazy = false;
          };
        };
        server_timeout = none;
      };
      user_agent = field tonic_user_agent refl;
    };
    scheme = some (codes "https");
    authority = some (codes "example.com");
  };
}

abbrev client : Service Client Req (Inner Dial ℕ) (BoxError ℕ)
client = Reconnect.service maker script wire boxed 4

-- The permit is taken, and the connection, which was lost, is made again.
is_ready :
    poll_ready headers second (limits client) (λ e. e) uris detail (with_state 1 false false idle)
    ≡ done (ready (ok tt), with_state 0 true true (connected 9))
unfolding poll_ready agent timed AddOrigin.poll_ready UserAgent.service UserAgent.poll_ready
    GrpcTimeout.service GrpcTimeout.poll_ready Reconnect.service Reconnect.poll_ready loop turn
    turn_at on_maker on_connecting on_connected
is_ready = refl

abbrev hello : Req
hello = record {
  uri = record { scheme = none; authority = none; path_and_query = some (codes "/hello") };
  headers = (codes "grpc-timeout", field (codes "5S") refl) ∷ [];
  rest = tt;
  body = tt;
}

abbrev endpoint : ChannelBuilder Uri (Unit {0}) FieldValue
endpoint =
    with_defaults
      (record {
        scheme = some (codes "https");
        authority = some (codes "example.com");
        path_and_query = none;
      })
      tt

abbrev below_new : Limited Client
below_new = record {
  permits = 1;
  holds = false;
  inner = Reconnect.new (ready (ok 9) ∷ []) tt false;
}

built : stack uris headers endpoint below_new ≡ done (with_state 1 false false idle)
unfolding stack with_defaults Reconnect.new UserAgent.new UserAgent.header_value AddOrigin.new
    GrpcTimeout.new
built = refl

-- It stays ready until it is called.
still_ready :
    poll_ready headers second
      (limits client)
      (λ e. e)
      uris
      detail
      (with_state 0 true true (connected 9))
    ≡ done (ready (ok tt), with_state 0 true true (connected 9))
unfolding poll_ready agent timed AddOrigin.poll_ready UserAgent.service UserAgent.poll_ready
    GrpcTimeout.service GrpcTimeout.poll_ready Reconnect.service Reconnect.poll_ready loop turn
    turn_at on_maker on_connecting on_connected
still_ready = refl

Reached-call_example :
    (f : AddOrigin.BoxFuture (GrpcTimeout.ResponseFuture (Inner Dial ℕ) Duration) ℕ) × (c : Conn)
    × (call headers second
          (limits client)
          (λ e. e)
          uris
          detail
          (with_state 0 true true (connected 9))
          hello
        ≡ done (f, c))
    × IsUsable inside c
unfolding with_defaults
Reached-call_example =
    Reached-call uris headers second detail maker script wire boxed 4 (limits client) inside
      (limits_lawful client) takes (λ s r. refl) text_laws uri_laws value_laws endpoint below_new
      (ready (ok 9) ∷ []) tt false (codes "https") (codes "example.com")
      (with_state 1 false false idle) (with_state 0 true true (connected 9))
      (with_state 0 true true (connected 9)) hello (codes "/hello") refl refl refl built
      (polled (ready (ok tt)) begun is_ready) still_ready refl
