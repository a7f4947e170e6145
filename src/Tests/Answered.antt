-- ===== src/Tests/Answered.antt =====
-- Tests of Server/Answered.antt.
use tonic_transport_native.Common.{
  ℕ, ◌+◌, ◌≡◌, refl, sym, ap, subst, Option, none, some, List, [], ◌∷◌, codes, arith,
}
use tonic_transport_native.Runtime.{
  Result, ok, Exec, done, panic, out_of_fuel, Poll, pending, ready, Resolves, now, later, Future,
  Service,
}
use tonic_transport_native.Error.{BoxError}
use tonic_transport_native.GrpcTimeout.Leaves.{Leaves}
use tonic_transport_native.GrpcTimeout.Middleware.{GrpcTimeout}
use tonic_transport_native.RecoverError.Status.{Code}
use tonic_transport_native.RecoverError.Body.{MaybeEmptyBody}
use tonic_transport_native.RecoverError.Middleware.{Response}
use tonic_transport_native.Channel.Builder.{with_defaults}
use tonic_transport_native.Server.Make.{with_info, ConnSvc, layers, make_call, conn_call}
use tonic_transport_native.Server.Replied.{Replying, replying, below}
use tonic_transport_native.Server.Answered.{Answered, Brings, request-Answered}
use tonic_transport_native.Server.Told.{serving}
use tonic_transport_native.Tests.Recovering.{statuses, statuses_lawful}
use tonic_transport_native.Tests.Timeout.{three_hours}
use tonic_transport_native.Tests.Fixtures.{
  FieldMap, headers, text_laws, map_laws, value_laws, uris, uri_laws, script, echo,
}
use tonic_transport_native.Tests.Sending.{Req, detail, endpoint}
use tonic_transport_native.Tests.Sending as Client
use tonic_transport_native.Tests.Deadline.{
  Answer, timer, sleep, timers, reqs, boxed, box, maker, unlimited, known, told,
}

abbrev response : Response (Option Code) ℕ
response = record { status = 200; headers = none; body = 3 }

-- The services answer at the second poll.
abbrev quick : List (Poll Answer)
quick = pending ∷ ready (ok response) ∷ []

abbrev svc : Service (List FieldMap) FieldMap (List (Poll Answer)) ℕ
svc = echo {R = FieldMap} {A = Answer} {E = ℕ} quick

abbrev Conn : Type 0
Conn = ConnSvc (GrpcTimeout (List FieldMap)) ℕ ℕ

abbrev Fut : Type 0
Fut =
    Replying headers text_laws (λ r. r) sleep timer timers statuses none (script {A = Answer}) svc
      boxed box unlimited told reqs (λ s. s) (λ m. m)

abbrev conn : Conn
conn = record { conn_info = known; svc = layers unlimited maker }

abbrev future_of : Exec (Fut × Conn) → Fut
future_of (done (f, c)) = f
future_of panic = serving statuses none (script {A = Answer}) timer boxed box quick none 0
future_of out_of_fuel = serving statuses none (script {A = Answer}) timer boxed box quick none 0

abbrev called : FieldMap → Exec (Fut × Conn)
called r =
    conn_call
      (below headers text_laws (λ r. r) sleep timer timers statuses none (script {A = Answer}) svc
        boxed box unlimited told reqs (λ s. s) (λ m. m))
      (λ e. e) reqs conn r

-- The client polls the server's own future.
abbrev answer : Req → Fut × List Req
answer r = (future_of (called r.headers), r ∷ [])

abbrev wire : Service (List Req) Req Fut (BoxError ℕ)
wire = record { poll_ready = λ s. done (ready (ok tt), s); call = λ s r. done (answer r) }

abbrev Reply : Type 0
Reply = Result (Response (Option Code) (MaybeEmptyBody ℕ)) (BoxError ℕ)

abbrev carry : Reply → Reply
carry o = o

abbrev wired : Future Fut Reply
wired =
    replying headers text_laws (λ r. r) sleep timer timers statuses none (script {A = Answer}) svc
      boxed box unlimited told reqs (λ s. s) (λ m. m)

made : make_call unlimited told maker 9 ≡ ok conn
unfolding make_call
made = refl

brings :
    Brings uris headers text_laws Client.sleep Client.timer Client.timers detail wire wired
      (λ e. e)
      (λ r. r)
      sleep
      timer
      timers
      statuses
      none
      (script {A = Answer})
      svc
      boxed
      box
      unlimited
      told
      reqs
      (λ s. s)
      (λ m. m)
      endpoint
      []
      answer
      (λ r. r.headers)
      0
      carry
      maker
      9
brings req k r p =
    let same : p.conn ≡ conn = cc (p.made, made) in
    let found : called req.headers ≡ done (p.future, p.after) = rw same at (p.called) in
    let future : future_of (called req.headers) ≡ p.future = ap future_of found in
    let polls : k ≡ k + 0 = omega arith in
    subst (λ f. Resolves wired f (k + 0) p.reply) (sym future)
      (subst (λ j. Resolves wired p.future j p.reply) polls p.replied)

abbrev patient : Req
patient = record {
  uri = record { scheme = none; authority = none; path_and_query = some (codes "/hello") };
  headers = three_hours;
  rest = tt;
  body = tt;
}

leaves : Leaves headers timer sleep timers three_hours maker.timeout 1
leaves = record { by_headers = λ d c. omega arith; by_timeout = λ d e. omega arith }

client-Leaves :
    Leaves headers Client.timer Client.sleep Client.timers three_hours endpoint.timeout 1
client-Leaves = record { by_headers = λ d c. omega arith; by_timeout = λ d e. omega arith }

request-Answered_example :
    Answered uris headers text_laws Client.sleep Client.timer Client.timers detail wire wired
      (λ e. e)
      (λ r. r)
      sleep
      timer
      timers
      statuses
      none
      (script {A = Answer})
      svc
      boxed
      box
      unlimited
      told
      reqs
      (λ s. s)
      (λ m. m)
      endpoint
      []
      answer
      (λ r. r.headers)
      0
      carry
      maker
      9
      patient
      1
      (λ r. ok response)
unfolding with_info with_defaults
request-Answered_example =
    request-Answered uris headers text_laws Client.sleep Client.timer Client.timers detail wire
      wired (λ e. e) (λ r. r) sleep timer timers statuses none (script {A = Answer}) svc boxed box
      unlimited told reqs (λ s. s) (λ m. m) endpoint [] answer (λ r. r.headers) 0 carry maker 9
      map_laws value_laws uri_laws statuses_lawful known patient (codes "https")
      (codes "example.com") (codes "/hello") (λ r. quick) (λ r. r ∷ []) (λ r. ok response) 1 refl
      refl refl tt (λ r. refl) (λ r. refl) brings refl (λ t. refl) (omega arith) refl (λ r. refl)
      (λ r. later _ refl (now _ refl)) leaves client-Leaves
