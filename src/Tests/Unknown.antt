-- ===== src/Tests/Unknown.antt =====
-- Tests of Server/Unknown.antt.
use tonic_transport_native.Common.{
  ℕ, ◌≡◌, ◌≢◌, refl, Option, none, some, List, [], ◌∷◌, Bytes, codes, eq_bytes, eq_bytes_refl,
  if◌then◌else◌,
}
use tonic_transport_native.Runtime.{Result, ok, err, Exec, done, Poll, pending, ready, Future, now}
use tonic_transport_native.Error.{Error}
use tonic_transport_native.RecoverError.Status.{Code, Statuses}
use tonic_transport_native.RecoverError.Body.{MaybeEmptyBody}
use tonic_transport_native.RecoverError.Middleware.{Response}
use tonic_transport_native.GrpcTimeout.Middleware.{GrpcTimeout}
use tonic_transport_native.Router.Routes.{
  Answer, unimplemented, Routes, Router, path_of, add_service, new, server_add_service,
}
use tonic_transport_native.Server.Info.{der, TlsConnectInfo}
use tonic_transport_native.Server.Builder.{Server, builder}
use tonic_transport_native.Server.Make.{Requests, with_info}
use tonic_transport_native.Server.Serve.{Hyper, make_svc}
use tonic_transport_native.Server.Unknown.{AnswerLaws, IsUnimplemented, unmatched-IsUnimplemented}
use tonic_transport_native.Tests.Fixtures.{FieldMap, headers, text_laws}
use tonic_transport_native.Tests.Routing.{Table, axum, laws, differs}
use tonic_transport_native.Tests.Deadline.{timer, sleep}

abbrev Fields : Type 0
Fields = List (Bytes × Bytes)

abbrev get : Fields → Bytes → Option Bytes
get [] k = none
get ((j, v) ∷ m) k = let rest = get m k in if eq_bytes j k then some v else rest

-- The future of an answer is ready at once, and that of a service never.
abbrev Routed : Type 0
Routed = Bytes × Option Answer

abbrev response_of : Answer → Response Fields (Unit {0})
response_of a = record { status = a.status; headers = a.headers; body = tt }

abbrev poll : Routed → Exec (Poll (Result (Response Fields (Unit {0})) ⊥) × Routed)
poll (s, some a) = done (ready (ok (response_of a)), (s, some a))
poll (s, none) = done (pending, (s, none))

abbrev routed : Future Routed (Result (Response Fields (Unit {0})) ⊥)
routed = record { poll = poll }

two_headers :
    (k k' v v' : Bytes)
    → k ≢ k'
    → (get ((k, v) ∷ (k', v') ∷ []) k ≡ some v) × (get ((k, v) ∷ (k', v') ∷ []) k' ≡ some v')
two_headers k k' v v' other =
    (rw (eq_bytes_refl k) refl, rw (differs k k' other) (rw (eq_bytes_refl k') refl))

abbrev answer_laws : AnswerLaws laws routed get
answer_laws = record {
  response_of = response_of;
  answers = λ a. now _ refl;
  status = λ a. refl;
  two_headers = λ code k k' v v' other. two_headers k k' v v' other;
}

abbrev hyper :
    Hyper (Unit {0}) (Unit {0}) (Unit {0}) Table (Routes Table) ℕ (Unit {0}) (Unit {0}) (Unit {0}) ℕ
hyper = record {
  builder = λ a. tt;
  http2_only = λ b x. b;
  http2_initial_connection_window_size = λ b x. b;
  http2_initial_stream_window_size = λ b x. b;
  http2_max_concurrent_streams = λ b x. b;
  http2_keep_alive_interval = λ b x. b;
  http2_keep_alive_timeout = λ b x. b;
  http2_adaptive_window = λ b x. b;
  http2_max_frame_size = λ b x. b;
  serve = λ b m. b;
  with_graceful_shutdown = λ r signal. r;
  awaited = λ r. ok tt;
  service = λ l rs. rs;
}

-- A request is its path.
abbrev reqs : Requests Bytes ℕ ℕ ℕ
reqs = record { intercept = λ f r. f; no_span = 0; insert_tls = λ r i. r; insert_inner = λ r i. r }

abbrev known : TlsConnectInfo ℕ
known = record { inner = 1; cert = some (der (7 ∷ [])) }

abbrev told : ℕ → Result (TlsConnectInfo ℕ) (Error ℕ)
told io = ok known

abbrev no_headers : Bytes → FieldMap
no_headers req = []

-- tonic knows no error of these services.
abbrev statuses : Statuses ℕ Code Fields ℕ
statuses = record {
  downcast = λ x. none;
  reason = λ h. none;
  to_string = λ h. [];
  status = λ c message. c;
  set_source = λ s h. s;
  add_header = λ s m. some m;
  try_from_error = λ e. err e;
}

abbrev box : MaybeEmptyBody (Unit {0}) → MaybeEmptyBody (Unit {0})
box b = b

abbrev unlimited : Option ℕ → GrpcTimeout (Routes Table) → GrpcTimeout (Routes Table)
unlimited limit s = s

abbrev server : Server ℕ (Unit {0}) (Unit {0})
server = builder tt tt

abbrev echoing : Router (Server ℕ (Unit {0}) (Unit {0})) Table
echoing = record {
  server = server;
  routes = record { router = ((codes "/echo/*rest", codes "echo") ∷ [], some unimplemented) };
}

unmatched-IsUnimplemented_example :
    IsUnimplemented axum laws routed get answer_laws
      (λ b. b)
      headers
      text_laws
      no_headers
      sleep
      timer
      statuses
      []
      box
      unlimited
      told
      reqs
      hyper
      (make_svc hyper echoing.server echoing.routes)
      9
      (codes "/hello")
unfolding server_add_service new add_service path_of with_info builder
unmatched-IsUnimplemented_example =
    unmatched-IsUnimplemented axum laws routed get answer_laws (λ b. b) headers text_laws no_headers
      sleep timer statuses [] box unlimited told reqs hyper server (codes "echo") [] echoing 9 known
      (codes "/hello") refl (λ rs. refl) refl (λ t. refl) tt refl ((λ e. cc), tt)
