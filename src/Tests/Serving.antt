-- ===== src/Tests/Serving.antt =====
-- Tests of the modules below Server that serve connections.
use tonic_transport_native.Common.{
  if◌then◌else◌, ◌==◌, ℕ, ◌≡◌, ◌↔◌, refl, Option, none, some, List, [], ◌∷◌,
}
use tonic_transport_native.Runtime.{Result, ok, err, done, ◌>>=◌, Poll, ready, Service}
use tonic_transport_native.Error.{BoxError, Error, foreign}
use tonic_transport_native.Server.Info.{der, TlsConnectInfo, Peers, tls_stream_info}
use tonic_transport_native.Server.Peer.{Presents, tls_stream_info-Presents}
use tonic_transport_native.Server.Make.{Requests, MakeSvc, ConnSvc, make_call, conn_call}
use tonic_transport_native.Server.Requests.{
  InfoLaws, AllInformed, calls, wrap_all, around, requests_handed_on,
}
use tonic_transport_native.GrpcTimeout.Middleware.{GrpcTimeout, new}
use tonic_transport_native.Tests.Fixtures.{echo}

-- Connections are numbers; the odd one has a certificate.
abbrev peers : Peers ℕ ℕ ℕ
peers = record {
  peer_certificate = λ io. if io == 1 then ok (some 7) else err 0;
  to_der = λ ct. ok (ct ∷ []);
}

abbrev inner_info : ℕ → Result ℕ (Error ℕ)
inner_info io = ok io

abbrev known : TlsConnectInfo ℕ
known = record { inner = 1; cert = some (der (7 ∷ [])) }

tls_stream_info-Presents_example :
    (tls_stream_info peers inner_info 1 ≡ ok known)
    ↔ ((inner_info 1 ≡ ok 1) × Presents peers (peers.peer_certificate 1) (some (der (7 ∷ []))))
tls_stream_info-Presents_example = tls_stream_info-Presents peers inner_info 1 known

-- A request is a number and its extensions, and a span is a number.
abbrev Req : Type 0
Req = ℕ × (Option (TlsConnectInfo ℕ) × Option ℕ)

abbrev reqs : Requests Req ℕ ℕ ℕ
reqs = record {
  intercept = λ f r. r.0;
  no_span = 0;
  insert_tls = λ r i. (r.0, (some i, r.1.1));
  insert_inner = λ r i. (r.0, (r.1.0, some i));
}

abbrev info_laws : InfoLaws reqs ℕ
info_laws = record {
  tls_of = λ r. r.1.0;
  inner_of = λ r. r.1.1;
  rest_of = λ r. r.0;
  tls_of-insert_tls = λ r i. refl;
  tls_of-insert_inner = λ r x. refl;
  inner_of-insert_inner = λ r x. refl;
  rest_of-insert_tls = λ r i. refl;
  rest_of-insert_inner = λ r x. refl;
}

abbrev Answers : Type 0
Answers = List (Poll (Result ℕ ℕ))

abbrev svc : Service (List Req) Req Answers ℕ
svc = echo {R = Req} {A = Result ℕ ℕ} {E = ℕ} (ready (ok 1) ∷ [])

abbrev unlimited : Option ℕ → GrpcTimeout (List Req) → List Req
unlimited limit s = s.inner

abbrev told : ℕ → Result (TlsConnectInfo ℕ) (Error ℕ)
told io = ok known

abbrev boxed : ℕ → BoxError ℕ
boxed e = foreign e

abbrev maker : MakeSvc (List Req) ℕ
maker = record { concurrency_limit = none; timeout = none; inner = []; trace_interceptor = some 4 }

requests_handed_on_example :
    (conn : ConnSvc (List Req) ℕ ℕ) × (make_call unlimited told maker 1 ≡ ok conn)
    × ((rs : List Req)
        → (qs : List Req) × AllInformed info_laws known rs qs
          × (calls (conn_call svc boxed reqs) rs conn ≡ (
              calls svc.call qs (unlimited none (new [] none)) >>= λ a.
              done (wrap_all reqs (some 4) qs a.0, around svc boxed reqs (some 4) known a.1))))
requests_handed_on_example =
    requests_handed_on unlimited told reqs svc boxed info_laws maker 1 known refl
