-- ===== src/Tests/Across.antt =====
-- Tests of Server/Across.antt.
use tonic_transport_native.Common.{refl, none, some, [], ◌∷◌, codes, arith}
use tonic_transport_native.Runtime.{idle, still}
use tonic_transport_native.Duration.{from_secs}
use tonic_transport_native.Channel.Builder.{with_defaults}
use tonic_transport_native.Server.Make.{with_info}
use tonic_transport_native.Server.Across.{Crossed, deadline-Crossed}
use tonic_transport_native.Tests.Recovering.{statuses, statuses_lawful}
use tonic_transport_native.Tests.Timeout.{three_hours}
use tonic_transport_native.Tests.Fixtures.{
  headers, text_laws, map_laws, value_laws, uris, uri_laws, script,
}
use tonic_transport_native.Tests.Sending.{
  Req, answers, client_svc, client_boxed, detail, minute, endpoint,
}
use tonic_transport_native.Tests.Deadline.{
  Answer, timer, sleep, timers, slow, svc, reqs, boxed, box, maker, unlimited, known, told, carried,
}

abbrev patient : Req
patient = record {
  uri = record { scheme = none; authority = none; path_and_query = some (codes "/hello") };
  headers = three_hours;
  rest = tt;
  body = tt;
}

deadline-Crossed_example :
    Crossed uris headers text_laws minute detail client_svc client_boxed
      (λ r. r)
      sleep
      timer
      timers
      statuses
      none
      (script {A = Answer})
      svc
      boxed
      box
      unlimited
      told
      reqs
      (λ s. s)
      (λ m. m)
      statuses_lawful
      endpoint
      []
      (λ r. (answers, r ∷ []))
      (λ r. r.headers)
      maker
      9
      patient
      (from_secs 10800)
unfolding with_info with_defaults
deadline-Crossed_example =
    deadline-Crossed uris headers text_laws minute detail client_svc client_boxed (λ r. r) sleep
      timer timers statuses none (script {A = Answer}) svc boxed box unlimited told reqs (λ s. s)
      (λ m. m) statuses_lawful map_laws value_laws uri_laws endpoint [] (λ r. (answers, r ∷ []))
      (λ r. r.headers) maker 9 known patient (codes "https") (codes "example.com") (codes "/hello")
      (from_secs 10800) (λ r. slow) (λ r. r ∷ []) refl refl refl tt (λ r. refl) (λ r. refl) carried
      refl (λ t. refl) (omega arith) refl (λ r. refl) (λ r. still _ refl (still _ refl (idle _)))
