-- ===== src/Tests/Configuring.antt =====
-- Tests of Server/Configured.antt.
use tonic_transport_native.Common.{ℕ, false, none, some, List, [], ◌∷◌}
use tonic_transport_native.Runtime.{Result, ok}
use tonic_transport_native.Router.Routes.{Routes}
use tonic_transport_native.Server.Make.{MakeSvc}
use tonic_transport_native.Server.Serve.{Accepting}
use tonic_transport_native.Server.Settings.{Setting, max_frame_size, timeout, trace_fn}
use tonic_transport_native.Server.Configured.{Config}

abbrev fresh : Accepting ℕ ℕ → Config ℕ ℕ
fresh a = record {
  accepting = a;
  only_http2 = false;
  connection_window = none;
  stream_window = none;
  streams = none;
  keep_alive_interval = none;
  keep_alive_timeout = record { secs = 1; nanos = 0 };
  adaptive_window = false;
  frame_size = none;
}

abbrev serve : Config ℕ ℕ → MakeSvc ℕ ℕ → Config ℕ ℕ
serve b m = b

abbrev until : Config ℕ ℕ → ℕ → Config ℕ ℕ
until run signal = run

abbrev awaited : Config ℕ ℕ → Result (Unit {0}) ℕ
awaited run = ok tt

abbrev service : List ℕ → Routes ℕ → ℕ
service layers routes = routes.router

abbrev calls : List (Setting ℕ)
calls =
    max_frame_size (some 9)
    ∷ timeout (record { secs = 30; nanos = 0 })
    ∷ max_frame_size none
    ∷ trace_fn 5
    ∷ []

abbrev routes : Routes ℕ
routes = record { router = 4 }
