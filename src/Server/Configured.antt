-- ===== src/Server/Configured.antt =====
-- What hyper's server and the services of connections are told of the settings that a user of
-- src/server/mod.rs makes.
use tonic_transport_native.Common.{ℕ, unwrap_or, Bool, true, false, Option, none, List}
use tonic_transport_native.Runtime.{Result}
use tonic_transport_native.Duration.{Duration}
use tonic_transport_native.Latest.{latest}
use tonic_transport_native.Router.Routes.{Routes}
use tonic_transport_native.Server.Builder.{builder}
use tonic_transport_native.Server.Make.{MakeSvc}
use tonic_transport_native.Server.Serve.{Accepting, Hyper}
use tonic_transport_native.Server.Settings.{
  Setting, writes_init_stream_window_size, writes_init_connection_window_size,
  writes_max_concurrent_streams, writes_http2_keepalive_interval, writes_http2_keepalive_timeout,
  writes_http2_adaptive_window, writes_max_frame_size,
}

-- A builder of hyper's server as what it was told.
pub record Config (In A : Type 0) : Type 0 where
  pub accepting : Accepting In A
  pub only_http2 : Bool
  pub connection_window : Option ℕ
  pub stream_window : Option ℕ
  pub streams : Option ℕ
  pub keep_alive_interval : Option Duration
  pub keep_alive_timeout : Duration
  pub adaptive_window : Bool
  pub frame_size : Option ℕ

module _ {In A L Rt S Tr Run Sig X : Type 0} (fresh : Accepting In A → Config In A)
    (serve : Config In A → MakeSvc S Tr → Run) (with_graceful_shutdown : Run → Sig → Run)
    (awaited : Run → Result (Unit {0}) X) (service : L → Routes Rt → S) where
  -- hyper with such builders, which hold what they are told last.
  abbrev pub holding : Hyper In A L Rt S Tr (Config In A) Run Sig X
  holding = record {
    builder = fresh;
    http2_only = λ b x. record b { only_http2 = x };
    http2_initial_connection_window_size = λ b x. record b { connection_window = x };
    http2_initial_stream_window_size = λ b x. record b { stream_window = x };
    http2_max_concurrent_streams = λ b x. record b { streams = x };
    http2_keep_alive_interval = λ b x. record b { keep_alive_interval = x };
    http2_keep_alive_timeout = λ b x. record b { keep_alive_timeout = x };
    http2_adaptive_window = λ b x. record b { adaptive_window = x };
    http2_max_frame_size = λ b x. record b { frame_size = x };
    serve = serve;
    with_graceful_shutdown = with_graceful_shutdown;
    awaited = awaited;
    service = service;
  }

  -- The settings that are described by some calls of setters on a new server: what was written last,
  -- or else the default.
  abbrev pub configured : List (Setting Tr) → A → In → Config In A
  configured cs acceptor incoming = record {
    accepting = record { incoming = incoming; tls = acceptor };
    only_http2 = true;
    connection_window = latest writes_init_connection_window_size cs none;
    stream_window = latest writes_init_stream_window_size cs none;
    streams = latest writes_max_concurrent_streams cs none;
    keep_alive_interval = latest writes_http2_keepalive_interval cs none;
    keep_alive_timeout =
        unwrap_or (latest writes_http2_keepalive_timeout cs none) (record { secs = 20; nanos = 0 });
    adaptive_window = unwrap_or (latest writes_http2_adaptive_window cs none) false;
    frame_size = latest writes_max_frame_size cs none;
  }
