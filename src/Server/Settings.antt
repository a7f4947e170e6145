-- ===== src/Server/Settings.antt =====
-- The setters of src/server/mod.rs as calls, and what each call is to write.
use tonic_transport_native.Common.{
  ℕ, ◌≡◌, refl, ap, ◌∙◌, unwrap_or, Bool, Option, none, some, List, [], ◌∷◌, arith,
}
use tonic_transport_native.Latest.{latest, latest-cons}
use tonic_transport_native.Duration.{Duration}
use tonic_transport_native.Server.Builder.{Server, layer}
use tonic_transport_native.Server.Setters

-- A call of a setter.
pub data Setting (Tr : Type 0) : Type 0 where
  concurrency_limit_per_connection : ℕ → Setting Tr
  timeout : Duration → Setting Tr
  initial_stream_window_size : Option ℕ → Setting Tr
  initial_connection_window_size : Option ℕ → Setting Tr
  max_concurrent_streams : Option ℕ → Setting Tr
  http2_keepalive_interval : Option Duration → Setting Tr
  http2_keepalive_timeout : Option Duration → Setting Tr
  http2_adaptive_window : Option Bool → Setting Tr
  tcp_keepalive : Option Duration → Setting Tr
  tcp_nodelay : Bool → Setting Tr
  max_frame_size : Option ℕ → Setting Tr
  trace_fn : Tr → Setting Tr

unfoldable pub apply : {Tr A L : Type 0} → Setting Tr → Server Tr A L → Server Tr A L
apply (concurrency_limit_per_connection x) s = Setters.concurrency_limit_per_connection s x
apply (timeout x) s = Setters.timeout s x
apply (initial_stream_window_size x) s = Setters.initial_stream_window_size s x
apply (initial_connection_window_size x) s = Setters.initial_connection_window_size s x
apply (max_concurrent_streams x) s = Setters.max_concurrent_streams s x
apply (http2_keepalive_interval x) s = Setters.http2_keepalive_interval s x
apply (http2_keepalive_timeout x) s = Setters.http2_keepalive_timeout s x
apply (http2_adaptive_window x) s = Setters.http2_adaptive_window s x
apply (tcp_keepalive x) s = Setters.tcp_keepalive s x
apply (tcp_nodelay x) s = Setters.tcp_nodelay s x
apply (max_frame_size x) s = Setters.max_frame_size s x
apply (trace_fn x) s = Setters.trace_fn s x

-- The calls of setters, one after the other.
unfoldable pub apply_all : {Tr A L : Type 0} → List (Setting Tr) → Server Tr A L → Server Tr A L
apply_all [] s = s
apply_all (c ∷ cs) s = apply_all cs (apply c s)

-- What a call writes to each field.
abbrev pub writes_trace_interceptor : {Tr : Type 0} → Setting Tr → Option (Option Tr)
writes_trace_interceptor (trace_fn x) = some (some x)
writes_trace_interceptor _ = none

abbrev pub writes_concurrency_limit : {Tr : Type 0} → Setting Tr → Option (Option ℕ)
writes_concurrency_limit (concurrency_limit_per_connection x) = some (some x)
writes_concurrency_limit _ = none

abbrev pub writes_timeout : {Tr : Type 0} → Setting Tr → Option (Option Duration)
writes_timeout (timeout x) = some (some x)
writes_timeout _ = none

abbrev pub writes_init_stream_window_size : {Tr : Type 0} → Setting Tr → Option (Option ℕ)
writes_init_stream_window_size (initial_stream_window_size x) = some x
writes_init_stream_window_size _ = none

abbrev pub writes_init_connection_window_size : {Tr : Type 0} → Setting Tr → Option (Option ℕ)
writes_init_connection_window_size (initial_connection_window_size x) = some x
writes_init_connection_window_size _ = none

abbrev pub writes_max_concurrent_streams : {Tr : Type 0} → Setting Tr → Option (Option ℕ)
writes_max_concurrent_streams (max_concurrent_streams x) = some x
writes_max_concurrent_streams _ = none

abbrev pub writes_tcp_keepalive : {Tr : Type 0} → Setting Tr → Option (Option Duration)
writes_tcp_keepalive (tcp_keepalive x) = some x
writes_tcp_keepalive _ = none

abbrev pub writes_tcp_nodelay : {Tr : Type 0} → Setting Tr → Option (Bool)
writes_tcp_nodelay (tcp_nodelay x) = some x
writes_tcp_nodelay _ = none

abbrev pub writes_http2_keepalive_interval : {Tr : Type 0} → Setting Tr → Option (Option Duration)
writes_http2_keepalive_interval (http2_keepalive_interval x) = some x
writes_http2_keepalive_interval _ = none

abbrev pub writes_http2_keepalive_timeout : {Tr : Type 0} → Setting Tr → Option (Option Duration)
writes_http2_keepalive_timeout (http2_keepalive_timeout x) = some x
writes_http2_keepalive_timeout _ = none

abbrev pub writes_http2_adaptive_window : {Tr : Type 0} → Setting Tr → Option (Option Bool)
writes_http2_adaptive_window (http2_adaptive_window x) = some x
writes_http2_adaptive_window _ = none

abbrev pub writes_max_frame_size : {Tr : Type 0} → Setting Tr → Option (Option ℕ)
writes_max_frame_size (max_frame_size x) = some x
writes_max_frame_size _ = none

-- A call as the values that it writes.
abbrev written : {Tr A L : Type 0} → Setting Tr → Server Tr A L → Server Tr A L
written c s = record {
  trace_interceptor = unwrap_or (writes_trace_interceptor c) s.trace_interceptor;
  concurrency_limit = unwrap_or (writes_concurrency_limit c) s.concurrency_limit;
  timeout = unwrap_or (writes_timeout c) s.timeout;
  tls = s.tls;
  init_stream_window_size = unwrap_or (writes_init_stream_window_size c) s.init_stream_window_size;
  init_connection_window_size =
      unwrap_or (writes_init_connection_window_size c) s.init_connection_window_size;
  max_concurrent_streams = unwrap_or (writes_max_concurrent_streams c) s.max_concurrent_streams;
  tcp_keepalive = unwrap_or (writes_tcp_keepalive c) s.tcp_keepalive;
  tcp_nodelay = unwrap_or (writes_tcp_nodelay c) s.tcp_nodelay;
  http2_keepalive_interval =
      unwrap_or (writes_http2_keepalive_interval c) s.http2_keepalive_interval;
  http2_keepalive_timeout = unwrap_or (writes_http2_keepalive_timeout c) s.http2_keepalive_timeout;
  http2_adaptive_window = unwrap_or (writes_http2_adaptive_window c) s.http2_adaptive_window;
  max_frame_size = unwrap_or (writes_max_frame_size c) s.max_frame_size;
  service_builder = s.service_builder;
}

-- What is settled by some calls: each field holds what the last call that writes it wrote, and what
-- it held before if none does.
abbrev pub settled : {Tr A L : Type 0} → List (Setting Tr) → Server Tr A L → Server Tr A L
settled cs s = record {
  trace_interceptor = latest writes_trace_interceptor cs s.trace_interceptor;
  concurrency_limit = latest writes_concurrency_limit cs s.concurrency_limit;
  timeout = latest writes_timeout cs s.timeout;
  tls = s.tls;
  init_stream_window_size = latest writes_init_stream_window_size cs s.init_stream_window_size;
  init_connection_window_size =
      latest writes_init_connection_window_size cs s.init_connection_window_size;
  max_concurrent_streams = latest writes_max_concurrent_streams cs s.max_concurrent_streams;
  tcp_keepalive = latest writes_tcp_keepalive cs s.tcp_keepalive;
  tcp_nodelay = latest writes_tcp_nodelay cs s.tcp_nodelay;
  http2_keepalive_interval = latest writes_http2_keepalive_interval cs s.http2_keepalive_interval;
  http2_keepalive_timeout = latest writes_http2_keepalive_timeout cs s.http2_keepalive_timeout;
  http2_adaptive_window = latest writes_http2_adaptive_window cs s.http2_adaptive_window;
  max_frame_size = latest writes_max_frame_size cs s.max_frame_size;
  service_builder = s.service_builder;
}

apply-written : {Tr A L : Type 0} (c : Setting Tr) (s : Server Tr A L) → apply c s ≡ written c s
unfolding apply Setters.concurrency_limit_per_connection Setters.timeout
    Setters.initial_stream_window_size Setters.initial_connection_window_size
    Setters.max_concurrent_streams Setters.http2_keepalive_interval Setters.http2_keepalive_timeout
    Setters.http2_adaptive_window Setters.tcp_keepalive Setters.tcp_nodelay Setters.max_frame_size
    Setters.trace_fn
apply-written (concurrency_limit_per_connection x) s = refl
apply-written _ s = refl

settled-cons :
    {Tr A L : Type 0} (c : Setting Tr) (cs : List (Setting Tr)) (s : Server Tr A L)
    → settled cs (written c s) ≡ settled (c ∷ cs) s
settled-cons c cs s = λ i. record {
  trace_interceptor = latest-cons writes_trace_interceptor c cs s.trace_interceptor i;
  concurrency_limit = latest-cons writes_concurrency_limit c cs s.concurrency_limit i;
  timeout = latest-cons writes_timeout c cs s.timeout i;
  tls = s.tls;
  init_stream_window_size =
      latest-cons writes_init_stream_window_size c cs s.init_stream_window_size i;
  init_connection_window_size =
      latest-cons writes_init_connection_window_size c cs s.init_connection_window_size i;
  max_concurrent_streams =
      latest-cons writes_max_concurrent_streams c cs s.max_concurrent_streams i;
  tcp_keepalive = latest-cons writes_tcp_keepalive c cs s.tcp_keepalive i;
  tcp_nodelay = latest-cons writes_tcp_nodelay c cs s.tcp_nodelay i;
  http2_keepalive_interval =
      latest-cons writes_http2_keepalive_interval c cs s.http2_keepalive_interval i;
  http2_keepalive_timeout =
      latest-cons writes_http2_keepalive_timeout c cs s.http2_keepalive_timeout i;
  http2_adaptive_window = latest-cons writes_http2_adaptive_window c cs s.http2_adaptive_window i;
  max_frame_size = latest-cons writes_max_frame_size c cs s.max_frame_size i;
  service_builder = s.service_builder;
}

-- After any calls of setters, in any order and any number, the builder is the one that is settled by
-- the calls: each field holds what the last call that writes it wrote, if any does.
pub settings-latest :
    {Tr A L : Type 0} (cs : List (Setting Tr)) (s : Server Tr A L) → apply_all cs s ≡ settled cs s
unfolding apply_all
settings-latest [] s = refl
settings-latest (c ∷ cs) s =
    ap (apply_all cs) (apply-written c s) ∙ settings-latest cs (written c s) ∙ settled-cons c cs s

-- A layer may be added before or after any setting: it keeps what has been set, and it is not
-- lost when something is set later.
pub layer_swap :
    {Tr A L N L' : Type 0} (push : L → N → L') (c : Setting Tr) (s : Server Tr A L) (new_layer : N)
    → apply c (layer push s new_layer) ≡ layer push (apply c s) new_layer
unfolding layer apply Setters.concurrency_limit_per_connection Setters.timeout
    Setters.initial_stream_window_size Setters.initial_connection_window_size
    Setters.max_concurrent_streams Setters.http2_keepalive_interval Setters.http2_keepalive_timeout
    Setters.http2_adaptive_window Setters.tcp_keepalive Setters.tcp_nodelay Setters.max_frame_size
    Setters.trace_fn
layer_swap push _ s new_layer = ground arith
