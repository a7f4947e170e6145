-- ===== src/Channel/Settings.antt =====
-- Any calls of the setters of src/channel/endpoint.rs, one after the other.
use tonic_transport_native.Common.{
  ◌≡◌, refl, ap, ◌∙◌, inl, inr, unwrap_or, true, false, Bool-cases, if◌then◌else◌, Option,
  Option-cases, List, [], ◌∷◌,
}
use tonic_transport_native.Latest.{latest, latest-cons}
use tonic_transport_native.Runtime.{Result, ok, err}
use tonic_transport_native.Attempt.{◌>>=◌}
use tonic_transport_native.Error.{Error, invalid_user_agent}
use tonic_transport_native.Channel.Builder.{ChannelBuilder}
use tonic_transport_native.Channel.Calls.{
  Setting, origin, user_agent, tls_verify_domain, timeout, connect_timeout, tcp_keepalive,
  concurrency_limit, rate_limit, initial_stream_window_size, initial_connection_window_size,
  tcp_nodelay, http2_keep_alive_interval, keep_alive_timeout, keep_alive_while_idle,
  http2_adaptive_window, writes_tls_verify_domain, writes_origin, writes_user_agent, converts,
  all_convert, writes_timeout, writes_concurrency_limit, writes_rate_limit,
  writes_init_stream_window_size, writes_init_connection_window_size, writes_tcp_keepalive,
  writes_tcp_nodelay, writes_http2_keep_alive_interval, writes_http2_keep_alive_timeout,
  writes_http2_keep_alive_while_idle, writes_connect_timeout, writes_http2_adaptive_window,
}
use tonic_transport_native.Channel.Setters

module _ {U V T C X : Type 0} (try_into : T → Option V) where
  unfoldable pub apply :
      Setting U T → ChannelBuilder U C V → Result (ChannelBuilder U C V) (Error X)
  apply (user_agent x) b = Setters.user_agent try_into b x
  apply (origin x) b = ok (Setters.origin b x)
  apply (tls_verify_domain x) b = ok (Setters.tls_verify_domain b x)
  apply (timeout x) b = ok (Setters.timeout b x)
  apply (connect_timeout x) b = ok (Setters.connect_timeout b x)
  apply (tcp_keepalive x) b = ok (Setters.tcp_keepalive b x)
  apply (concurrency_limit x) b = ok (Setters.concurrency_limit b x)
  apply (rate_limit l d) b = ok (Setters.rate_limit b l d)
  apply (initial_stream_window_size x) b = ok (Setters.initial_stream_window_size b x)
  apply (initial_connection_window_size x) b = ok (Setters.initial_connection_window_size b x)
  apply (tcp_nodelay x) b = ok (Setters.tcp_nodelay b x)
  apply (http2_keep_alive_interval x) b = ok (Setters.http2_keep_alive_interval b x)
  apply (keep_alive_timeout x) b = ok (Setters.keep_alive_timeout b x)
  apply (keep_alive_while_idle x) b = ok (Setters.keep_alive_while_idle b x)
  apply (http2_adaptive_window x) b = ok (Setters.http2_adaptive_window b x)

  -- The calls of setters, one after the other, each with `?`.
  unfoldable pub apply_all :
      List (Setting U T) → ChannelBuilder U C V → Result (ChannelBuilder U C V) (Error X)
  apply_all [] b = ok b
  apply_all (c ∷ cs) b = apply c b >>= λ next. apply_all cs next

-- A call as the values that it writes.
abbrev written :
    {U C V T : Type 0} → (T → Option V) → Setting U T → ChannelBuilder U C V → ChannelBuilder U C V
written try_into c b = record {
  uri = b.uri;
  tls = b.tls;
  tls_verify_domain = unwrap_or (writes_tls_verify_domain c) b.tls_verify_domain;
  origin = unwrap_or (writes_origin c) b.origin;
  user_agent = unwrap_or (writes_user_agent try_into c) b.user_agent;
  timeout = unwrap_or (writes_timeout c) b.timeout;
  concurrency_limit = unwrap_or (writes_concurrency_limit c) b.concurrency_limit;
  rate_limit = unwrap_or (writes_rate_limit c) b.rate_limit;
  buffer_size = b.buffer_size;
  init_stream_window_size = unwrap_or (writes_init_stream_window_size c) b.init_stream_window_size;
  init_connection_window_size =
      unwrap_or (writes_init_connection_window_size c) b.init_connection_window_size;
  tcp_keepalive = unwrap_or (writes_tcp_keepalive c) b.tcp_keepalive;
  tcp_nodelay = unwrap_or (writes_tcp_nodelay c) b.tcp_nodelay;
  http2_keep_alive_interval =
      unwrap_or (writes_http2_keep_alive_interval c) b.http2_keep_alive_interval;
  http2_keep_alive_timeout =
      unwrap_or (writes_http2_keep_alive_timeout c) b.http2_keep_alive_timeout;
  http2_keep_alive_while_idle =
      unwrap_or (writes_http2_keep_alive_while_idle c) b.http2_keep_alive_while_idle;
  connect_timeout = unwrap_or (writes_connect_timeout c) b.connect_timeout;
  http2_adaptive_window = unwrap_or (writes_http2_adaptive_window c) b.http2_adaptive_window;
}

-- What is settled by some calls: each field holds what the last call that writes it wrote, and what
-- it held before if none does.
abbrev pub settled :
    {U C V T : Type 0}
    → (T → Option V)
    → List (Setting U T)
    → ChannelBuilder U C V
    → ChannelBuilder U C V
settled try_into cs b = record {
  uri = b.uri;
  tls = b.tls;
  tls_verify_domain = latest writes_tls_verify_domain cs b.tls_verify_domain;
  origin = latest writes_origin cs b.origin;
  user_agent = latest (writes_user_agent try_into) cs b.user_agent;
  timeout = latest writes_timeout cs b.timeout;
  concurrency_limit = latest writes_concurrency_limit cs b.concurrency_limit;
  rate_limit = latest writes_rate_limit cs b.rate_limit;
  buffer_size = b.buffer_size;
  init_stream_window_size = latest writes_init_stream_window_size cs b.init_stream_window_size;
  init_connection_window_size =
      latest writes_init_connection_window_size cs b.init_connection_window_size;
  tcp_keepalive = latest writes_tcp_keepalive cs b.tcp_keepalive;
  tcp_nodelay = latest writes_tcp_nodelay cs b.tcp_nodelay;
  http2_keep_alive_interval =
      latest writes_http2_keep_alive_interval cs b.http2_keep_alive_interval;
  http2_keep_alive_timeout = latest writes_http2_keep_alive_timeout cs b.http2_keep_alive_timeout;
  http2_keep_alive_while_idle =
      latest writes_http2_keep_alive_while_idle cs b.http2_keep_alive_while_idle;
  connect_timeout = latest writes_connect_timeout cs b.connect_timeout;
  http2_adaptive_window = latest writes_http2_adaptive_window cs b.http2_adaptive_window;
}

module _ {U C V T X : Type 0} (try_into : T → Option V) where
  apply-written :
      (c : Setting U T) (b : ChannelBuilder U C V)
      → converts try_into c ≡ true
      → apply {X = X} try_into c b ≡ ok (written try_into c b)
  unfolding apply Setters.user_agent Setters.origin Setters.tls_verify_domain Setters.timeout
      Setters.connect_timeout Setters.tcp_keepalive Setters.concurrency_limit Setters.rate_limit
      Setters.initial_stream_window_size Setters.initial_connection_window_size Setters.tcp_nodelay
      Setters.http2_keep_alive_interval Setters.keep_alive_timeout Setters.keep_alive_while_idle
      Setters.http2_adaptive_window
  apply-written (user_agent x) b turns = elim (Option-cases (try_into x)) [
    | inl missing ↦ let wrong : false ≡ true = rw missing at turns in cc
    | inr found ↦ rw (found.1, apply, Setters.user_agent, written, writes_user_agent) refl
  ]
  apply-written _ b turns = refl

  apply_refused :
      (c : Setting U T) (b : ChannelBuilder U C V)
      → converts try_into c ≡ false
      → apply {X = X} try_into c b ≡ err invalid_user_agent
  unfolding apply Setters.user_agent
  apply_refused (user_agent x) b turns = elim (Option-cases (try_into x)) [
    | inl missing ↦ rw (missing, apply, Setters.user_agent) refl
    | inr found ↦ let wrong : true ≡ false = rw found.1 at turns in cc
  ]
  apply_refused _ b turns = cc

settled-cons :
    {U C V T : Type 0} (try_into : T → Option V) (c : Setting U T) (cs : List (Setting U T))
    (b : ChannelBuilder U C V)
    → settled try_into cs (written try_into c b) ≡ settled try_into (c ∷ cs) b
settled-cons try_into c cs b = λ i. record {
  uri = b.uri;
  tls = b.tls;
  tls_verify_domain = latest-cons writes_tls_verify_domain c cs b.tls_verify_domain i;
  origin = latest-cons writes_origin c cs b.origin i;
  user_agent = latest-cons (writes_user_agent try_into) c cs b.user_agent i;
  timeout = latest-cons writes_timeout c cs b.timeout i;
  concurrency_limit = latest-cons writes_concurrency_limit c cs b.concurrency_limit i;
  rate_limit = latest-cons writes_rate_limit c cs b.rate_limit i;
  buffer_size = b.buffer_size;
  init_stream_window_size =
      latest-cons writes_init_stream_window_size c cs b.init_stream_window_size i;
  init_connection_window_size =
      latest-cons writes_init_connection_window_size c cs b.init_connection_window_size i;
  tcp_keepalive = latest-cons writes_tcp_keepalive c cs b.tcp_keepalive i;
  tcp_nodelay = latest-cons writes_tcp_nodelay c cs b.tcp_nodelay i;
  http2_keep_alive_interval =
      latest-cons writes_http2_keep_alive_interval c cs b.http2_keep_alive_interval i;
  http2_keep_alive_timeout =
      latest-cons writes_http2_keep_alive_timeout c cs b.http2_keep_alive_timeout i;
  http2_keep_alive_while_idle =
      latest-cons writes_http2_keep_alive_while_idle c cs b.http2_keep_alive_while_idle i;
  connect_timeout = latest-cons writes_connect_timeout c cs b.connect_timeout i;
  http2_adaptive_window = latest-cons writes_http2_adaptive_window c cs b.http2_adaptive_window i;
}

-- After any calls of setters, in any order and any number, each with the operator `?`: if all that is
-- given to `user_agent` turns into header values, the builder is the one that is settled by the
-- calls, in which each field holds what the last call that writes it wrote, if any does; and else the
-- result is the error for an invalid user agent.
pub apply_all-latest :
    {U C V T X : Type 0} (try_into : T → Option V) (cs : List (Setting U T))
    (b : ChannelBuilder U C V)
    → apply_all {X = X} try_into cs b
      ≡ (if all_convert try_into cs then ok (settled try_into cs b) else err invalid_user_agent)
unfolding apply_all
apply_all-latest try_into [] b = refl
apply_all-latest {X = X} try_into (c ∷ cs) b = elim (Bool-cases (converts try_into c)) [
  | inl turns ↦
      rw (apply-written {X = X} try_into c b turns, turns)
        (apply_all-latest try_into cs (written try_into c b)
          ∙ ap (λ t. if all_convert try_into cs then ok t else err invalid_user_agent)
              (settled-cons try_into c cs b))
  | inr refuses ↦ rw (apply_refused {X = X} try_into c b refuses, refuses) refl
]
