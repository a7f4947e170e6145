-- ===== src/Channel/Calls.antt =====
-- The setters of src/channel/endpoint.rs as calls, and what each call is to write.
use mathlib.Core.Option
use tonic_transport_native.Common.{
  ℕ, Bool, true, ◌&&◌, Option, none, some, is_some, List, [], ◌∷◌, Bytes,
}
use tonic_transport_native.Duration.{Duration}

-- A call of a setter; `T` is the type of what `user_agent` is to turn into a header value.
pub data Setting (U T : Type 0) : Type 0 where
  origin : U → Setting U T
  user_agent : T → Setting U T
  tls_verify_domain : Bytes → Setting U T
  timeout : Duration → Setting U T
  connect_timeout : Duration → Setting U T
  tcp_keepalive : Option Duration → Setting U T
  concurrency_limit : ℕ → Setting U T
  rate_limit : ℕ → Duration → Setting U T
  initial_stream_window_size : Option ℕ → Setting U T
  initial_connection_window_size : Option ℕ → Setting U T
  tcp_nodelay : Bool → Setting U T
  http2_keep_alive_interval : Duration → Setting U T
  keep_alive_timeout : Duration → Setting U T
  keep_alive_while_idle : Bool → Setting U T
  http2_adaptive_window : Bool → Setting U T

-- What a call writes to each field.
abbrev pub writes_tls_verify_domain : {U T : Type 0} → Setting U T → Option (Option Bytes)
writes_tls_verify_domain (tls_verify_domain x) = some (some x)
writes_tls_verify_domain _ = none

abbrev pub writes_origin : {U T : Type 0} → Setting U T → Option (Option U)
writes_origin (origin x) = some (some x)
writes_origin _ = none

abbrev pub writes_user_agent : {U V T : Type 0} → (T → Option V) → Setting U T → Option (Option V)
writes_user_agent try_into (user_agent x) = Option.map (λ v. some v) (try_into x)
writes_user_agent try_into _ = none

-- What is given to `user_agent` turns into a header value.
abbrev pub converts : {U V T : Type 0} → (T → Option V) → Setting U T → Bool
converts try_into (user_agent x) = is_some (try_into x)
converts try_into _ = true

abbrev pub all_convert : {U V T : Type 0} → (T → Option V) → List (Setting U T) → Bool
all_convert try_into [] = true
all_convert try_into (c ∷ cs) = converts try_into c && all_convert try_into cs

abbrev pub writes_timeout : {U T : Type 0} → Setting U T → Option (Option Duration)
writes_timeout (timeout x) = some (some x)
writes_timeout _ = none

abbrev pub writes_concurrency_limit : {U T : Type 0} → Setting U T → Option (Option ℕ)
writes_concurrency_limit (concurrency_limit x) = some (some x)
writes_concurrency_limit _ = none

abbrev pub writes_rate_limit : {U T : Type 0} → Setting U T → Option (Option (ℕ × Duration))
writes_rate_limit (rate_limit l d) = some (some (l, d))
writes_rate_limit _ = none

abbrev pub writes_init_stream_window_size : {U T : Type 0} → Setting U T → Option (Option ℕ)
writes_init_stream_window_size (initial_stream_window_size x) = some x
writes_init_stream_window_size _ = none

abbrev pub writes_init_connection_window_size : {U T : Type 0} → Setting U T → Option (Option ℕ)
writes_init_connection_window_size (initial_connection_window_size x) = some x
writes_init_connection_window_size _ = none

abbrev pub writes_tcp_keepalive : {U T : Type 0} → Setting U T → Option (Option Duration)
writes_tcp_keepalive (tcp_keepalive x) = some x
writes_tcp_keepalive _ = none

abbrev pub writes_tcp_nodelay : {U T : Type 0} → Setting U T → Option (Bool)
writes_tcp_nodelay (tcp_nodelay x) = some x
writes_tcp_nodelay _ = none

abbrev pub writes_http2_keep_alive_interval :
    {U T : Type 0} → Setting U T → Option (Option Duration)
writes_http2_keep_alive_interval (http2_keep_alive_interval x) = some (some x)
writes_http2_keep_alive_interval _ = none

abbrev pub writes_http2_keep_alive_timeout : {U T : Type 0} → Setting U T → Option (Option Duration)
writes_http2_keep_alive_timeout (keep_alive_timeout x) = some (some x)
writes_http2_keep_alive_timeout _ = none

abbrev pub writes_http2_keep_alive_while_idle : {U T : Type 0} → Setting U T → Option (Option Bool)
writes_http2_keep_alive_while_idle (keep_alive_while_idle x) = some (some x)
writes_http2_keep_alive_while_idle _ = none

abbrev pub writes_connect_timeout : {U T : Type 0} → Setting U T → Option (Option Duration)
writes_connect_timeout (connect_timeout x) = some (some x)
writes_connect_timeout _ = none

abbrev pub writes_http2_adaptive_window : {U T : Type 0} → Setting U T → Option (Option Bool)
writes_http2_adaptive_window (http2_adaptive_window x) = some (some x)
writes_http2_adaptive_window _ = none
