-- ===== src/Tests/Balancing.antt =====
-- Tests of Channel/Room.antt, on channels that are lists of a bounded length.
use tonic_transport_native.Common.{
  ℕ, zero, suc, ◌-◌, ◌≡◌, refl, true, none, some, List, [], ◌∷◌, ltb, if◌then◌else◌, length, Bytes,
  codes, arith,
}
use tonic_transport_native.Runtime.{ok, err, done, panic}
use tonic_transport_native.Channel.Builder.{ChannelBuilder, with_defaults}
use tonic_transport_native.Channel.Core.{Channel, Crates}
use tonic_transport_native.Channel.Balance.{Mpsc, balance_list}
use tonic_transport_native.Channel.Room.{MpscLaws, at_once, balance_list_fits, balance_list_full}
use tonic_transport_native.Discovery.Changes.{Change, DynamicServiceStream}
use tonic_transport_native.Tests.Fixtures.{Uri}

abbrev Builder : Type 0
Builder = ChannelBuilder Uri (Unit {0}) (Unit {0})

-- A channel by its number of messages and its capacity.
abbrev Queue : Type 0
Queue = ℕ × ℕ

abbrev mpsc : Mpsc Queue (Unit {0}) (Change Uri Builder) (Unit {0})
mpsc = record {
  channel = λ n. if ltb 0 n then done ((0, n), tt) else panic;
  try_send = λ q a. if ltb q.0 q.1 then ok (suc q.0, q.1) else err tt;
  take = λ q. (q.0 - 1, q.1);
}

mpsc_laws : MpscLaws mpsc
mpsc_laws = record {
  len = λ q. q.0;
  cap = λ q. q.1;
  channel_new = λ n h.
      let some_room : ltb 0 n ≡ true = ground arith in ((0, n), tt, rw some_room refl, refl, refl);
  try_send_room = λ q a h.
      let room : ltb q.0 q.1 ≡ true = ground arith in ((suc q.0, q.1), rw room refl, refl, refl);
  try_send_full = λ q a h. (tt, ground arith);
  take_one = λ q. (refl, refl);
}

abbrev at : Bytes → Builder
at authority =
    with_defaults
      (record { scheme = some (codes "https"); authority = some authority; path_and_query = none })
      tt

abbrev crates :
    Crates Uri Bytes Bytes
      (Unit {0})
      (Unit {0})
      (Unit {0})
      (Unit {0})
      (Unit {0})
      (Unit {0})
      (Unit {0})
      (Unit {0})
      (DynamicServiceStream (Unit {0}))
      (DynamicServiceStream (Unit {0}))
      ℕ
      ℕ
crates = record {
  pair = λ svc size. size;
  balance = λ d. d;
  ready_oneshot = λ c. ok c;
  hyper = record {
    new = tt;
    http2_initial_stream_window_size = λ b x. b;
    http2_initial_connection_window_size = λ b x. b;
    http2_only = λ b x. b;
    http2_keep_alive_interval = λ b x. b;
    http2_keep_alive_timeout = λ b x. b;
    http2_keep_alive_while_idle = λ b x. b;
    http2_adaptive_window = λ b x. b;
  };
  hyper_connect = λ dial b. b;
  rate = λ limit c. tt;
  concurrency = λ limit c. c;
}

abbrev two : List (ℕ × Builder)
two = (0, at (codes "a")) ∷ (3, at (codes "b")) ∷ []

balance_list_fits_example :
    (channel : Channel ℕ) × (q : Queue) × (balance_list crates mpsc two ≡ done (channel, q))
balance_list_fits_example = balance_list_fits crates mpsc mpsc_laws two (omega arith)

-- The same builder, some number of times.
copies : {A : Type 0} → ℕ → A → List A
copies zero a = []
copies (suc n) a = a ∷ copies n a

length-copies : {A : Type 0} (n : ℕ) (a : A) → length (copies n a) ≡ n
unfolding copies
length-copies zero a = refl
length-copies (suc n) a = omega (arith, length-copies n a)

balance_list_full_example :
    balance_list crates mpsc (at_once (copies 1025 (at (codes "a")))) ≡ panic
balance_list_full_example =
    balance_list_full crates mpsc mpsc_laws (copies 1025 (at (codes "a")))
      (omega (arith, length-copies 1025 (at (codes "a"))))
