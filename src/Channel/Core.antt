-- ===== src/Channel/Core.antt =====
-- `Channel` of src/channel/mod.rs: a connection, or a balancer, behind a buffer.
use tonic_transport_native.Common.{unwrap_or, ℕ, Option}
use tonic_transport_native.Runtime.{Result, map_ok, map_err, Exec, done, ◌>>=◌, Poll, map_poll}
use tonic_transport_native.Error.{Error, from_source, BoxError}
use tonic_transport_native.Duration.{Duration}
use tonic_transport_native.Http.{Headers, Uris}
use tonic_transport_native.Channel.Builder.{ChannelBuilder}
use tonic_transport_native.Connection.Settings.{HyperBuilder}
use tonic_transport_native.Connection.Stack.{Connection}
use tonic_transport_native.Connection.Stack as Connection
use tonic_transport_native.Reconnect.Machine.{Reconnect}

unfoldable pub default_buffer_size : ℕ
default_buffer_size = 1024

-- tower's `Either` of a connection and a balancer.
pub data Svc (Conn Bal : Type 0) : Type 0 where
  direct : Conn → Svc Conn Bal
  balanced : Bal → Svc Conn Bal

pub record Channel (Bf : Type 0) : Type 0 where
  pub svc : Bf

-- What the source uses of other crates to make a channel: tower's `Buffer::pair`, whose worker is
-- spawned, its `Balance::new` and `ready_oneshot`, and what a connection is made of.
pub record Crates (U Sc Au V K H B F I S₁ S Bal D Bf X : Type 0) : Type 0 where
  pub pair : Svc (Connection S V Sc Au) Bal → ℕ → Bf
  pub balance : D → Bal
  pub ready_oneshot : Connection S V Sc Au → Result (Connection S V Sc Au) (BoxError X)
  pub hyper : HyperBuilder B
  pub hyper_connect : K → B → H
  pub rate : Option (ℕ × Duration) → Reconnect H U F I X → S₁
  pub concurrency : Option ℕ → S₁ → S

unfoldable pub balance :
    {U Sc Au V K H B F I S₁ S Bal D Bf X : Type 0}
    → Crates U Sc Au V K H B F I S₁ S Bal D Bf X
    → D
    → ℕ
    → Channel Bf
balance crates discover buffer_size = record {
  svc = crates.pair (balanced (crates.balance discover)) buffer_size;
}

module _ {U Sc Au Pq V M K H B F I S₁ S Bal D Bf X : Type 0} (u : Uris U Sc Au Pq) (h : Headers V M)
    (crates : Crates U Sc Au V K H B F I S₁ S Bal D Bf X) where
  unfoldable pub new : {C : Type 0} → K → ChannelBuilder U C V → Exec (Channel Bf)
  unfolding default_buffer_size
  new make endpoint = do
    let buffer_size = unwrap_or endpoint.buffer_size default_buffer_size
    svc ←
        Connection.lazy u h crates.hyper crates.hyper_connect crates.rate crates.concurrency make
          endpoint
    done (record { svc = crates.pair (direct svc) buffer_size })

  unfoldable pub connect :
      {C : Type 0} → K → ChannelBuilder U C V → Exec (Result (Channel Bf) (Error X))
  unfolding default_buffer_size
  connect make endpoint = do
    let buffer_size = unwrap_or endpoint.buffer_size default_buffer_size
    made ←
        Connection.connect u h crates.hyper crates.hyper_connect crates.rate crates.concurrency
          crates.ready_oneshot make endpoint
    done (
        map_ok (λ svc. record { svc = crates.pair (direct svc) buffer_size })
          (map_err from_source made))

-- The `Service` of a channel, by the answers of the buffer.
module _ {Bf X : Type 0} where
  unfoldable pub poll_ready :
      (Bf → Poll (Result (Unit {0}) (BoxError X)) × Bf)
      → Channel Bf
      → Poll (Result (Unit {0}) (Error X)) × Channel Bf
  poll_ready ready s =
      let answer = ready s.svc in
      (map_poll (map_err from_source) answer.0, record { svc = answer.1 })

-- The future of a response, which is that of the buffer.
pub record ResponseFuture (G : Type 0) : Type 0 where
  pub inner : G

unfoldable pub call :
    {Bf R G : Type 0} → (Bf → R → G × Bf) → Channel Bf → R → ResponseFuture G × Channel Bf
call buffer_call s request =
    let answer = buffer_call s.svc request in
    (record { inner = answer.0 }, record { svc = answer.1 })

unfoldable pub poll :
    {G A X : Type 0}
    → (G → Poll (Result A (BoxError X)) × G)
    → ResponseFuture G
    → Poll (Result A (Error X)) × ResponseFuture G
poll buffer_poll s =
    let answer = buffer_poll s.inner in
    (map_poll (map_err from_source) answer.0, record { inner = answer.1 })
