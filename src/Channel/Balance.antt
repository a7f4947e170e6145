-- ===== src/Channel/Balance.antt =====
-- `Channel::balance_list` and `Channel::balance_channel` of src/channel/mod.rs.
use tonic_transport_native.Common.{ℕ, zero, suc, List, [], ◌∷◌}
use tonic_transport_native.Runtime.{Result, Exec, done, ◌>>=◌, unwrap}
use tonic_transport_native.Channel.Builder.{ChannelBuilder}
use tonic_transport_native.Channel.Core.{Channel, Crates, balance, default_buffer_size}
use tonic_transport_native.Discovery.Changes.{Change, insert, DynamicServiceStream}
use tonic_transport_native.Discovery.Changes as Changes

-- What is used of tokio's bounded channel of messages `A`, in the state `Q`: `channel`, which also
-- gives the receiver, `try_send`, and what the receiver does, which is to take one message.
pub record Mpsc (Q Rx A E : Type 0) : Type 0 where
  pub channel : ℕ → Exec (Q × Rx)
  pub try_send : Q → A → Result Q E
  pub take : Q → Q

module _ {Q Rx A E : Type 0} (mpsc : Mpsc Q Rx A E) where
  abbrev pub takes : ℕ → Q → Q
  takes zero q = q
  takes (suc n) q = takes n (mpsc.take q)

  -- The `for_each`. A number stands for the messages that the receiver, which runs in a task of its
  -- own, takes before the message is sent.
  unfoldable pub send_all : List (ℕ × A) → Q → Exec Q
  send_all [] q = done q
  send_all ((n, a) ∷ list) q = do q' ← unwrap (mpsc.try_send (takes n q) a); send_all list q'

-- The messages for the builders: each is inserted by its URI.
abbrev pub inserts :
    {U C V : Type 0} → List (ℕ × ChannelBuilder U C V) → List (ℕ × Change U (ChannelBuilder U C V))
inserts [] = []
inserts ((n, endpoint) ∷ list) = (n, insert endpoint.uri endpoint) ∷ inserts list

module _ {U Sc Au V K H B F I S₁ S Bal Bf Q Rx C E X : Type 0}
    (crates : Crates U Sc Au V K H B F I S₁ S Bal (DynamicServiceStream Rx) Bf X) where
  unfoldable pub balance_channel :
      {Key : Type 0} → Mpsc Q Rx (Change Key (ChannelBuilder U C V)) E → ℕ → Exec (Channel Bf × Q)
  unfolding default_buffer_size
  balance_channel mpsc capacity = do
    made ← mpsc.channel capacity
    done (balance crates (Changes.new made.1) default_buffer_size, made.0)

  unfoldable pub balance_list :
      Mpsc Q Rx (Change U (ChannelBuilder U C V)) E
      → List (ℕ × ChannelBuilder U C V)
      → Exec (Channel Bf × Q)
  unfolding balance_channel default_buffer_size
  balance_list mpsc list = do
    made ← balance_channel mpsc default_buffer_size
    q ← send_all mpsc (inserts list) made.1
    done (made.0, q)
