-- ===== src/Channel/Room.antt =====
-- How many builders `Channel::balance_list` of src/channel/mod.rs takes.
use tonic_transport_native.Common.{
  ℕ, zero, suc, ◌+◌, ◌-◌, ◌≤◌, ◌<◌, ◌≡◌, refl, ap, List, [], ◌∷◌, length, map, arith,
}
use native.Mathlib.Decide.{dec_lt}
use tonic_transport_native.Runtime.{ok, err, done, panic}
use tonic_transport_native.Channel.Builder.{ChannelBuilder}
use tonic_transport_native.Channel.Core.{Channel, Crates, balance, default_buffer_size}
use tonic_transport_native.Channel.Balance.{
  Mpsc, takes, send_all, inserts, balance_channel, balance_list,
}
use tonic_transport_native.Discovery.Changes.{Change, insert, DynamicServiceStream}
use tonic_transport_native.Discovery.Changes as Changes

-- The documented behaviour of a bounded channel whose receiver is there: by the number of messages
-- in it (`len`) and its capacity (`cap`).
pub record MpscLaws {Q Rx A E : Type 0} (mpsc : Mpsc Q Rx A E) : Type 0 where
  pub len : Q → ℕ
  pub cap : Q → ℕ
  pub channel_new :
      (n : ℕ)
      → 0 < n
      → (q : Q) × (rx : Rx) × (mpsc.channel n ≡ done (q, rx)) × (len q ≡ 0) × (cap q ≡ n)
  pub try_send_room :
      (q : Q) (a : A)
      → len q < cap q
      → (q' : Q) × (mpsc.try_send q a ≡ ok q') × (len q' ≡ suc (len q)) × (cap q' ≡ cap q)
  pub try_send_full : (q : Q) (a : A) → cap q ≤ len q → (e : E) × (mpsc.try_send q a ≡ err e)
  pub take_one : (q : Q) → (len (mpsc.take q) ≡ len q - 1) × (cap (mpsc.take q) ≡ cap q)

-- Nothing is taken before any message is sent.
abbrev pub at_once : {B : Type 0} → List B → List (ℕ × B)
at_once [] = []
at_once (b ∷ bs) = (0, b) ∷ at_once bs

module _ {Q Rx A E : Type 0} (mpsc : Mpsc Q Rx A E) (laws : MpscLaws mpsc) where
  takes_room :
      (n : ℕ) (q : Q)
      → (laws.len (takes mpsc n q) ≤ laws.len q) × (laws.cap (takes mpsc n q) ≡ laws.cap q)
  takes_room zero q = omega arith
  takes_room (suc n) q = omega (arith, takes_room n (mpsc.take q), laws.take_one q)

  send_all_fits :
      (list : List (ℕ × A)) (q : Q)
      → laws.len q + length list ≤ laws.cap q
      → (q' : Q) × (send_all mpsc list q ≡ done q')
  unfolding send_all
  send_all_fits [] q room = (q, refl)
  send_all_fits ((n, a) ∷ list) q room =
      let (fewer, same) = takes_room n q in
      let (q₁, sent, more, kept) = laws.try_send_room (takes mpsc n q) a (omega arith) in
      let (q', rest) = send_all_fits list q₁ (omega arith) in (q', rw sent rest)

  send_all_full :
      (list : List A) (q : Q)
      → laws.len q ≤ laws.cap q
      → laws.cap q < laws.len q + length list
      → send_all mpsc (at_once list) q ≡ panic
  unfolding send_all
  send_all_full [] q fits full = absurd (omega arith)
  send_all_full (a ∷ list) q fits full = elim (dec_lt (laws.len q) (laws.cap q)) [
    | yes room ↦
        let (q₁, sent, more, kept) = laws.try_send_room q a room in
        rw sent (send_all_full list q₁ (omega arith) (omega arith))
    | no none_left ↦ let (e, refused) = laws.try_send_full q a (omega arith) in rw refused
  ]

length-inserts :
    {U C V : Type 0} (list : List (ℕ × ChannelBuilder U C V)) → length (inserts list) ≡ length list
length-inserts [] = refl
length-inserts ((n, b) ∷ list) = ap suc (length-inserts list)

abbrev message : {U C V : Type 0} → ChannelBuilder U C V → Change U (ChannelBuilder U C V)
message b = insert b.uri b

inserts-at_once :
    {U C V : Type 0} (bs : List (ChannelBuilder U C V))
    → inserts (at_once bs) ≡ at_once (map message bs)
inserts-at_once [] = refl
inserts-at_once (b ∷ bs) = ap (λ t. (0, message b) ∷ t) (inserts-at_once bs)

length-message :
    {U C V : Type 0} (bs : List (ChannelBuilder U C V)) → length (map message bs) ≡ length bs
length-message [] = refl
length-message (b ∷ bs) = ap suc (length-message bs)

module _ {U Sc Au V K H B F I S₁ S Bal Bf Q Rx C E X : Type 0}
    (crates : Crates U Sc Au V K H B F I S₁ S Bal (DynamicServiceStream Rx) Bf X)
    (mpsc : Mpsc Q Rx (Change U (ChannelBuilder U C V)) E) (laws : MpscLaws mpsc) where
  -- Up to 1024 builders are taken, whatever the receiver takes in between: no send panics.
  pub balance_list_fits :
      (list : List (ℕ × ChannelBuilder U C V))
      → length list ≤ 1024
      → (channel : Channel Bf) × (q : Q) × (balance_list crates mpsc list ≡ done (channel, q))
  unfolding balance_list balance_channel default_buffer_size
  balance_list_fits list short =
      let (q, rx, made, empty, room) = laws.channel_new 1024 (omega arith) in
      let (q', sent) =
        send_all_fits mpsc laws (inserts list) q (omega (arith, length-inserts list)) in
      (balance crates (Changes.new rx) default_buffer_size, q', rw made (rw sent refl))

  -- Of more than 1024 builders one is refused and the list panics, if the receiver takes nothing in
  -- between, as where its task runs on the thread that sends them.
  pub balance_list_full :
      (bs : List (ChannelBuilder U C V))
      → 1024 < length bs
      → balance_list crates mpsc (at_once bs) ≡ panic
  unfolding balance_list balance_channel default_buffer_size
  balance_list_full bs long =
      let (q, rx, made, empty, room) = laws.channel_new 1024 (omega arith) in
      let full =
        send_all_full mpsc laws (map message bs) q (omega arith)
          (omega (arith, length-message bs)) in
      rw made (rw (inserts-at_once bs) (rw full))
