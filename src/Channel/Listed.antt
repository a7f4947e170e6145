-- ===== src/Channel/Listed.antt =====
-- Which builders a channel of `Channel::balance_list` (src/channel/mod.rs) is balanced over.
use tonic_transport_native.Common.{
  ℕ, ◌≡◌, refl, subst, Bool, Option, none, some, List, [], ◌∷◌, if◌then◌else◌,
}
use tonic_transport_native.Runtime.{Poll}
use tonic_transport_native.Http.{Headers, ValueLaws, Uris}
use tonic_transport_native.Channel.Builder.{ChannelBuilder}
use tonic_transport_native.Channel.Balance.{inserts}
use tonic_transport_native.Channel.Core.{Crates}
use tonic_transport_native.Channel.Connect.{Dialers, Dialer}
use tonic_transport_native.Connection.Stack.{Connection}
use tonic_transport_native.Discovery.Changes.{Change}
use tonic_transport_native.Discovery.Followed.{
  held_at, Receives, Streams, AllSelect, Serves, stream_follows,
}

abbrev sent : {A : Type 0} → List (ℕ × A) → List A
sent [] = []
sent ((n, a) ∷ rest) = a ∷ sent rest

-- The messages for the builders, in order.
abbrev pub messages :
    {U C V : Type 0} → List (ℕ × ChannelBuilder U C V) → List (Change U (ChannelBuilder U C V))
messages list = sent (inserts list)

-- The last builder of a list that has the URI.
abbrev pub last_at :
    {U C V : Type 0}
    → (U → U → Bool)
    → U
    → List (ℕ × ChannelBuilder U C V)
    → Option (ChannelBuilder U C V)
    → Option (ChannelBuilder U C V)
last_at eq uri [] b = b
last_at eq uri ((n, endpoint) ∷ list) b =
    last_at eq uri list (if eq endpoint.uri uri then some endpoint else b)

held_at-messages :
    {U C V : Type 0} (eq : U → U → Bool) (uri : U) (list : List (ℕ × ChannelBuilder U C V))
    (b : Option (ChannelBuilder U C V))
    → held_at eq uri (messages list) b ≡ last_at eq uri list b
held_at-messages eq uri [] b = refl
held_at-messages eq uri ((n, endpoint) ∷ list) b = held_at-messages eq uri list _

module _ {U Sc Au Pq V M C K T H B F I S₁ S Bal D Bf Rx X : Type 0} (u : Uris U Sc Au Pq)
    (h : Headers V M) (crates : Crates U Sc Au V (Dialer C K T) H B F I S₁ S Bal D Bf X)
    (dial : Dialers C K T)
    (poll_recv : Rx → Poll (Option (Change U (ChannelBuilder U C V))) × Rx) where
  -- If the receiver answers with the messages of `balance_list` for a list of builders that each
  -- have a domain to verify, the stream of services answers as many polls, without a panic, with
  -- changes of which this holds. Whoever starts with nothing and applies them, whatever the equality
  -- on URIs, has at each URI a connection of the last builder of the list that has it, and nothing if
  -- none has: of builders with the same URI all but the last are replaced.
  pub list-Serves :
      (values : ValueLaws h) (rx rx' : Rx) (list : List (ℕ × ChannelBuilder U C V))
      → AllSelect u (messages list)
      → Receives poll_recv rx (messages list) rx'
      → (ds : List (Change U (Connection S V Sc Au))) × Streams u h crates dial poll_recv
          (record { changes = rx })
          ds
          (record { changes = rx' })
        × ((eq : U → U → Bool) (uri : U)
            → Serves u h crates dial (last_at eq uri list none) (held_at eq uri ds none))
  list-Serves values rx rx' list select receives =
      let (ds, streams, serves) =
        stream_follows u h crates dial poll_recv values rx rx' (messages list) select receives in
      (
        ds,
        streams,
        λ eq uri.
            subst (λ b. Serves u h crates dial b (held_at eq uri ds none))
              (held_at-messages eq uri list none) (serves eq uri),
      )
