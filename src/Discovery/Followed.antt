-- ===== src/Discovery/Followed.antt =====
-- The services that a balancer gets from src/service/discover.rs, against the builders that were
-- sent.
use tonic_transport_native.Common.{
  ◌≡◌, refl, ap, ◌∙◌, Bool, Option, none, some, List, [], ◌∷◌, Bytes, if◌then◌else◌,
}
use tonic_transport_native.Runtime.{ok, done, Poll, pending, ready}
use tonic_transport_native.Http.{Headers, ValueLaws, Uris}
use tonic_transport_native.Channel.Builder.{ChannelBuilder}
use tonic_transport_native.Channel.Domain.{Selects}
use tonic_transport_native.Channel.Core.{Crates}
use tonic_transport_native.Channel.Connect.{Dialers, Dialer}
use tonic_transport_native.Connection.Stack.{Connection}
use tonic_transport_native.Discovery.Changes.{
  Change, insert, remove, DynamicServiceStream, on_change, on_received, poll_next,
}
use tonic_transport_native.Discovery.Yielded.{Yields, poll_next-Yields}

-- What stands at a key behind some changes: an insertion replaces it, and a removal takes it away.
abbrev pub held_at : {K V : Type 0} → (K → K → Bool) → K → List (Change K V) → Option V → Option V
held_at eq k [] v = v
held_at eq k (insert j w ∷ cs) v = held_at eq k cs (if eq j k then some w else v)
held_at eq k (remove j ∷ cs) v = held_at eq k cs (if eq j k then none else v)

module _ {K V Rx : Type 0} (poll_recv : Rx → Poll (Option (Change K V)) × Rx) where
  -- The receiver answers some polls, with these messages.
  pub data Receives : Rx → List (Change K V) → Rx → Type 0 where
    no_more : (rx : Rx) → Receives rx [] rx
    message :
        (rx : Rx) {rx₁ rx' : Rx} (c : Change K V) (cs : List (Change K V))
        → poll_recv rx ≡ (ready (some c), rx₁)
        → Receives rx₁ cs rx'
        → Receives rx (c ∷ cs) rx'
    nothing_yet :
        (rx : Rx) {rx₁ rx' : Rx} (cs : List (Change K V))
        → poll_recv rx ≡ (pending, rx₁)
        → Receives rx₁ cs rx'
        → Receives rx cs rx'

module _ {U Sc Au Pq V M C K T H B F I S₁ S Bal D Bf Key Rx X : Type 0} (u : Uris U Sc Au Pq)
    (h : Headers V M) (crates : Crates U Sc Au V (Dialer C K T) H B F I S₁ S Bal D Bf X)
    (dial : Dialers C K T)
    (poll_recv : Rx → Poll (Option (Change Key (ChannelBuilder U C V))) × Rx) where
  -- The stream answers some polls, with these changes.
  pub data Streams
      : DynamicServiceStream Rx
        → List (Change Key (Connection S V Sc Au))
        → DynamicServiceStream Rx
        → Type 0 where
    no_items : (s : DynamicServiceStream Rx) → Streams s [] s
    item :
        (s : DynamicServiceStream Rx) {s₁ s' : DynamicServiceStream Rx}
        (c : Change Key (Connection S V Sc Au)) (cs : List (Change Key (Connection S V Sc Au)))
        → poll_next u h crates dial poll_recv s ≡ done (ready (some (ok c)), s₁)
        → Streams s₁ cs s'
        → Streams s (c ∷ cs) s'
    waiting :
        (s : DynamicServiceStream Rx) {s₁ s' : DynamicServiceStream Rx}
        (cs : List (Change Key (Connection S V Sc Au)))
        → poll_next u h crates dial poll_recv s ≡ done (pending, s₁)
        → Streams s₁ cs s'
        → Streams s cs s'

-- Each builder that is inserted has a domain to verify.
abbrev pub AllSelect :
    {U Sc Au Pq C V Key : Type 0}
    → Uris U Sc Au Pq
    → List (Change Key (ChannelBuilder U C V))
    → Type 0
AllSelect u [] = Unit {0}
AllSelect u (insert k b ∷ cs) = ((d : Bytes) × Selects u b d) × AllSelect u cs
AllSelect u (remove k ∷ cs) = AllSelect u cs

module _ {U Sc Au Pq V M C K T H B F I S₁ S Bal D Bf X : Type 0} (u : Uris U Sc Au Pq)
    (h : Headers V M) (crates : Crates U Sc Au V (Dialer C K T) H B F I S₁ S Bal D Bf X)
    (dial : Dialers C K T) where
  -- There is no builder and no service, or a builder and a connection of it that verifies the
  -- builder's domain and is made when it is first used.
  pub data Serves : Option (ChannelBuilder U C V) → Option (Connection S V Sc Au) → Type 0 where
    absent : Serves none none
    present :
        (b : ChannelBuilder U C V) (d : Bytes) (conn : Connection S V Sc Au)
        → Selects u b d
        → Yields u h crates dial b d conn
        → Serves (some b) (some conn)

  Serves-if :
      (t : Bool) (b b' : Option (ChannelBuilder U C V)) (c c' : Option (Connection S V Sc Au))
      → Serves b c
      → Serves b' c'
      → Serves (if t then b else b') (if t then c else c')
  Serves-if Bool.true b b' c c' p q = p
  Serves-if Bool.false b b' c c' p q = q

module _ {U Sc Au Pq V M C K T H B F I S₁ S Bal D Bf Key Rx X : Type 0} (u : Uris U Sc Au Pq)
    (h : Headers V M) (crates : Crates U Sc Au V (Dialer C K T) H B F I S₁ S Bal D Bf X)
    (dial : Dialers C K T)
    (poll_recv : Rx → Poll (Option (Change Key (ChannelBuilder U C V))) × Rx) where
  abbrev Conn : Type 0
  Conn = Connection S V Sc Au

  -- Whoever applies the changes has at each key what the builders have there, if it was so before.
  abbrev Tracks : List (Change Key (ChannelBuilder U C V)) → List (Change Key Conn) → Type 0
  Tracks cs ds =
      (eq : Key → Key → Bool) (k : Key) (b : Option (ChannelBuilder U C V)) (c : Option Conn)
      → Serves u h crates dial b c
      → Serves u h crates dial (held_at eq k cs b) (held_at eq k ds c)

  step-removal :
      (rx rx' : Rx) (k : Key)
      → poll_recv rx ≡ (ready (some (remove k)), rx')
      → poll_next u h crates dial poll_recv (record { changes = rx })
        ≡ done (ready (some (ok (remove k))), record { changes = rx' })
  unfolding poll_next on_received on_change
  step-removal rx rx' k got = rw got refl

  step-waiting :
      (rx rx' : Rx)
      → poll_recv rx ≡ (pending, rx')
      → poll_next u h crates dial poll_recv (record { changes = rx })
        ≡ done (pending, record { changes = rx' })
  unfolding poll_next on_received
  step-waiting rx rx' got = rw got refl

  streams_track :
      (values : ValueLaws h) (rx rx' : Rx) (cs : List (Change Key (ChannelBuilder U C V)))
      → AllSelect u cs
      → Receives poll_recv rx cs rx'
      → (ds : List (Change Key Conn)) × Streams u h crates dial poll_recv
          (record { changes = rx })
          ds
          (record { changes = rx' })
        × Tracks cs ds
  streams_track values rx _ _ select (no_more _) =
      ([], no_items (record { changes = rx }), λ eq k b c serves. serves)
  streams_track values rx rx' _ select (nothing_yet _ {rx₁ = rx₁} cs got rest) =
      let (ds, streams, tracks) = streams_track values rx₁ rx' cs select rest in
      (ds, waiting (record { changes = rx }) ds (step-waiting rx rx₁ got) streams, tracks)
  streams_track values rx rx' _ select (message _ {rx₁ = rx₁} (remove j) cs got rest) =
      let (ds, streams, tracks) = streams_track values rx₁ rx' cs select rest in
      (
        remove j ∷ ds,
        item (record { changes = rx }) (remove j) ds (step-removal rx rx₁ j got) streams,
        λ eq k b c serves.
            tracks eq k _ _ (Serves-if u h crates dial (eq j k) none b none c absent serves),
      )
  streams_track values rx rx' _ selects (message _ {rx₁ = rx₁} (insert j endpoint) cs got rest) =
      let (d, selected) = selects.0 in
      let (ds, streams, tracks) = streams_track values rx₁ rx' cs selects.1 rest in
      let (conn, polled, yields) =
        poll_next-Yields u h crates dial poll_recv (record { changes = rx }) values j endpoint d
          (ap (λ x. x.0) got) selected in
      (
        insert j conn ∷ ds,
        item (record { changes = rx }) (insert j conn) ds
            (polled
              ∙ ap
                  (λ (x : Poll (Option (Change Key (ChannelBuilder U C V))) × Rx).
                    done (ready (some (ok (insert j conn))), record { changes = x.1 }))
                  got)
            streams,
        λ eq k b c serves. tracks eq k _ _ (
            Serves-if u h crates dial (eq j k) (some endpoint) b (some conn) c
              (present endpoint d conn selected yields) serves),
      )

  -- For any answers of the receiver in which each builder that is inserted has a domain to verify:
  -- the stream answers as many polls, without a panic, with changes of which this holds. Whoever
  -- starts with nothing and applies them, whatever the equality on keys, has at each key a
  -- connection of the builder that the messages leave there, which verifies that builder's domain,
  -- and nothing where they leave none.
  pub stream_follows :
      (values : ValueLaws h) (rx rx' : Rx) (cs : List (Change Key (ChannelBuilder U C V)))
      → AllSelect u cs
      → Receives poll_recv rx cs rx'
      → (ds : List (Change Key Conn)) × Streams u h crates dial poll_recv
          (record { changes = rx })
          ds
          (record { changes = rx' })
        × ((eq : Key → Key → Bool) (k : Key)
            → Serves u h crates dial (held_at eq k cs none) (held_at eq k ds none))
  stream_follows values rx rx' cs select receives =
      let (ds, streams, tracks) = streams_track values rx rx' cs select receives in
      (ds, streams, λ eq k. tracks eq k none none absent)
