-- ===== src/Reconnect/Recovers.antt =====
-- What `Reconnect` of src/service/reconnect.rs makes of a connection that is lost.
use tonic_transport_native.Common.{ℕ, suc, ◌≡◌, refl, ◌∙◌, true, none}
use tonic_transport_native.Runtime.{
  Result, ok, err, done, pending, ready, Future, Service, Resolves, now, later,
}
use tonic_transport_native.Error.{BoxError}
use tonic_transport_native.Reconnect.Machine.{
  connecting, connected, Reconnect, turn, turn_at, on_maker, on_connecting, on_connected, loop,
  poll_ready,
}

module _ {M T F S R G ME SE X : Type 0} (mk : Service M T F ME) (fut : Future F (Result S ME))
    (inner : Service S R G SE) (into : ME → BoxError X) (fuel : ℕ) where
  -- The service is ready at the call of `poll_ready` behind `k` calls that are pending.
  pub data ReadyAfter : Reconnect M T F S X → ℕ → Reconnect M T F S X → Type 0 where
    at_once :
        {r r' : Reconnect M T F S X}
        → poll_ready mk fut inner into fuel r ≡ done (ready (ok tt), r')
        → ReadyAfter r 0 r'
    waiting :
        {r r₁ r' : Reconnect M T F S X} {k : ℕ}
        → poll_ready mk fut inner into fuel r ≡ done (pending, r₁)
        → ReadyAfter r₁ k r'
        → ReadyAfter r (suc k) r'

module _ {M T F S R G ME SE X : Type 0} (mk : Service M T F ME) (fut : Future F (Result S ME))
    (inner : Service S R G SE) (into : ME → BoxError X) (fuel : ℕ) where
  -- The service with a connection that was made.
  abbrev linked : Reconnect M T F S X → S → Reconnect M T F S X
  linked r s = record r { has_been_connected = true; state = connected s }

  loop_made :
      (r : Reconnect M T F S X) (f g : F) (s s' : S)
      → fut.poll f ≡ done (ready (ok s), g)
      → inner.poll_ready s ≡ done (ready (ok tt), s')
      → loop mk fut inner into (suc (suc fuel)) (record r { state = connecting f })
        ≡ done (ready (ok tt), linked r s')
  unfolding loop turn turn_at on_connecting on_connected
  loop_made r f g s s' made alive = rw (made) (rw alive)

  loop_pending :
      (r : Reconnect M T F S X) (f g : F)
      → fut.poll f ≡ done (pending, g)
      → loop mk fut inner into (suc (suc fuel)) (record r { state = connecting f })
        ≡ done (pending, record r { state = connecting g })
  unfolding loop turn turn_at on_connecting
  loop_pending r f g waits = rw waits

  -- The loop goes from a connection that is lost, through the maker, to the future of another.
  loop_lost :
      (r : Reconnect M T F S X) (s s' : S) (x : SE) (m m' : M) (f : F)
      → r.state ≡ connected s
      → inner.poll_ready s ≡ done (ready (err x), s')
      → mk.poll_ready r.mk_service ≡ done (ready (ok tt), m)
      → mk.call m r.target ≡ done (f, m')
      → loop mk fut inner into (suc (suc (suc (suc fuel)))) r
        ≡ loop mk fut inner into
            (suc (suc fuel))
            (record r { mk_service = m'; has_been_connected = true; state = connecting f })
  unfolding loop turn turn_at on_maker on_connected
  loop_lost r s s' x m m' f at lost polled made = rw at (rw lost (rw polled (rw made refl)))

  poll_ready_clear :
      (n : ℕ) (r : Reconnect M T F S X)
      → r.error ≡ none
      → poll_ready mk fut inner into n r ≡ loop mk fut inner into n r
  unfolding poll_ready
  poll_ready_clear n r clear = rw clear refl

  made-ReadyAfter :
      (r : Reconnect M T F S X) (f : F) (k : ℕ) (s s' : S)
      → r.error ≡ none
      → Resolves fut f k (ok s)
      → inner.poll_ready s ≡ done (ready (ok tt), s')
      → ReadyAfter mk fut inner into
          (suc (suc fuel))
          (record r { state = connecting f })
          k
          (linked r s')
  made-ReadyAfter r f _ s s' clear (now _ {g = g} e) alive =
      at_once (
        poll_ready_clear _ (record r { state = connecting f }) clear ∙ loop_made r f g s s' e alive)
  made-ReadyAfter r f _ s s' clear (later _ {g = g} e rest) alive =
      waiting (poll_ready_clear _ (record r { state = connecting f }) clear ∙ loop_pending r f g e)
        (made-ReadyAfter r g _ s s' clear rest alive)

module _ {M T F S R G ME SE X : Type 0} (mk : Service M T F ME) (fut : Future F (Result S ME))
    (inner : Service S R G SE) (into : ME → BoxError X) (fuel : ℕ) where
  -- No error is stored, and the connection is found lost by a call of `poll_ready`, with at least
  -- four turns: if the maker is ready, and the future of the connection that it makes is ready behind `k` polls, with a
  -- connection that is ready itself, then so is the service, behind `k` calls that are pending, and
  -- it holds the new connection.
  pub lost_connection_recovers :
      (r : Reconnect M T F S X) (lost lost' : S) (x : SE) (m m' : M) (f : F) (k : ℕ) (s s' : S)
      → r.error ≡ none
      → r.state ≡ connected lost
      → inner.poll_ready lost ≡ done (ready (err x), lost')
      → mk.poll_ready r.mk_service ≡ done (ready (ok tt), m)
      → mk.call m r.target ≡ done (f, m')
      → Resolves fut f k (ok s)
      → inner.poll_ready s ≡ done (ready (ok tt), s')
      → ReadyAfter mk fut inner into
          (suc (suc (suc (suc fuel))))
          r
          k
          (record r { mk_service = m'; has_been_connected = true; state = connected s' })
  lost_connection_recovers r lost lost' x m m' f k s s' clear at gone polled made resolves alive =
      by k resolves
    where
      first :
          poll_ready mk fut inner into (suc (suc (suc (suc fuel)))) r
          ≡ loop mk fut inner into
              (suc (suc fuel))
              (record r { mk_service = m'; has_been_connected = true; state = connecting f })
      first =
          poll_ready_clear mk fut inner into fuel (suc (suc (suc (suc fuel)))) r clear
          ∙ loop_lost mk fut inner into fuel r lost lost' x m m' f at gone polled made

      by :
          (k : ℕ)
          → Resolves fut f k (ok s)
          → ReadyAfter mk fut inner into
              (suc (suc (suc (suc fuel))))
              r
              k
              (record r { mk_service = m'; has_been_connected = true; state = connected s' })
      by _ (now _ {g = g} e) = at_once (
          first
          ∙ loop_made mk fut inner into fuel
              (record r { mk_service = m'; has_been_connected = true }) f g s s' e alive)
      by _ (later _ {g = g} e rest) =
          waiting
            (first
              ∙ loop_pending mk fut inner into fuel
                  (record r { mk_service = m'; has_been_connected = true }) f g e)
            (made-ReadyAfter mk fut inner into (suc (suc fuel))
              (record r { mk_service = m'; has_been_connected = true }) g _ s s' clear rest alive)
