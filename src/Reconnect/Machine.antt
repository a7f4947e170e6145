-- ===== src/Reconnect/Machine.antt =====
-- `Reconnect` and its response future of src/service/reconnect.rs. The loop of `poll_ready` takes
-- fuel, one unit for each turn.
use tonic_transport_native.Common.{
  ℕ, zero, suc, Bool, true, false, not, ◌||◌, Option, none, some, is_some, if◌then◌else◌,
}
use tonic_transport_native.Runtime.{
  Result, ok, err, map_err, Exec, done, panic, out_of_fuel, ◌>>=◌, Poll, pending, ready, map_poll,
  Future, Service,
}
use tonic_transport_native.Error.{BoxError}

pub data State (F S : Type 0) : Type 0 where
  idle : State F S
  connecting : F → State F S
  connected : S → State F S

pub record Reconnect (M T F S X : Type 0) : Type 0 where
  pub mk_service : M
  pub state : State F S
  pub target : T
  pub error : Option (BoxError X)
  pub has_been_connected : Bool
  pub is_lazy : Bool

unfoldable pub new : {M T F S X : Type 0} → M → T → Bool → Reconnect M T F S X
new mk_service target is_lazy = record {
  mk_service = mk_service;
  state = idle;
  target = target;
  error = none;
  has_been_connected = false;
  is_lazy = is_lazy;
}

-- How one turn of the loop ends: with the next turn, or with the answer of `poll_ready`.
pub data Turn (M T F S X : Type 0) : Type 0 where
  continue : Reconnect M T F S X → Turn M T F S X
  return : Poll (Result (Unit {0}) (BoxError X)) → Reconnect M T F S X → Turn M T F S X

-- The future of a response: that of the connection, or a stored error, which the first poll takes.
pub data Inner (G X : Type 0) : Type 0 where
  future : G → Inner G X
  error : Option (BoxError X) → Inner G X

module _ {M T F S R G ME SE X : Type 0} (mk : Service M T F ME) (fut : Future F (Result S ME))
    (inner : Service S R G SE) (into : ME → BoxError X) where
  abbrev Client : Type 0
  Client = Reconnect M T F S X

  -- `State::Idle`, by the answer of the maker's `poll_ready`.
  unfoldable pub on_maker : Poll (Result (Unit {0}) ME) → Client → Exec (Turn M T F S X)
  on_maker pending r = done (return pending r)
  on_maker (ready (err e)) r = done (return (ready (err (into e))) r)
  on_maker (ready (ok _)) r = do
    made ← mk.call r.mk_service r.target
    done (continue (record r { mk_service = made.1; state = connecting made.0 }))

  -- `State::Connecting`, by the answer of the future of the connection, which is left at `f`. The
  -- early return leaves `self.state` alone; the `break` stores the state and ends the loop.
  unfoldable pub on_connecting : Poll (Result S ME) → F → Client → Turn M T F S X
  on_connecting pending f r = return pending (record r { state = connecting f })
  on_connecting (ready (ok service)) f r = continue (record r { state = connected service })
  on_connecting (ready (err e)) f r =
      if not (r.has_been_connected || r.is_lazy)
      then return (ready (err (into e))) (record r { state = connecting f })
      else return (ready (ok tt)) (record r { error = some (into e); state = idle })

  -- `State::Connected`, by the answer of the connection's `poll_ready`, which is left at `s`.
  unfoldable pub on_connected : Poll (Result (Unit {0}) SE) → S → Client → Turn M T F S X
  on_connected pending s r =
      return pending (record r { has_been_connected = true; state = connected s })
  on_connected (ready (ok _)) s r =
      return (ready (ok tt)) (record r { has_been_connected = true; state = connected s })
  on_connected (ready (err _)) s r = continue (record r { has_been_connected = true; state = idle })

  -- The `match self.state`.
  unfoldable pub turn_at : State F S → Client → Exec (Turn M T F S X)
  turn_at idle r = do
    answer ← mk.poll_ready r.mk_service
    on_maker answer.0 (record r { mk_service = answer.1 })
  turn_at (connecting f) r = do answer ← fut.poll f; done (on_connecting answer.0 answer.1 r)
  turn_at (connected s) r = do answer ← inner.poll_ready s; done (on_connected answer.0 answer.1 r)

  unfoldable pub turn : Client → Exec (Turn M T F S X)
  turn r = turn_at r.state r

  unfoldable pub loop : ℕ → Client → Exec (Poll (Result (Unit {0}) (BoxError X)) × Client)
  loop zero r = out_of_fuel
  loop (suc fuel) r = do
    t ← turn r
    elim t [ continue r' ↦ loop fuel r' | return p r' ↦ done (p, r') ]

  unfoldable pub poll_ready : ℕ → Client → Exec (Poll (Result (Unit {0}) (BoxError X)) × Client)
  poll_ready fuel r = if is_some r.error then done (ready (ok tt), r) else loop fuel r

  -- The `match self.state` of `call`.
  unfoldable pub call_at : State F S → Client → R → Exec (Inner G X × Client)
  call_at (connected s) r request = do
    answer ← inner.call s request
    done (future answer.0, record r { state = connected answer.1 })
  call_at idle r request = panic
  call_at (connecting f) r request = panic

  -- `call`, by the stored error, which is taken.
  unfoldable pub call_with : Option (BoxError X) → Client → R → Exec (Inner G X × Client)
  call_with (some e) r request = done (error (some e), record r { error = none })
  call_with none r request = call_at r.state r request

  unfoldable pub call : Client → R → Exec (Inner G X × Client)
  unfolding call_with call_at
  call r request = call_with r.error r request

  -- The loop's fuel is a parameter of the service.
  unfoldable pub service : ℕ → Service Client R (Inner G X) (BoxError X)
  service fuel = record { poll_ready = poll_ready fuel; call = call }

module _ {G A SE X : Type 0} (fut : Future G (Result A SE)) (into : SE → BoxError X) where
  unfoldable pub poll : Inner G X → Exec (Poll (Result A (BoxError X)) × Inner G X)
  poll (future f) = do answer ← fut.poll f; done (map_poll (map_err into) answer.0, future answer.1)
  poll (error (some e)) = done (ready (err e), error none)
  poll (error none) = panic

  unfoldable pub response_future : Future (Inner G X) (Result A (BoxError X))
  response_future = record { poll = poll }
