-- ===== src/Reconnect/Reachable.antt =====
-- The states that the service of src/service/reconnect.rs can be in, by the calls that lead there.
use tonic_transport_native.Common.{ℕ, ◌≡◌, refl, ◌∙◌, Bool, arith}
use tonic_transport_native.Runtime.{Result, ok, done, Poll, ready, Future, Service}
use tonic_transport_native.Error.{BoxError}
use tonic_transport_native.Reconnect.Machine.{Reconnect, Inner, new, poll_ready, call}
use tonic_transport_native.Reconnect.Runs.{IsValid, poll_ready-Settled}
use tonic_transport_native.Reconnect.Contract.{new-IsValid, Served, poll_ready-call, call-IsValid}

module _ {M T F S R G ME SE X : Type 0} (mk : Service M T F ME) (fut : Future F (Result S ME))
    (inner : Service S R G SE) (into : ME → BoxError X) (m : M) (t : T) (is_lazy : Bool) where
  -- The service is new, or has come out of a call of `poll_ready` or of `call`, in any order and
  -- whatever `poll_ready` answered.
  pub data Reachable : Reconnect M T F S X → Type 0 where
    fresh : Reachable (new m t is_lazy)
    polled :
        {r r' : Reconnect M T F S X} (fuel : ℕ) (p : Poll (Result (Unit {0}) (BoxError X)))
        → Reachable r
        → poll_ready mk fut inner into fuel r ≡ done (p, r')
        → Reachable r'
    called :
        {r r' : Reconnect M T F S X} (request : R) (g : Inner G X)
        → Reachable r
        → call mk fut inner into r request ≡ done (g, r')
        → Reachable r'

  pub record Kept (r : Reconnect M T F S X) : Type 0 where
    pub valid : IsValid r
    pub same_target : r.target ≡ t
    pub same_laziness : r.is_lazy ≡ is_lazy

  call_fields :
      (r r' : Reconnect M T F S X) (request : R) (g : Inner G X)
      → call mk fut inner into r request ≡ done (g, r')
      → (r'.target ≡ r.target) × (r'.is_lazy ≡ r.is_lazy)
  unfolding call
  call_fields r r' request g h = ground arith

  Reachable-Kept : {r : Reconnect M T F S X} → Reachable r → Kept r
  Reachable-Kept fresh = record {
    valid = new-IsValid m t is_lazy;
    same_target = unfold new in refl;
    same_laziness = unfold new in refl;
  }
  Reachable-Kept (polled {r} {r'} fuel p reached h) =
      let k = Reachable-Kept reached in
      let s = poll_ready-Settled mk fut inner into fuel r r' p k.valid h in
      record {
        valid = s.valid;
        same_target = s.same_target ∙ k.same_target;
        same_laziness = s.same_laziness ∙ k.same_laziness;
      }
  Reachable-Kept (called {r} {r'} request g reached h) =
      let k = Reachable-Kept reached in
      let (same_target, same_laziness) = call_fields r r' request g h in
      record {
        valid = call-IsValid mk fut inner into r r' request g k.valid h;
        same_target = same_target ∙ k.same_target;
        same_laziness = same_laziness ∙ k.same_laziness;
      }

  -- In every state that can be reached: behind a `Ready(Ok)` of `poll_ready` the panic "service not
  -- ready" of `call` does not happen; the call hands out the stored error and takes it, or calls the
  -- connection. The state is valid, and the target and the laziness are those of the start.
  pub reachable_call :
      (fuel : ℕ) (r r' : Reconnect M T F S X) (request : R)
      → Reachable r
      → poll_ready mk fut inner into fuel r ≡ done (ready (ok tt), r')
      → Served mk fut inner into r' request (call mk fut inner into r' request) × Kept r'
  reachable_call fuel r r' request reached h = (
    poll_ready-call mk fut inner into fuel r r' request (Reachable-Kept reached).valid h,
    Reachable-Kept (polled fuel (ready (ok tt)) reached h),
  )
