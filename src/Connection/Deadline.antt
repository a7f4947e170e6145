-- ===== src/Connection/Deadline.antt =====
-- How long a client waits for an answer over src/service/connection.rs, with a timeout set.
use mathlib.Core.Option
use tonic_transport_native.Common.{
  ℕ, suc, ◌≤◌, ◌≡◌, refl, sym, subst, ap, ◌∙◌, Option, none, some, Bytes, arith,
}
use tonic_transport_native.Runtime.{
  Result, err, map_err, done, Future, Service, Resolves, now, later, Waits,
}
use tonic_transport_native.Error.{BoxError, timeout_expired}
use tonic_transport_native.Duration.{Duration, IsNormal, as_nanos}
use tonic_transport_native.Http.{Headers, TextLaws, MapLaws, ValueLaws, Uris, UriLaws, Request}
use tonic_transport_native.Channel.Builder.{ChannelBuilder}
use tonic_transport_native.GrpcTimeout.Timer.{TimerLaws, Waits-less}
use tonic_transport_native.GrpcTimeout.Deadline.{IsShortest, AllNormal}
use tonic_transport_native.GrpcTimeout.Race.{future_expired}
use tonic_transport_native.GrpcTimeout.Middleware as GrpcTimeout
use tonic_transport_native.AddOrigin.Middleware as AddOrigin
use tonic_transport_native.Connection.Stack.{Connection, origin_of, call, stack}
use tonic_transport_native.Connection.Sent.{Sent, call-Sent}

-- A future in a box resolves as the future does, with its error boxed.
pub awaiting-Resolves :
    {F A E X : Type 0} (fut : Future F (Result A E)) (into : E → BoxError X) (f : F) (k : ℕ)
    (r : Result A E)
    → Resolves fut f k r
    → Resolves (AddOrigin.future fut into) (AddOrigin.awaiting f) k (map_err into r)
unfolding AddOrigin.future AddOrigin.poll
awaiting-Resolves fut into f _ r (now _ e) = now _ {g = AddOrigin.finished} (rw e)
awaiting-Resolves fut into f _ r (later _ {g = g} e rest) =
    later _ {g = AddOrigin.awaiting g} (rw e) (awaiting-Resolves fut into g _ r rest)

-- With a timeout there is a timer, for no more than the timeout.
shortest_within :
    (d : Duration) (client server allowed : Option Duration)
    → server ≡ some d
    → IsShortest client server allowed
    → (x : Duration) × (allowed ≡ some x) × (as_nanos x ≤ as_nanos d)
shortest_within d client server none set shortest = let unset = shortest.unset.0 refl in cc
shortest_within d client server (some x) set shortest =
    (x, refl, shortest.within_server x d refl set)

module _ {U Sc Au Pq V M P B S F A E T X : Type 0} (u : Uris U Sc Au Pq) (h : Headers V M)
    (sleep : Duration → T) (timer : Future T (Unit {0})) (timers : TimerLaws timer sleep)
    (detail : Option Au → Option Sc → Bytes) (svc : Service S (Request U M P B) F E)
    (fut : Future F (Result A E)) (into : E → BoxError X) where
  -- A request over a connection is answered with the error `TimeoutExpired`, no later than a timer
  -- for `d` is ready.
  pub record Expired {C : Type 0} (endpoint : ChannelBuilder U C V) (below : S)
      (req : Request U M P B) (d : Duration) : Type 0 where
    pub conn : Connection S V Sc Au
    pub built : stack u h endpoint below ≡ done conn
    pub response : AddOrigin.BoxFuture (GrpcTimeout.ResponseFuture F T) X
    pub after : Connection S V Sc Au
    pub called : call h sleep svc into u detail conn req ≡ done (response, after)
    pub polls : ℕ
    pub in_time : polls ≤ timers.fires (as_nanos d)
    pub expired :
        Resolves
          (AddOrigin.future (GrpcTimeout.future fut timer into) (λ e. e))
          response
          polls
          (err timeout_expired)

  module _ {C : Type 0} (texts : TextLaws h) (maps : MapLaws h) (values : ValueLaws h)
      (laws : UriLaws u) (endpoint : ChannelBuilder U C V) (below : S)
      (answer : Request U M P B → F × S) where
    Sent-Expired :
        (req : Request U M P B) (d : Duration) (conn : Connection S V Sc Au)
        → endpoint.timeout ≡ some d
        → ((r : Request U M P B) → Waits fut (answer r).0 (suc (timers.fires (as_nanos d))))
        → stack u h endpoint below ≡ done conn
        → Sent u h sleep detail svc into endpoint below answer conn req
        → Expired endpoint below req d
    Sent-Expired req d conn set waits built c =
        let (x, allowed, within) =
          shortest_within d c.client endpoint.timeout c.allowed set c.shortest in
        let sooner = timers.fires_later (as_nanos x) (as_nanos d) within in
        let f = (answer c.sent).0 in
        record {
          conn = conn;
          built = built;
          response = AddOrigin.awaiting (record { inner = f; sleep = some (sleep x) });
          after = c.after;
          called =
              c.result
              ∙ ap
                  (λ o. done (
                    AddOrigin.awaiting (record { inner = f; sleep = Option.map sleep o }),
                    c.after,
                  ))
                  allowed;
          polls = timers.fires (as_nanos x);
          in_time = sooner;
          expired =
              awaiting-Resolves (GrpcTimeout.future fut timer into) (λ e. e) _ _
                (err timeout_expired)
                (future_expired fut timer into f (sleep x) (timers.fires (as_nanos x))
                  (Waits-less fut _ _ _ (omega arith) (waits c.sent)) (timers.sleeps x));
        }

    -- A builder with a timeout, and with an origin (or else a URI) that has a scheme and an
    -- authority: a request that has a path, which the services below take, and whose future is not
    -- ready by the time that a timer for the timeout is, is answered with `TimeoutExpired` by then.
    pub deadline_kept :
        (req : Request U M P B) (s : Sc) (a : Au) (p : Pq) (d : Duration)
        → (u.into_parts (origin_of endpoint)).scheme ≡ some s
        → (u.into_parts (origin_of endpoint)).authority ≡ some a
        → (u.into_parts req.uri).path_and_query ≡ some p
        → endpoint.timeout ≡ some d
        → IsNormal d
        → ((r : Request U M P B) → svc.call below r ≡ done (answer r))
        → ((r : Request U M P B) → Waits fut (answer r).0 (suc (timers.fires (as_nanos d))))
        → Expired endpoint below req d
    deadline_kept req s a p d es ea ep set normal taken waits =
        let (conn, built, c) =
          call-Sent u h sleep detail svc into texts maps values laws endpoint below answer req s a p
            es ea ep (subst AllNormal (sym set) normal) taken in
        Sent-Expired req d conn set waits built c
