-- ===== src/Connection/Usable.antt =====
-- The contract between `poll_ready` and `call` of src/service/connection.rs, through all of its
-- layers and through the limits of tower (parameters) down to `Reconnect`.
use mathlib.Core.Option
use tonic_transport_native.Common.{◌⊎◌, sym, subst, ℕ, ◌≡◌, refl, Option, some, Bytes}
use tonic_transport_native.Runtime.{
  Result, ok, err, Exec, done, panic, out_of_fuel, Poll, pending, ready, Future, Service,
}
use tonic_transport_native.Error.{BoxError}
use tonic_transport_native.Duration.{Duration}
use tonic_transport_native.Http.{Headers, TextLaws, Uris, UriLaws, Request}
use tonic_transport_native.GrpcTimeout.Parse.{try_parse_grpc_timeout}
use tonic_transport_native.GrpcTimeout.Header.{try_parse_grpc_timeout_total}
use tonic_transport_native.GrpcTimeout.Middleware as GrpcTimeout
use tonic_transport_native.AddOrigin.Middleware as AddOrigin
use tonic_transport_native.UserAgent.Middleware as UserAgent
use tonic_transport_native.Reconnect.Machine.{State, Reconnect, Inner}
use tonic_transport_native.Reconnect.Machine as Reconnect
use tonic_transport_native.Reconnect.Runs.{IsValid, poll_ready-Settled}
use tonic_transport_native.Reconnect.Contract.{
  Served, with_error, with_connection, poll_ready-call, call-IsValid,
}
use tonic_transport_native.Connection.Stack.{Connection, agent, timed, poll_ready, call}

abbrev pub below : {S V Sc Au : Type 0} → Connection S V Sc Au → S
below c = c.inner.inner.inner.inner

-- The connection with another state below its timeout.
abbrev pub with_below : {S V Sc Au : Type 0} → Connection S V Sc Au → S → Connection S V Sc Au
with_below c s = record {
  inner = record {
    inner = record {
      inner = record { inner = s; server_timeout = c.inner.inner.inner.server_timeout };
      user_agent = c.inner.inner.user_agent;
    };
    scheme = c.inner.scheme;
    authority = c.inner.authority;
  };
}

-- The documented behaviour of tower's limits (`limits`, which hold the service `svc` at `held`): one
-- that says it is ready has polled what it holds, which said so, and then takes a request and
-- hands it on; whatever it says, it has at most polled what it holds.
pub record LimitLaws {L S R G F E : Type 0} (limits : Service L R G E) (svc : Service S R F E)
    (held : L → S) : Type 0 where
  pub poll_ready-through :
      (l l' : L)
      → limits.poll_ready l ≡ done (ready (ok tt), l')
      → svc.poll_ready (held l) ≡ done (ready (ok tt), held l')
  pub poll_ready-kept :
      (l l' : L) (p : Poll (Result (Unit {0}) E))
      → limits.poll_ready l ≡ done (p, l')
      → (held l' ≡ held l)
        ⊎ ((q : Poll (Result (Unit {0}) E)) × (svc.poll_ready (held l) ≡ done (q, held l')))
  pub call-through :
      (l l' : L) (req : R) (f : F) (s : S)
      → limits.poll_ready l ≡ done (ready (ok tt), l')
      → svc.call (held l') req ≡ done (f, s)
      → (g : G) × (l'' : L) × (limits.call l' req ≡ done (g, l'')) × (held l'' ≡ s)

module _ {L V Sc Au M T F S X : Type 0} (held : L → Reconnect M T F S X) where
  -- A connection can serve requests: its origin has a scheme and an authority, and its service that
  -- connects is valid.
  pub record IsUsable (c : Connection L V Sc Au) : Type 0 where
    pub has_scheme : (s : Sc) × (c.inner.scheme ≡ some s)
    pub has_authority : (a : Au) × (c.inner.authority ≡ some a)
    pub valid : IsValid (held (below c))

module _ {U Sc Au Pq V HM P B L G Tm X : Type 0} (u : Uris U Sc Au Pq) (h : Headers V HM)
    (sleep : Duration → Tm) (detail : Option Au → Option Sc → Bytes)
    (limits : Service L (Request U HM P B) G (BoxError X)) where
  abbrev Conn : Type 0
  Conn = Connection L V Sc Au

  -- What `poll_ready` makes of the answer from below.
  answered :
      (c : Conn) (m : Exec (Poll (Result (Unit {0}) (BoxError X)) × L))
      → limits.poll_ready (below c) ≡ m
      → (c' : Conn) → poll_ready h sleep limits (λ e. e) u detail c ≡ done (ready (ok tt), c')
      → (l : L) × (m ≡ done (ready (ok tt), l)) × (c' ≡ with_below c l)
  unfolding poll_ready agent timed AddOrigin.poll_ready UserAgent.service UserAgent.poll_ready
      GrpcTimeout.service GrpcTimeout.poll_ready
  answered c (done (ready (ok _), l)) e c' h' = let k = rw e at h' in (l, refl, cc)
  answered c (done (ready (err x), l)) e c' h' = let k = rw e at h' in cc
  answered c (done (pending, l)) e c' h' = let k = rw e at h' in cc
  answered c panic e c' h' = let k = rw e at h' in cc
  answered c out_of_fuel e c' h' = let k = rw e at h' in cc

  -- The headers of a request with the `user-agent` of the connection.
  abbrev stamped : Conn → Request U HM P B → HM
  stamped c req = h.insert req.headers UserAgent.user_agent_name c.inner.inner.user_agent

  abbrev answer_of :
      Conn
      → Result (Option Duration) V
      → G
      → AddOrigin.BoxFuture (GrpcTimeout.ResponseFuture G Tm) X
  answer_of c parsed g = AddOrigin.awaiting (record {
    inner = g;
    sleep = Option.map sleep (
        GrpcTimeout.timeout_duration (GrpcTimeout.client_timeout_of parsed)
          c.inner.inner.inner.server_timeout);
  })

  -- What a call makes of the answers on its way down.
  called_through :
      (c : Conn) (req : Request U HM P B) (s : Sc) (a : Au) (p : Pq) (uri : U)
      (parsed : Result (Option Duration) V) (g : G) (l : L)
      → c.inner.scheme ≡ some s
      → c.inner.authority ≡ some a
      → (u.into_parts req.uri).path_and_query ≡ some p
      → u.from_parts (record { scheme = some s; authority = some a; path_and_query = some p })
        ≡ some uri
      → try_parse_grpc_timeout h (stamped c req) ≡ done parsed
      → limits.call (below c) (record req { uri = uri; headers = stamped c req }) ≡ done (g, l)
      → call h sleep limits (λ e. e) u detail c req ≡ done (answer_of c parsed g, with_below c l)
  unfolding call agent timed AddOrigin.call AddOrigin.forward UserAgent.service UserAgent.call
      GrpcTimeout.service GrpcTimeout.call
  called_through c req s a p uri parsed g l has_s has_a path built total called =
      simp (has_s, has_a, path, built, total, called)

module _ {U Sc Au Pq V HM P B L G Tm X : Type 0} (u : Uris U Sc Au Pq) (h : Headers V HM)
    (sleep : Duration → Tm) (detail : Option Au → Option Sc → Bytes)
    (limits : Service L (Request U HM P B) G (BoxError X)) where
  -- Whatever `poll_ready` answers, the limits were polled, and nothing else of the connection is
  -- changed.
  pub polled_below :
      (c : Connection L V Sc Au) (m : Exec (Poll (Result (Unit {0}) (BoxError X)) × L))
      → limits.poll_ready (below c) ≡ m
      → (p : Poll (Result (Unit {0}) (BoxError X))) (c' : Connection L V Sc Au)
      → poll_ready h sleep limits (λ e. e) u detail c ≡ done (p, c')
      → (q : Poll (Result (Unit {0}) (BoxError X))) × (l : L) × (m ≡ done (q, l))
        × (c' ≡ with_below c l)
  unfolding poll_ready agent timed AddOrigin.poll_ready UserAgent.service UserAgent.poll_ready
      GrpcTimeout.service GrpcTimeout.poll_ready
  polled_below c (done (q, l)) e p c' h' = let k = rw e at h' in (q, l, refl, cc)
  polled_below c panic e p c' h' = let k = rw e at h' in cc
  polled_below c out_of_fuel e p c' h' = let k = rw e at h' in cc

module _ {U Sc Au Pq V HM P B D F S G ME SE Tm X Mk L GL : Type 0} (u : Uris U Sc Au Pq)
    (h : Headers V HM) (sleep : Duration → Tm) (detail : Option Au → Option Sc → Bytes)
    (mk : Service Mk D F ME) (fut : Future F (Result S ME))
    (wire : Service S (Request U HM P B) G SE) (into : ME → BoxError X) (fuel : ℕ)
    (limits : Service L (Request U HM P B) GL (BoxError X)) (held : L → Reconnect Mk D F S X) where
  module _ (takes : S → Request U HM P B → G × S)
      (taken : (s : S) (req : Request U HM P B) → wire.call s req ≡ done (takes s req)) where
    call_taken :
        (r : Reconnect Mk D F S X) (req : Request U HM P B)
        {m : Exec (Inner G X × Reconnect Mk D F S X)}
        → Served mk fut wire into r req m
        → (g : Inner G X) × (r' : Reconnect Mk D F S X) × (m ≡ done (g, r'))
    call_taken r req (with_error e stored) = (_, _, refl)
    call_taken r req (with_connection s clear at) = (
      Inner.future (takes s req).0,
      record r { state = State.connected (takes s req).1 },
      rw (taken s req),
    )

    -- Limits that say they are ready take a request, and hold a valid service behind it.
    limits_take :
        (l l' : L) (req : Request U HM P B)
        → LimitLaws limits (Reconnect.service mk fut wire into fuel) held
        → IsValid (held l)
        → limits.poll_ready l ≡ done (ready (ok tt), l')
        → (g : GL) × (l'' : L) × (limits.call l' req ≡ done (g, l'')) × IsValid (held l'')
    unfolding Reconnect.service
    limits_take l l' req laws valid polled =
        let through = laws.poll_ready-through l l' polled in
        let (f, r, called) =
          call_taken (held l') req
            (poll_ready-call mk fut wire into fuel (held l) (held l') req valid through) in
        let settled = poll_ready-Settled mk fut wire into fuel (held l) (held l') _ valid through in
        let kept = call-IsValid mk fut wire into (held l') r req f settled.valid called in
        let (g, l'', passed, after) = laws.call-through l l' req f r polled called in
        (g, l'', passed, subst IsValid (sym after) kept)

    -- With limits that keep the `LimitLaws`: if `poll_ready` says that a usable connection is ready,
    -- and the connection to the server takes every request, then a call with a request that has a path does not panic, and the connection
    -- is usable behind it.
    pub ready-call-IsUsable :
        (texts : TextLaws h) (laws : UriLaws u)
        (lawful : LimitLaws limits (Reconnect.service mk fut wire into fuel) held)
        (c c' : Connection L V Sc Au) (req : Request U HM P B) (p : Pq)
        → IsUsable held c
        → poll_ready h sleep limits (λ e. e) u detail c ≡ done (ready (ok tt), c')
        → (u.into_parts req.uri).path_and_query ≡ some p
        → (f : AddOrigin.BoxFuture (GrpcTimeout.ResponseFuture GL Tm) X) × (c'' : Connection L V Sc
            Au)
          × (call h sleep limits (λ e. e) u detail c' req ≡ done (f, c''))
          × IsUsable held c''
    ready-call-IsUsable texts laws lawful c c' req p usable h' path =
        let (l, polled, same) = answered u h sleep detail limits c _ refl c' h' in
        let (s, has_s) = usable.has_scheme in
        let (a, has_a) = usable.has_authority in
        let (uri, built, parts) = laws.from_parts_full s a p in
        let (parsed, total) =
          try_parse_grpc_timeout_total h texts (stamped u h sleep detail limits c req) in
        let sent = record req { uri = uri; headers = stamped u h sleep detail limits c req } in
        let (g, l', called, valid) = limits_take (below c) l sent lawful usable.valid polled in
        (
          answer_of u h sleep detail limits c parsed g,
          with_below c l',
          subst
              (λ x.
                call h sleep limits (λ e. e) u detail x req
                ≡ done (answer_of u h sleep detail limits c parsed g, with_below c l'))
              (sym same)
              (called_through u h sleep detail limits (with_below c l) req s a p uri parsed g l'
                has_s has_a path built total called),
          record { has_scheme = (s, has_s); has_authority = (a, has_a); valid = valid },
        )
