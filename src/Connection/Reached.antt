-- ===== src/Connection/Reached.antt =====
-- The states of a connection of src/service/connection.rs, by the calls that lead there from the
-- connection of a builder.
use tonic_transport_native.Common.{sym, subst, ℕ, ◌≡◌, refl, Bool, Option, some, inl, inr, Bytes}
use tonic_transport_native.Runtime.{Result, ok, done, Poll, ready, Future, Service}
use tonic_transport_native.Error.{BoxError}
use tonic_transport_native.Duration.{Duration}
use tonic_transport_native.Http.{Headers, TextLaws, ValueLaws, Uris, UriLaws, Request}
use tonic_transport_native.Channel.Builder.{ChannelBuilder}
use tonic_transport_native.GrpcTimeout.Middleware as GrpcTimeout
use tonic_transport_native.AddOrigin.Middleware as AddOrigin
use tonic_transport_native.UserAgent.Middleware as UserAgent
use tonic_transport_native.UserAgent.Header.{header_value_bytes}
use tonic_transport_native.Reconnect.Machine as Reconnect
use tonic_transport_native.Reconnect.Runs.{IsValid, poll_ready-Settled}
use tonic_transport_native.Reconnect.Contract.{new-IsValid}
use tonic_transport_native.Connection.Stack.{Connection, origin_of, stack, poll_ready, call}
use tonic_transport_native.Connection.Usable.{
  below, LimitLaws, IsUsable, polled_below, ready-call-IsUsable,
}

module _ {U Sc Au Pq V HM P B G Tm X L : Type 0} (u : Uris U Sc Au Pq) (h : Headers V HM)
    (sleep : Duration → Tm) (detail : Option Au → Option Sc → Bytes)
    (limits : Service L (Request U HM P B) G (BoxError X)) where
  -- The connection has come from another by calls of `poll_ready`, whatever they answered, and by
  -- calls of `call`, each behind a `poll_ready` that said it was ready, with requests that have a
  -- path.
  pub data Reached (c₀ : Connection L V Sc Au) : Connection L V Sc Au → Type 0 where
    begun : Reached c₀ c₀
    polled :
        {c c' : Connection L V Sc Au} (p : Poll (Result (Unit {0}) (BoxError X)))
        → Reached c₀ c
        → poll_ready h sleep limits (λ e. e) u detail c ≡ done (p, c')
        → Reached c₀ c'
    used :
        {c c' c'' : Connection L V Sc Au} (req : Request U HM P B) (p : Pq)
        (f : AddOrigin.BoxFuture (GrpcTimeout.ResponseFuture G Tm) X)
        → Reached c₀ c
        → poll_ready h sleep limits (λ e. e) u detail c ≡ done (ready (ok tt), c')
        → (u.into_parts req.uri).path_and_query ≡ some p
        → call h sleep limits (λ e. e) u detail c' req ≡ done (f, c'')
        → Reached c₀ c''

module _ {U Sc Au Pq V HM P B D F S G ME SE Tm X Mk L GL : Type 0} (u : Uris U Sc Au Pq)
    (h : Headers V HM) (sleep : Duration → Tm) (detail : Option Au → Option Sc → Bytes)
    (mk : Service Mk D F ME) (fut : Future F (Result S ME))
    (wire : Service S (Request U HM P B) G SE) (into : ME → BoxError X) (fuel : ℕ)
    (limits : Service L (Request U HM P B) GL (BoxError X))
    (held : L → Reconnect.Reconnect Mk D F S X)
    (lawful : LimitLaws limits (Reconnect.service mk fut wire into fuel) held) where
  polled-IsUsable :
      (c c' : Connection L V Sc Au) (p : Poll (Result (Unit {0}) (BoxError X)))
      → IsUsable held c
      → poll_ready h sleep limits (λ e. e) u detail c ≡ done (p, c')
      → IsUsable held c'
  unfolding Reconnect.service
  polled-IsUsable c c' p usable h' =
      let (q, l, below_polled, same) = polled_below u h sleep detail limits c _ refl p c' h' in
      subst (IsUsable held) (sym same) (record {
        has_scheme = usable.has_scheme;
        has_authority = usable.has_authority;
        valid = elim (lawful.poll_ready-kept (below c) l q below_polled) [
          | inl kept ↦ subst IsValid (sym kept) usable.valid
          | inr (a, through) ↦
              (poll_ready-Settled mk fut wire into fuel (held (below c)) (held l) a usable.valid
                through).valid
        ];
      })

  stack-IsUsable :
      {C : Type 0} (values : ValueLaws h) (endpoint : ChannelBuilder U C V) (l : L) (m : Mk) (t : D)
      (is_lazy : Bool) (s : Sc) (a : Au) (c : Connection L V Sc Au)
      → held l ≡ Reconnect.new m t is_lazy
      → (u.into_parts (origin_of endpoint)).scheme ≡ some s
      → (u.into_parts (origin_of endpoint)).authority ≡ some a
      → stack u h endpoint l ≡ done c
      → IsUsable held c
  unfolding stack UserAgent.new AddOrigin.new GrpcTimeout.new
  stack-IsUsable values endpoint l m t is_lazy s a c inside has_s has_a built =
      let (v, made, bytes) = header_value_bytes h values endpoint.user_agent in
      let layer : UserAgent.UserAgent (GrpcTimeout.GrpcTimeout L) V = record {
        inner = GrpcTimeout.new l endpoint.timeout;
        user_agent = v;
      } in
      let whole : Connection L V Sc Au = record {
        inner = AddOrigin.new u layer (origin_of endpoint);
      } in
      let stacked : stack u h endpoint l ≡ done whole = rw made refl in
      let same : whole ≡ c = cc in
      subst (IsUsable held) same (record {
        has_scheme = (s, has_s);
        has_authority = (a, has_a);
        valid = subst IsValid (sym inside) (new-IsValid m t is_lazy);
      })

  module _ (takes : S → Request U HM P B → G × S)
      (taken : (s : S) (req : Request U HM P B) → wire.call s req ≡ done (takes s req))
      (texts : TextLaws h) (laws : UriLaws u) where
    Reached-IsUsable :
        (c₀ c : Connection L V Sc Au)
        → IsUsable held c₀
        → Reached u h sleep detail limits c₀ c
        → IsUsable held c
    Reached-IsUsable c₀ _ usable begun = usable
    Reached-IsUsable c₀ _ usable (polled {c} {c'} p reached h') =
        polled-IsUsable c c' p (Reached-IsUsable c₀ c usable reached) h'
    Reached-IsUsable c₀ _ usable (used {c} {c'} {c''} req p f reached h' path called) =
        let (g, c₃, called₃, usable₃) =
          ready-call-IsUsable u h sleep detail mk fut wire into fuel limits held takes taken texts
            laws lawful c c' req p (Reached-IsUsable c₀ c usable reached) h' path in
        let same : c₃ ≡ c'' = cc in subst (IsUsable held) same usable₃

    -- A connection is built around limits that hold a new `Reconnect`, from a builder whose origin
    -- (or else its URI) has a scheme and an authority. However it has been used since (`Reached`):
    -- if `poll_ready` says that it is ready, then a call with a request that has a path goes through
    -- all layers and the limits without a panic, if the wire takes every request, and the connection
    -- is usable behind it.
    pub Reached-call :
        {C : Type 0} (values : ValueLaws h) (endpoint : ChannelBuilder U C V) (l : L) (m : Mk)
        (t : D) (is_lazy : Bool) (s : Sc) (a : Au) (c₀ c c' : Connection L V Sc Au)
        (req : Request U HM P B) (p : Pq)
        → held l ≡ Reconnect.new m t is_lazy
        → (u.into_parts (origin_of endpoint)).scheme ≡ some s
        → (u.into_parts (origin_of endpoint)).authority ≡ some a
        → stack u h endpoint l ≡ done c₀
        → Reached u h sleep detail limits c₀ c
        → poll_ready h sleep limits (λ e. e) u detail c ≡ done (ready (ok tt), c')
        → (u.into_parts req.uri).path_and_query ≡ some p
        → (f : AddOrigin.BoxFuture (GrpcTimeout.ResponseFuture GL Tm) X) × (c'' : Connection L V Sc
            Au)
          × (call h sleep limits (λ e. e) u detail c' req ≡ done (f, c''))
          × IsUsable held c''
    Reached-call values endpoint l m t is_lazy s a c₀ c c' req p inside has_s has_a built reached
          is_ready path =
        ready-call-IsUsable u h sleep detail mk fut wire into fuel limits held takes taken texts
          laws lawful c c' req p
          (Reached-IsUsable c₀ c
            (stack-IsUsable values endpoint l m t is_lazy s a c₀ inside has_s has_a built) reached)
          is_ready path
