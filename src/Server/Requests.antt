-- ===== src/Server/Requests.antt =====
-- What the service of a connection in src/server/mod.rs does with any requests, one after the other.
use tonic_transport_native.Common.{
  ℕ, ◌≡◌, refl, sym, ap, ◌∙◌, Option, none, some, List, [], ◌∷◌, map,
}
use tonic_transport_native.Runtime.{Result, ok, Exec, done, ◌>>=◌, bind_assoc, bind_same, Service}
use tonic_transport_native.Error.{Error, BoxError}
use tonic_transport_native.GrpcTimeout.Middleware as GrpcTimeout
use tonic_transport_native.RecoverError.Middleware as RecoverError
use tonic_transport_native.Server.Info.{TlsConnectInfo}
use tonic_transport_native.Server.Make.{
  Requests, ConnSvc, SvcFuture, MakeSvc, span_of, svc_call, with_info, recovering, conn_call,
  layers, make_call,
}

-- The futures of some requests, and the state behind them.
abbrev pub calls : {S R F : Type 0} → (S → R → Exec (F × S)) → List R → S → Exec (List F × S)
calls call [] s = done ([], s)
calls call (r ∷ rs) s = do
  answer ← call s r
  rest ← calls call rs answer.1
  done (answer.0 ∷ rest.0, rest.1)

-- The documented behaviour of the extensions of a request, which hold a value of each type: what is
-- inserted is found, and neither a value of another type (the types of both infos differ) nor the
-- rest of the request (`Rest`) is changed.
pub record InfoLaws {R Tr Sp I : Type 0} (reqs : Requests R Tr Sp I) (Rest : Type 0) : Type 0 where
  pub tls_of : R → Option (TlsConnectInfo I)
  pub inner_of : R → Option I
  pub rest_of : R → Rest
  pub tls_of-insert_tls : (r : R) (i : TlsConnectInfo I) → tls_of (reqs.insert_tls r i) ≡ some i
  pub tls_of-insert_inner : (r : R) (x : I) → tls_of (reqs.insert_inner r x) ≡ tls_of r
  pub inner_of-insert_inner : (r : R) (x : I) → inner_of (reqs.insert_inner r x) ≡ some x
  pub rest_of-insert_tls :
      (r : R) (i : TlsConnectInfo I) → rest_of (reqs.insert_tls r i) ≡ rest_of r
  pub rest_of-insert_inner : (r : R) (x : I) → rest_of (reqs.insert_inner r x) ≡ rest_of r

-- The second request is the first, with what the connection tells.
pub record Informed {R Tr Sp I Rest : Type 0} {reqs : Requests R Tr Sp I}
    (laws : InfoLaws reqs Rest) (i : TlsConnectInfo I) (req q : R) : Type 0 where
  pub tells_tls : laws.tls_of q ≡ some i
  pub tells_inner : laws.inner_of q ≡ some i.inner
  pub same_rest : laws.rest_of q ≡ laws.rest_of req

-- One request for each, in the same order.
abbrev pub AllInformed :
    {R Tr Sp I Rest : Type 0} {reqs : Requests R Tr Sp I}
    → InfoLaws reqs Rest
    → TlsConnectInfo I
    → List R
    → List R
    → Type 0
AllInformed laws i [] [] = Unit
AllInformed laws i [] (q ∷ qs) = ⊥
AllInformed laws i (r ∷ rs) [] = ⊥
AllInformed laws i (r ∷ rs) (q ∷ qs) = Informed laws i r q × AllInformed laws i rs qs

with_info-Informed :
    {R Tr Sp I Rest : Type 0} {reqs : Requests R Tr Sp I} (laws : InfoLaws reqs Rest)
    (i : TlsConnectInfo I) (rs : List R)
    → AllInformed laws i rs (map (with_info reqs i) rs)
unfolding with_info
with_info-Informed laws i [] = tt
with_info-Informed {reqs = reqs} laws i (r ∷ rs) = (
  record {
    tells_tls = laws.tls_of-insert_inner (reqs.insert_tls r i) i.inner ∙ laws.tls_of-insert_tls r i;
    tells_inner = laws.inner_of-insert_inner (reqs.insert_tls r i) i.inner;
    same_rest =
        laws.rest_of-insert_inner (reqs.insert_tls r i) i.inner ∙ laws.rest_of-insert_tls r i;
  },
  with_info-Informed laws i rs,
)

module _ {R Tr Sp I : Type 0} (reqs : Requests R Tr Sp I) where
  -- The span of a request: the trace interceptor's, if there is one.
  abbrev pub span_at : Option Tr → R → Sp
  span_at none q = reqs.no_span
  span_at (some f) q = reqs.intercept f q

  span_of-same : (trace : Option Tr) (q : R) → span_of reqs trace q ≡ span_at trace q
  unfolding span_of
  span_of-same none q = refl
  span_of-same (some f) q = refl

  -- The future of a request, with the recovery of its errors and the span of the request.
  abbrev pub wrap : {F : Type 0} → Option Tr → R → F → SvcFuture (RecoverError.ResponseFuture F) Sp
  wrap trace q f = record { inner = record { inner = f }; span = span_at trace q }

  abbrev pub wrap_all :
      {F : Type 0}
      → Option Tr
      → List R
      → List F
      → List (SvcFuture (RecoverError.ResponseFuture F) Sp)
  wrap_all trace [] fs = []
  wrap_all trace (q ∷ qs) [] = []
  wrap_all trace (q ∷ qs) (f ∷ fs) = wrap trace q f ∷ wrap_all trace qs fs

module _ {S R F E X Tr Sp I : Type 0} (svc : Service S R F E) (into : E → BoxError X)
    (reqs : Requests R Tr Sp I) (trace : Option Tr) (i : TlsConnectInfo I) where
  -- The service of the connection, around services in a state.
  abbrev pub around : S → ConnSvc S Tr I
  around s = record {
    conn_info = i;
    svc = record { inner = record { inner = s }; trace_interceptor = trace };
  }

  conn_call-around :
      (s : S) (req : R)
      → conn_call svc into reqs (around s) req ≡ (
          svc.call s (with_info reqs i req) >>= λ a.
          done (wrap reqs trace (with_info reqs i req) a.0, around a.1))
  unfolding conn_call svc_call recovering RecoverError.service RecoverError.call
  conn_call-around s req =
      bind_assoc (svc.call s (with_info reqs i req) >>= _) _ _
      ∙ bind_assoc (svc.call s (with_info reqs i req)) _ _
      ∙ ap
          (λ sp. svc.call s (with_info reqs i req) >>= λ a.
            done (record { inner = record { inner = a.0 }; span = sp }, around a.1))
          (span_of-same reqs trace (with_info reqs i req))

  calls-around :
      (rs : List R) (s : S)
      → calls (conn_call svc into reqs) rs (around s) ≡ (
          calls svc.call (map (with_info reqs i) rs) s >>= λ a.
          done (wrap_all reqs trace (map (with_info reqs i) rs) a.0, around a.1))
  calls-around [] s = refl
  calls-around (r ∷ rs) s = rw (conn_call-around s r) (
      bind_assoc (svc.call s (with_info reqs i r)) _ _
      ∙ bind_same (svc.call s (with_info reqs i r)) _ _ (λ a. rw (calls-around rs a.1) (
          bind_assoc (calls svc.call (map (with_info reqs i) rs) a.1) _ _
          ∙ sym (bind_assoc (calls svc.call (map (with_info reqs i) rs) a.1) _ _)))
      ∙ sym (bind_assoc (svc.call s (with_info reqs i r)) _ _))

module _ {S₀ S R F E X Tr Sp I Tls : Type 0} (limit : Option ℕ → GrpcTimeout.GrpcTimeout S₀ → S)
    (info : Tls → Result (TlsConnectInfo I) (Error X)) (reqs : Requests R Tr Sp I)
    (svc : Service S R F E) (into : E → BoxError X) where
  -- Given `InfoLaws`: a connection that tells of itself gets a service of its own. Of any requests,
  -- one after the other, it makes what the services below its error recovery make of as many requests,
  -- each of them with what is told, and else the same, panics included; each future recovers the
  -- errors of theirs and has the span of its request, which is the trace interceptor's if there is
  -- one; and it holds them behind the requests, with the same to tell.
  pub requests_handed_on :
      {Rest : Type 0} (laws : InfoLaws reqs Rest) (m : MakeSvc S₀ Tr) (io : Tls)
      (i : TlsConnectInfo I)
      → info io ≡ ok i
      → (conn : ConnSvc S Tr I) × (make_call limit info m io ≡ ok conn)
        × ((rs : List R)
            → (qs : List R) × AllInformed laws i rs qs
              × (calls (conn_call svc into reqs) rs conn ≡ (
                  calls svc.call qs (limit m.concurrency_limit (GrpcTimeout.new m.inner m.timeout))
                  >>= λ a. done (
                    wrap_all reqs m.trace_interceptor qs a.0,
                    around svc into reqs m.trace_interceptor i a.1,
                  ))))
  unfolding make_call layers RecoverError.new
  requests_handed_on laws m io i told = (
    around svc into reqs m.trace_interceptor i
        (limit m.concurrency_limit (GrpcTimeout.new m.inner m.timeout)),
    rw (told, make_call) refl,
    λ rs. (
      map (with_info reqs i) rs,
      with_info-Informed laws i rs,
      calls-around svc into reqs m.trace_interceptor i rs
          (limit m.concurrency_limit (GrpcTimeout.new m.inner m.timeout)),
    ),
  )
