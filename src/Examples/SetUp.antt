-- ===== src/Examples/SetUp.antt =====
-- What the server of examples/src/server.rs asks of openssl and native_tls to set up TLS.
use tonic_transport_native.Common.{◌≡◌, refl, ◌⊎◌, inl, inr, List, [], ◌∷◌, codes}
use tonic_transport_native.Runtime.{Result, ok, err, map_err}
use tonic_transport_native.Attempt.{◌>>=◌}
use tonic_transport_native.Error.{BoxError, foreign}
use tonic_transport_native.Examples.Tls.{Acceptors, set_up_acceptor}

-- Steps on a builder, one after the other, up to the first that fails.
module _ {Bd X : Type 0} where
  pub data Goes : List (Bd → Result Bd X) → Bd → Result Bd X → Type 0 where
    through : (b : Bd) → Goes [] b (ok b)
    goes_on :
        (f : Bd → Result Bd X) (fs : List (Bd → Result Bd X)) (b b' : Bd) (r : Result Bd X)
        → f b ≡ ok b'
        → Goes fs b' r
        → Goes (f ∷ fs) b r
    stops :
        (f : Bd → Result Bd X) (fs : List (Bd → Result Bd X)) (b : Bd) (e : X)
        → f b ≡ err e
        → Goes (f ∷ fs) b (err e)

  -- The steps in front of more code, each with the operator `?`.
  abbrev steps_then :
      {N : Type 0}
      → List (Bd → Result Bd X)
      → (Bd → Result N (BoxError X))
      → Bd
      → Result N (BoxError X)
  steps_then [] last b = last b
  steps_then (f ∷ fs) last b = map_err foreign (f b) >>= λ next. steps_then fs last next

  -- How they go: to the end, or to an error of a step.
  abbrev Ended : {N : Type 0} → List (Bd → Result Bd X) → (Bd → Result N (BoxError X)) → Bd → Type 0
  Ended fs last b =
      ((b' : Bd) × Goes fs b (ok b') × (steps_then fs last b ≡ last b'))
      ⊎ ((e : X) × Goes fs b (err e) × (steps_then fs last b ≡ err (foreign e)))

  steps-Ended :
      {N : Type 0} (fs : List (Bd → Result Bd X)) (last : Bd → Result N (BoxError X)) (b : Bd)
      → Ended fs last b
  steps-Ended [] last b = inl (b, through b, refl)
  steps-Ended (f ∷ fs) last b = at (f b) refl (λ next. steps-Ended fs last next)
    where
      at : (r : Result Bd X) → f b ≡ r → ((next : Bd) → Ended fs last next) → Ended (f ∷ fs) last b
      at (err e) failed rest = inr (e, stops f fs b e failed, rw failed refl)
      at (ok next) done_so rest = elim (rest next) [
        | inl (b', goes, same) ↦ inl (b', goes_on f fs b next (ok b') done_so goes, rw done_so same)
        | inr (e, goes, same) ↦ inr (e, goes_on f fs b next (err e) done_so goes, rw done_so same)
      ]

module _ {Bd Me Ft Cn Ae Nb N X : Type 0} (acceptors : Acceptors Bd Me Ft Cn Ae Nb N X) where
  -- The server's files and its protocol, HTTP/2 alone.
  abbrev pub server_steps : List (Bd → Result Bd X)
  server_steps =
      (λ b. acceptors.ssl.set_ca_file b (codes "certs/ca.crt"))
      ∷ (λ b. acceptors.ssl.set_certificate_chain_file b (codes "certs/server.crt"))
      ∷ (λ b. acceptors.ssl.set_private_key_file b (codes "certs/server.key") acceptors.ssl.pem)
      ∷ (λ b. acceptors.ssl.set_alpn_protos b (2 ∷ codes "h2"))
      ∷ (λ b. ok (acceptors.set_alpn_select_callback b (λ conn offered. ok (codes "h2"))))
      ∷ []

  -- How TLS is set up: there is no builder, or a step fails, or an acceptor is built from it.
  pub data SetsUp : Result N (BoxError X) → Type 0 where
    no_builder :
        (e : X)
        → acceptors.mozilla_intermediate acceptors.ssl.tls ≡ err e
        → SetsUp (err (foreign e))
    refused :
        (b : Bd) (e : X)
        → acceptors.mozilla_intermediate acceptors.ssl.tls ≡ ok b
        → Goes server_steps b (err e)
        → SetsUp (err (foreign e))
    built :
        (b b' : Bd) (r : Result N X)
        → acceptors.mozilla_intermediate acceptors.ssl.tls ≡ ok b
        → Goes server_steps b (ok b')
        → acceptors.build (acceptors.native b') ≡ r
        → SetsUp (map_err foreign r)

  abbrev finish : Bd → Result N (BoxError X)
  finish b = map_err foreign (acceptors.build (acceptors.native b))

  by_builder :
      (m : Result Bd X)
      → acceptors.mozilla_intermediate acceptors.ssl.tls ≡ m
      → SetsUp (map_err foreign m >>= λ b. steps_then server_steps finish b)
  by_builder (err e) made = no_builder e made
  by_builder (ok b) made = elim (steps-Ended server_steps finish b) [
    | inl (b', goes, same) ↦ rw same (built b b' _ made goes refl)
    | inr (e, goes, same) ↦ rw same (refused b e made goes)
  ]

  pub set_up-SetsUp : SetsUp (set_up_acceptor acceptors)
  unfolding set_up_acceptor
  set_up-SetsUp = by_builder (acceptors.mozilla_intermediate acceptors.ssl.tls) refl
