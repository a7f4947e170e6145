-- ===== src/AddOrigin/Origin.antt =====
-- What `AddOrigin::call` of src/service/add_origin.rs hands on.
use tonic_transport_native.Common.{◌≡◌, ◌⊎◌, Option, none, some, Bytes, arith}
use tonic_transport_native.Runtime.{done, panic, ◌>>=◌, Service}
use tonic_transport_native.Error.{BoxError, invalid_uri, new_invalid_uri}
use tonic_transport_native.Http.{Uris, UriLaws, Request}
use tonic_transport_native.AddOrigin.Middleware.{failed, awaiting, new, forward, call}

module _ {U Sc Au Pq S F E M P B X : Type 0} (u : Uris U Sc Au Pq) (laws : UriLaws u)
    (svc : Service S (Request U M P B) F E) (into : E → BoxError X)
    (detail : Option Au → Option Sc → Bytes) (inner : S) (origin : U) (req : Request U M P B) where
  -- The request that the inner service is called with.
  pub record Rebased (uri : U) : Type 0 where
    pub scheme_of_origin : (u.into_parts uri).scheme ≡ (u.into_parts origin).scheme
    pub authority_of_origin : (u.into_parts uri).authority ≡ (u.into_parts origin).authority
    pub path_of_request : (u.into_parts uri).path_and_query ≡ (u.into_parts req.uri).path_and_query
    pub forwarded : call u svc into detail (new u inner origin) req ≡ (
        svc.call inner (record req { uri = uri }) >>= λ answer. done (
          awaiting answer.0,
          record {
            inner = answer.1;
            scheme = (u.into_parts origin).scheme;
            authority = (u.into_parts origin).authority;
          },
        ))

  -- With an origin that has a scheme and an authority, a request that has a path goes on to the
  -- inner service with the origin's scheme and authority, its own path, and all else unchanged:
  -- building the URI does not panic.
  pub call-Rebased :
      (s : Sc) (a : Au) (p : Pq)
      → (u.into_parts origin).scheme ≡ some s
      → (u.into_parts origin).authority ≡ some a
      → (u.into_parts req.uri).path_and_query ≡ some p
      → (uri : U) × Rebased uri
  unfolding new call forward
  call-Rebased s a p es ea ep =
      let (uri, built, parts) = laws.from_parts_full s a p in
      (
        uri,
        record {
          scheme_of_origin = cc (parts, es);
          authority_of_origin = cc (parts, ea);
          path_of_request = cc (parts, ep);
          forwarded = simp (es, ea, ep, built);
        },
      )

  -- A request whose URI has no path makes the call panic.
  pub call_pathless :
      (s : Sc) (a : Au)
      → (u.into_parts origin).scheme ≡ some s
      → (u.into_parts origin).authority ≡ some a
      → (u.into_parts req.uri).path_and_query ≡ none
      → call u svc into detail (new u inner origin) req ≡ panic
  unfolding new call forward
  call_pathless s a es ea ep = simp (es, ea, ep, laws.from_parts_pathless s a)

  -- With an origin that lacks one of the two, every request fails with an invalid URI, and the
  -- inner service is not called.
  pub call_refused :
      ((u.into_parts origin).scheme ≡ none) ⊎ ((u.into_parts origin).authority ≡ none)
      → call u svc into detail (new u inner origin) req
        ≡ done (
          failed
              (invalid_uri (detail (u.into_parts origin).authority (u.into_parts origin).scheme)),
          new u inner origin,
        )
  unfolding new call new_invalid_uri
  call_refused h = ground arith
