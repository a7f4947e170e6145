-- ===== src/Router/Unmatched.antt =====
-- What the routes of src/server/mod.rs answer to a request for a service that is not there.
use tonic_transport_native.Common.{◌≡◌, ◌∙◌, Option, none, some, List, [], ◌∷◌, Bytes}
use tonic_transport_native.Runtime.{done, ◌>>=◌, bind_done}
use tonic_transport_native.Router.Routes.{
  Answer, unimplemented, Axum, Routes, Router, path_of, add_service, default, new, routes_call,
  server_add_service, server_add_optional_service, router_add_service, router_add_optional_service,
  add_all,
}

-- The documented behaviour of `axum::Router`. A route is for the requests that match its path; all
-- else is answered as before, in the end by the fallback, or by a 404 if none was set.
pub record AxumLaws {Rt Sv Rq Rs : Type 0} (axum : Axum Rt Sv Rq Rs) : Type 1 where
  pub Matches : Bytes → Rq → Type 0
  pub into_response : Answer → Rs
  pub not_found : Rs
  pub call-new : (q : Rq) → axum.call axum.new q ≡ not_found
  pub call-fallback :
      (a : Answer) (q : Rq) → axum.call (axum.fallback axum.new a) q ≡ into_response a
  pub call-route_other :
      (r r' : Rt) (p : Bytes) (s : Sv) (q : Rq)
      → axum.route r p s ≡ done r'
      → ¬ Matches p q
      → axum.call r' q ≡ axum.call r q

module _ {Rt Sv Rq Rs : Type 0} (axum : Axum Rt Sv Rq Rs) (laws : AxumLaws axum) (q : Rq) where
  -- The request matches the path of none of the services.
  abbrev pub IsUnmatched : List (Option Sv) → Type 0
  IsUnmatched [] = Unit {0}
  IsUnmatched (none ∷ svcs) = IsUnmatched svcs
  IsUnmatched (some svc ∷ svcs) = (¬ laws.Matches (path_of axum svc) q) × IsUnmatched svcs

  add_service_other :
      (rs rs' : Routes Rt) (svc : Sv)
      → add_service axum rs svc ≡ done rs'
      → ¬ laws.Matches (path_of axum svc) q
      → routes_call axum rs' q ≡ routes_call axum rs q
  unfolding add_service routes_call
  add_service_other rs rs' svc h other =
      let (r, added, same) =
        bind_done (axum.route rs.router (path_of axum svc) (axum.boxed svc)) _ rs' h in
      let step : axum.call r q ≡ axum.call rs.router q =
        laws.call-route_other rs.router r (path_of axum svc) (axum.boxed svc) q added other in
      cc (same, step)

  add_all_other :
      {Sr : Type 0} (r r' : Router Sr Rt) (svcs : List (Option Sv))
      → add_all axum r svcs ≡ done r'
      → IsUnmatched svcs
      → routes_call axum r'.routes q ≡ routes_call axum r.routes q
  unfolding router_add_service router_add_optional_service
  add_all_other r r' [] h other = cc
  add_all_other r r' (none ∷ svcs) h other = add_all_other r r' svcs h other
  add_all_other r r' (some svc ∷ svcs) h (first, others) =
      let (next, added, rest) =
        bind_done (router_add_service axum r svc) (λ x. add_all axum x svcs) r' h in
      let (rs, put, same) = bind_done (add_service axum r.routes svc) _ next added in
      let later = add_all_other next r' svcs rest others in
      let now = add_service_other r.routes rs svc put first in cc (same, later, now)

  -- If the first service of a server is added with `add_service`, a request that is for none of its
  -- services is answered as unimplemented.
  pub unmatched_unimplemented :
      {Sr : Type 0} (server : Sr) (svc : Sv) (svcs : List (Option Sv)) (r : Router Sr Rt)
      → (server_add_service axum server svc >>= λ first. add_all axum first svcs) ≡ done r
      → IsUnmatched (some svc ∷ svcs)
      → routes_call axum r.routes q ≡ laws.into_response unimplemented
  unfolding server_add_service new routes_call
  unmatched_unimplemented server svc svcs r h (first, others) =
      let (r0, begun, rest) =
        bind_done (server_add_service axum server svc) (λ x. add_all axum x svcs) r h in
      let (rs, put, same) = bind_done (new axum svc) _ r0 begun in
      let later = add_all_other r0 r svcs rest others in
      let now =
        add_service_other (record { router = axum.fallback axum.new unimplemented }) rs svc put
          first in
      let base = laws.call-fallback unimplemented q in cc (same, later, now, base)

  -- If the first service is added with `add_optional_service` and is none, such a request is
  -- answered as axum answers what is not found.
  pub unmatched_not_found :
      {Sr : Type 0} (server : Sr) (svcs : List (Option Sv)) (r : Router Sr Rt)
      → (server_add_optional_service axum server none >>= λ first. add_all axum first svcs) ≡ done r
      → IsUnmatched svcs
      → routes_call axum r.routes q ≡ laws.not_found
  unfolding server_add_optional_service default routes_call
  unmatched_not_found server svcs r h others =
      add_all_other (record { server = server; routes = default axum }) r svcs h others
      ∙ laws.call-new q
