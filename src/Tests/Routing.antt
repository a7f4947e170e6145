-- ===== src/Tests/Routing.antt =====
-- Tests of the modules below Router.
use tonic_transport_native.Common.{
  ◌≡◌, refl, inl, inr, Bool-cases, eq_bytes_sound, false, if◌then◌else◌, eq_bytes, Option, none,
  some, List, [], ◌∷◌, Bytes, codes,
}
use tonic_transport_native.Runtime.{done}
use tonic_transport_native.Router.Routes.{
  Answer, Axum, Router, routes_call, path_of, add_service, default, server_add_optional_service,
  router_add_service, router_add_optional_service,
}
use tonic_transport_native.Router.Unmatched.{AxumLaws, unmatched_not_found}

-- A router is its routes and its fallback, a request is a path, and a response is that of a service,
-- by its name, or of the fallback.
abbrev pub Table : Type 0
Table = List (Bytes × Bytes) × Option Answer

abbrev pub find : List (Bytes × Bytes) → Option Answer → Bytes → Bytes × Option Answer
find [] fallback q = ([], fallback)
find ((p, s) ∷ routes) fallback q =
    let rest = find routes fallback q in if eq_bytes p q then (s, none) else rest

abbrev pub axum : Axum Table Bytes Bytes (Bytes × Option Answer)
axum = record {
  new = ([], none);
  fallback = λ r a. (r.0, some a);
  route = λ r p s. done ((p, s) ∷ r.0, r.1);
  call = λ r q. find r.0 r.1 q;
  name = λ s. s;
  boxed = λ s. s;
}

pub differs : (p q : Bytes) → ¬ (p ≡ q) → eq_bytes p q ≡ false
differs p q other = elim (Bool-cases (eq_bytes p q)) [
  | inl same ↦ absurd (other (eq_bytes_sound p q same))
  | inr differ ↦ differ
]

pub find_other :
    (r r' : Table) (p s q : Bytes)
    → axum.route r p s ≡ done r'
    → ¬ (p ≡ q)
    → find r'.0 r'.1 q ≡ find r.0 r.1 q
find_other r r' p s q added other =
    let next : done ((p, s) ∷ r.0, r.1) ≡ done r' = added in
    let skipped : find ((p, s) ∷ r.0) r.1 q ≡ find r.0 r.1 q = rw (differs p q other) in
    cc (next, skipped)

abbrev pub laws : AxumLaws axum
laws = record {
  Matches = λ p q. p ≡ q;
  into_response = λ a. ([], some a);
  not_found = ([], none);
  call-new = λ q. refl;
  call-fallback = λ a q. refl;
  call-route_other = find_other;
}

abbrev optional : Router (Unit {0}) Table
optional = record {
  server = tt;
  routes = record { router = ((codes "/echo/*rest", codes "echo") ∷ [], none) };
}

unmatched_not_found_example : routes_call axum optional.routes (codes "/hello") ≡ ([], none)
unfolding server_add_optional_service router_add_optional_service router_add_service default
    add_service path_of
unmatched_not_found_example =
    unmatched_not_found axum laws (codes "/hello") tt (some (codes "echo") ∷ []) optional refl
      ((λ e. cc), tt)
