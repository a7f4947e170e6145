-- ===== src/Router/Routes.antt =====
-- `Routes` of src/service/router.rs, and how `Server` and `Router` of src/server/mod.rs add services.
use tonic_transport_native.Common.{ℕ, Option, none, some, List, [], ◌∷◌, ◌++◌, Bytes, codes}
use tonic_transport_native.Runtime.{Exec, done, ◌>>=◌}

-- The answer of the handler `unimplemented`: a status code and headers.
pub record Answer : Type 0 where
  pub status : ℕ
  pub headers : List (Bytes × Bytes)

unfoldable pub unimplemented : Answer
unimplemented = record {
  status = 200;
  headers =
      (codes "grpc-status", codes "12") ∷ (codes "content-type", codes "application/grpc") ∷ [];
}

-- What is used of `axum::Router` (`Rt`), for services (`Sv`), requests and responses: `new`,
-- `fallback` with a handler, `route`, which panics on a path that conflicts, and a call; and of a
-- service its name, and `map_response` with a boxed body.
pub record Axum (Rt Sv Rq Rs : Type 0) : Type 0 where
  pub new : Rt
  pub fallback : Rt → Answer → Rt
  pub route : Rt → Bytes → Sv → Exec Rt
  pub call : Rt → Rq → Rs
  pub name : Sv → Bytes
  pub boxed : Sv → Sv

pub record Routes (Rt : Type 0) : Type 0 where
  pub router : Rt

pub record Router (Sr Rt : Type 0) : Type 0 where
  pub server : Sr
  pub routes : Routes Rt

module _ {Rt Sv Rq Rs : Type 0} (axum : Axum Rt Sv Rq Rs) where
  -- `format!("/{}/*rest", S::NAME)`.
  unfoldable pub path_of : Sv → Bytes
  path_of svc = codes "/" ++ axum.name svc ++ codes "/*rest"

  unfoldable pub add_service : Routes Rt → Sv → Exec (Routes Rt)
  unfolding path_of
  add_service self svc = do
    router ← axum.route self.router (path_of svc) (axum.boxed svc)
    done (record { router = router })

  -- The derived `Default`.
  unfoldable pub default : Routes Rt
  default = record { router = axum.new }

  unfoldable pub new : Sv → Exec (Routes Rt)
  new svc = add_service (record { router = axum.fallback axum.new unimplemented }) svc

  unfoldable pub routes_call : Routes Rt → Rq → Rs
  routes_call self req = axum.call self.router req

  unfoldable pub server_add_service : {Sr : Type 0} → Sr → Sv → Exec (Router Sr Rt)
  server_add_service server svc = do
    routes ← new svc
    done (record { server = server; routes = routes })

  unfoldable pub server_add_optional_service : {Sr : Type 0} → Sr → Option Sv → Exec (Router Sr Rt)
  server_add_optional_service server (some svc) = do
    routes ← new svc
    done (record { server = server; routes = routes })
  server_add_optional_service server none = done (record { server = server; routes = default })

  unfoldable pub router_add_service : {Sr : Type 0} → Router Sr Rt → Sv → Exec (Router Sr Rt)
  router_add_service self svc = do
    routes ← add_service self.routes svc
    done (record self { routes = routes })

  unfoldable pub router_add_optional_service :
      {Sr : Type 0} → Router Sr Rt → Option Sv → Exec (Router Sr Rt)
  router_add_optional_service self (some svc) = router_add_service self svc
  router_add_optional_service self none = done self

  -- Services added one after the other.
  abbrev pub add_all : {Sr : Type 0} → Router Sr Rt → List (Option Sv) → Exec (Router Sr Rt)
  add_all self [] = done self
  add_all self (svc ∷ svcs) = do next ← router_add_optional_service self svc; add_all next svcs
