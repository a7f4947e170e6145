-- ===== src/Router/Respond.antt =====
-- `RoutesFuture` and `boxed_body` of src/service/router.rs, and `Routes::poll_ready`.
use tonic_transport_native.Common.{ℕ}
use tonic_transport_native.Runtime.{
  Result, ok, err, Exec, done, ◌>>=◌, Poll, pending, ready, Future, Resolves, now, later, Service,
}
use tonic_transport_native.Error.{BoxError, Error}
use tonic_transport_native.RecoverError.Middleware.{Response, map_body}
use tonic_transport_native.Router.Routes.{Axum, Routes, routes_call}

unfoldable pub routes_poll_ready :
    {Rt X : Type 0} → Routes Rt → Poll (Result (Unit {0}) (Error X)) × Routes Rt
routes_poll_ready self = (ready (ok tt), self)

-- `boxed` is `map_err` and then `boxed_unsync` of http_body, and `from_error` that of tonic's status.
unfoldable pub boxed_body :
    {B C E St X : Type 0} → ((E → St) → B → C) → (BoxError X → St) → (E → BoxError X) → B → C
boxed_body boxed from_error into body = boxed (λ e. from_error (into e)) body

pub record RoutesFuture (F : Type 0) : Type 0 where
  pub inner : F

-- The `Service` of the routes, whose futures are around those of axum.
unfoldable pub routes_service :
    {Rt Sv R F X : Type 0} → Axum Rt Sv R F → Service (Routes Rt) R (RoutesFuture F) (Error X)
unfolding routes_poll_ready
routes_service axum = record {
  poll_ready = λ s. done (routes_poll_ready s);
  call = λ s req. done (record { inner = routes_call axum s req }, s);
}

-- axum's `RouteFuture` has no errors: their type is empty.
module _ {F M B C X : Type 0} (fut : Future F (Result (Response M B) ⊥)) (box : B → C) where
  unfoldable pub of_route : Result (Response M B) ⊥ → Result (Response M C) (Error X)
  of_route (ok res) = ok (map_body box res)
  of_route (err e) = absurd e

  unfoldable pub routes_future_poll :
      RoutesFuture F → Exec (Poll (Result (Response M C) (Error X)) × RoutesFuture F)
  unfolding of_route
  routes_future_poll self = do
    answer ← fut.poll self.inner
    elim (answer.0) [
      | pending ↦ done (pending, record { inner = answer.1 })
      | ready r ↦ done (ready (of_route r), record { inner = answer.1 })
    ]

  unfoldable pub routes_future : Future (RoutesFuture F) (Result (Response M C) (Error X))
  routes_future = record { poll = routes_future_poll }

  -- The routes always answer: when the future of the route is ready, with its response, whose status
  -- code and headers are kept, and whose body is boxed.
  pub routes-Resolves :
      (f : F) (k : ℕ) (res : Response M B)
      → Resolves fut f k (ok res)
      → Resolves routes_future (record { inner = f }) k (ok (map_body box res))
  unfolding routes_future routes_future_poll of_route
  routes-Resolves f _ res (now _ {g = g} e) =
      now (record { inner = f }) {g = record { inner = g }} (rw e)
  routes-Resolves f _ res (later _ {g = g} e rest) =
      later (record { inner = f }) {g = record { inner = g }} (rw e) (routes-Resolves g _ res rest)
