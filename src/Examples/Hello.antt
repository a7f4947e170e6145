-- ===== src/Examples/Hello.antt =====
-- The messages of examples/hello.proto, and the greeter of examples/src/server.rs.
use tonic_transport_native.Common.{◌≡◌, [], ◌∷◌, ◌++◌, Bytes, codes}
use tonic_transport_native.Runtime.{Result, ok}
use tonic_transport_native.Examples.Number.{ℤ, show}
use tonic_transport_native.Examples.Program.{Printed}

pub record HelloRequest : Type 0 where
  pub number : ℤ

pub record HelloResponse : Type 0 where
  pub message : Bytes

-- What is used of `tonic::Request` (`Rq`) and `tonic::Response` (`Rs`), around these messages.
pub record Tonic (Rq Rs : Type 0) : Type 0 where
  pub request : HelloRequest → Rq
  pub request_into_inner : Rq → HelloRequest
  pub request_debug : Rq → Bytes
  pub response : HelloResponse → Rs
  pub response_into_inner : Rs → HelloResponse

-- The documented behaviour of `new` and `into_inner` of both.
pub record TonicLaws {Rq Rs : Type 0} (tonic : Tonic Rq Rs) : Type 0 where
  pub request_into_inner-request :
      (m : HelloRequest) → tonic.request_into_inner (tonic.request m) ≡ m
  pub response_into_inner-response :
      (m : HelloResponse) → tonic.response_into_inner (tonic.response m) ≡ m

-- The greeter has no state.
pub record MyGreeter : Type 0 where

unfoldable pub default : MyGreeter
default = record {}

module _ {Rq Rs St : Type 0} (tonic : Tonic Rq Rs) where
  unfoldable pub count_hello : MyGreeter → Rq → Printed (Result Rs St)
  count_hello self request =
      let number = (tonic.request_into_inner request).number in
      let reply : HelloResponse = record { message = codes "Hello " ++ show number ++ codes "!" } in
      ((codes "Got a request: " ++ tonic.request_debug request) ∷ [], ok (tonic.response reply))
