-- ===== src/Error.antt =====
-- src/lib.rs: the error type of the crate, and the boxed errors that flow between services.
pub mod Display
use tonic_transport_native.Common.{Bytes}

-- `X` is the type of the errors of other crates, of which the source knows nothing more.
mutual
  pub data Error (X : Type 0) : Type 0 where
    invalid_uri : Bytes → Error X
    invalid_user_agent : Error X
    h2_not_negotiated : Error X
    other : BoxError X → Error X

  -- `Box<dyn Error + Send + Sync>`, by the error in the box.
  pub data BoxError (X : Type 0) : Type 0 where
    transport : Error X → BoxError X
    timeout_expired : BoxError X
    foreign : X → BoxError X

module _ {X : Type 0} where
  unfoldable pub new_invalid_uri : Bytes → Error X
  new_invalid_uri detail = invalid_uri detail

  unfoldable pub from_source : BoxError X → Error X
  from_source source = other source

  -- The `From` instances for the errors of axum and of native_tls.
  unfoldable pub from_foreign : X → Error X
  from_foreign e = other (foreign e)
