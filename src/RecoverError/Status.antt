-- ===== src/RecoverError/Status.antt =====
-- `try_status_from_error` of src/server/recover_error.rs. The errors of the h2 crate (`H`) and the
-- statuses of the tonic crate (`St`) are parameters.
use tonic_transport_native.Common.{
  ℕ, ◌||◌, Option, none, some, Bytes, codes, ◌++◌, ◌==◌, if◌then◌else◌,
}
use tonic_transport_native.RecoverError.Reason
use tonic_transport_native.Runtime.{Result, ok}
use tonic_transport_native.Error.{BoxError, transport, timeout_expired, foreign}

-- `tonic::Code`, which is the list of status codes of gRPC; `success` is `Code::Ok`.
pub data Code : Type 0 where
  success cancelled unknown invalid_argument deadline_exceeded not_found already_exists : Code
  permission_denied resource_exhausted failed_precondition aborted out_of_range : Code
  unimplemented internal unavailable data_loss unauthenticated : Code

-- What the source uses of h2 and tonic: `downcast` finds an error of h2 among the errors of other
-- crates, and `add_header` writes a status to a header map (`M`).
pub record Statuses (H St M X : Type 0) : Type 0 where
  pub downcast : X → Option H
  pub reason : H → Option ℕ
  pub to_string : H → Bytes
  pub status : Code → Bytes → St
  pub set_source : St → H → St
  pub add_header : St → M → Option M
  pub try_from_error : BoxError X → Result St (BoxError X)

-- The `match h2.reason()`.
unfoldable pub code_of_reason : Option ℕ → Code
code_of_reason none = unknown
code_of_reason (some r) =
    if r == Reason.no_error
      || r == Reason.protocol_error
      || r == Reason.internal_error
      || r == Reason.flow_control_error
      || r == Reason.settings_timeout
      || r == Reason.compression_error
      || r == Reason.connect_error
    then internal
    else if r == Reason.refused_stream
    then unavailable
    else if r == Reason.cancel
    then cancelled
    else if r == Reason.enhance_your_calm
    then resource_exhausted
    else if r == Reason.inadequate_security
    then permission_denied
    else unknown

module _ {H St M X : Type 0} (g : Statuses H St M X) where
  -- `err.downcast::<h2::Error>()`: the error in the box is of another crate, or it is none of h2.
  unfoldable pub downcast_h2 : BoxError X → Option H
  downcast_h2 (foreign x) = g.downcast x
  downcast_h2 (transport e) = none
  downcast_h2 timeout_expired = none

  unfoldable pub try_status_from_error : BoxError X → Result St (BoxError X)
  unfolding code_of_reason
  try_status_from_error e = elim (downcast_h2 e) [
    | some h2 ↦ ok (
        g.set_source
          (g.status (code_of_reason (g.reason h2)) (codes "h2 protocol error: " ++ g.to_string h2))
          h2)
    | none ↦ g.try_from_error e
  ]
