-- ===== src/Tests/Recovering.antt =====
-- Tests of the modules below RecoverError.
use tonic_transport_native.Common.{ℕ, ◌≡◌, ◌≢◌, ◌↔◌, refl, Option, none, some, []}
use tonic_transport_native.Runtime.{Result, ok, err}
use tonic_transport_native.Error.{BoxError, foreign, timeout_expired, transport}
use tonic_transport_native.RecoverError.Status.{Code, cancelled, code_of_reason, Statuses}
use tonic_transport_native.RecoverError.Recovery.{documented, code_of_reason_iff, StatusLaws}

-- An error of h2 is known by its reason, a status by its code, and a header map by the status in it.
abbrev try_from : BoxError ℕ → Result Code (BoxError ℕ)
try_from timeout_expired = ok cancelled
try_from (foreign x) = err (foreign x)
try_from (transport e) = err (transport e)

abbrev pub statuses : Statuses ℕ Code (Option Code) ℕ
statuses = record {
  downcast = λ x. some x;
  reason = λ h. some h;
  to_string = λ h. [];
  status = λ c message. c;
  set_source = λ s h. s;
  add_header = λ s m. some (some s);
  try_from_error = try_from;
}

pub statuses_lawful : StatusLaws statuses (λ s. s) (λ m. m) none
statuses_lawful = record {
  code-status = λ c message h. refl;
  add_header_ok = λ s. (some s, refl, refl);
}

code_of_reason_iff_example : (code_of_reason (some 6) ≡ documented 6) ↔ (◌≢◌ {A = ℕ} 6 6)
code_of_reason_iff_example = code_of_reason_iff 6
