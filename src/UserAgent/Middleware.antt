-- ===== src/UserAgent/Middleware.antt =====
-- `UserAgent` of src/service/user_agent.rs. The version of the package is that of Cargo.toml.
use tonic_transport_native.Common.{Option, none, some, ◌∷◌, ◌++◌, Bytes, codes}
use tonic_transport_native.Runtime.{expect, Result, Exec, done, ◌>>=◌, Poll, Service}
use tonic_transport_native.Http.{Headers, Request}

abbrev pub user_agent_name : Bytes
user_agent_name = codes "user-agent"

abbrev pub tonic_user_agent : Bytes
tonic_user_agent = codes "tonic-transport/" ++ codes "0.1.0"

pub record UserAgent (S V : Type 0) : Type 0 where
  pub inner : S
  pub user_agent : V

module _ {V M : Type 0} (h : Headers V M) where
  -- The value of the header: the given one, a space and the default, or the default alone.
  unfoldable pub header_value : Option V → Exec V
  header_value (some value) = expect (h.from_bytes (h.as_bytes value ++ b' ' ∷ tonic_user_agent))
  header_value none = h.from_static tonic_user_agent

  unfoldable pub new : {S : Type 0} → S → Option V → Exec (UserAgent S V)
  new inner user_agent = do
    value ← header_value user_agent
    done (record { inner = inner; user_agent = value })

  module _ {S U P B F E : Type 0} (svc : Service S (Request U M P B) F E) where
    unfoldable pub poll_ready : UserAgent S V → Exec (Poll (Result (Unit {0}) E) × UserAgent S V)
    poll_ready s = do
      answer ← svc.poll_ready s.inner
      done (answer.0, record s { inner = answer.1 })

    unfoldable pub call : UserAgent S V → Request U M P B → Exec (F × UserAgent S V)
    call s req = do
      answer ←
          svc.call s.inner
            (record req { headers = h.insert req.headers user_agent_name s.user_agent })
      done (answer.0, record s { inner = answer.1 })

    unfoldable pub service : Service (UserAgent S V) (Request U M P B) F E
    service = record { poll_ready = poll_ready; call = call }
