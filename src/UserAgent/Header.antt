-- ===== src/UserAgent/Header.antt =====
-- The `user-agent` header that src/service/user_agent.rs sends.
use tonic_transport_native.Common.{
  ◌≡◌, ◌≢◌, refl, Option, none, some, ◌∷◌, ◌++◌, Bytes, All, All-append, arith,
}
use tonic_transport_native.Runtime.{done, ◌>>=◌, Service}
use tonic_transport_native.Http.{Headers, MapLaws, ValueLaws, IsFieldByte, IsVisible, Request}
use tonic_transport_native.UserAgent.Middleware.{
  UserAgent, user_agent_name, tonic_user_agent, header_value, new, call,
}

-- The bytes of the header: the custom value and a space in front of the default.
abbrev pub expected_bytes : {V M : Type 0} → Headers V M → Option V → Bytes
expected_bytes h none = tonic_user_agent
expected_bytes h (some value) = h.as_bytes value ++ b' ' ∷ tonic_user_agent

tonic_user_agent_valid : All IsFieldByte (b' ' ∷ tonic_user_agent)
tonic_user_agent_valid = omega arith

pub tonic_user_agent-IsVisible : All IsVisible tonic_user_agent
tonic_user_agent-IsVisible = omega arith

module _ {V M : Type 0} (h : Headers V M) (values : ValueLaws h) where
  pub header_value_bytes :
      (o : Option V) → (v : V) × (header_value h o ≡ done v) × (h.as_bytes v ≡ expected_bytes h o)
  unfolding header_value
  header_value_bytes none = values.from_static_valid tonic_user_agent tonic_user_agent-IsVisible
  header_value_bytes (some value) =
      let (v, built, bytes) =
        values.from_bytes_valid (h.as_bytes value ++ b' ' ∷ tonic_user_agent) (
          All-append IsFieldByte (h.as_bytes value) (b' ' ∷ tonic_user_agent)
            (values.as_bytes_valid value) tonic_user_agent_valid) in
      (v, rw built, bytes)

  -- The middleware can be built from any custom value.
  pub new_total :
      {S : Type 0} (inner : S) (custom : Option V)
      → (layer : UserAgent S V) × (new h inner custom ≡ done layer)
  unfolding new
  new_total inner custom =
      let (v, built, _) = header_value_bytes custom in
      (record { inner = inner; user_agent = v }, rw built refl)

  module _ (maps : MapLaws h) {S U P B F E : Type 0} (svc : Service S (Request U M P B) F E)
      (inner : S) where
    -- What a call hands on: the request with other headers.
    pub record Stamped (custom : Option V) (layer : UserAgent S V) (req : Request U M P B)
        : Type 0 where
      pub headers : M
      pub value : V
      pub present : h.get headers user_agent_name ≡ some value
      pub bytes : h.as_bytes value ≡ expected_bytes h custom
      pub others :
          (name : Bytes) → user_agent_name ≢ name → h.get headers name ≡ h.get req.headers name
      pub forwarded : call h svc layer req ≡ (
          svc.call inner (record req { headers = headers }) >>= λ answer.
          done (answer.0, record layer { inner = answer.1 }))

    -- The middleware can be built from any custom value, without a panic. Every request then goes
    -- on with a `user-agent` that is the custom value and a space in front of the default, and with
    -- all else unchanged, whatever header it had before.
    pub call-Stamped :
        (custom : Option V)
        → (layer : UserAgent S V) × (new h inner custom ≡ done layer)
          × ((req : Request U M P B) → Stamped custom layer req)
    unfolding new call
    call-Stamped custom =
        let (v, built, bytes) = header_value_bytes custom in
        (
          record { inner = inner; user_agent = v },
          rw built,
          λ req. record {
            headers = h.insert req.headers user_agent_name v;
            value = v;
            present = maps.get-insert_self req.headers user_agent_name v;
            bytes = bytes;
            others = λ name other. maps.get-insert_other req.headers user_agent_name name v other;
            forwarded = refl;
          },
        )
