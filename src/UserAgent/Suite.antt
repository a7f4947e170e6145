-- ===== src/UserAgent/Suite.antt =====
-- `mod tests` of src/service/user_agent.rs, over any http crate.
use tonic_transport_native.Common.{
  ◌≡◌, ◌∙◌, sym, refl, Bool, true, Option, none, some, ◌++◌, Bytes, codes, All, arith,
}
use tonic_transport_native.Runtime.{Exec, done, ◌>>=◌, expect, assert}
use tonic_transport_native.Http.{Headers, ValueLaws, IsFieldByte}
use tonic_transport_native.UserAgent.Middleware.{tonic_user_agent, new}
use tonic_transport_native.UserAgent.Header.{tonic_user_agent-IsVisible, header_value_bytes}

-- `from_str` is `HeaderValue::from_str`, and `eq` the `==` on header values.
module _ {V M : Type 0} (h : Headers V M) (from_str : Bytes → Option V) (eq : V → V → Bool) where
  sets_default_if_no_custom_user_agent : Exec (Unit {0})
  sets_default_if_no_custom_user_agent = do
    layer ← new h {S = Unit {0}} tt none
    value ← h.from_static tonic_user_agent
    assert (eq layer.user_agent value)

  prepends_custom_user_agent_to_default : Exec (Unit {0})
  prepends_custom_user_agent_to_default = do
    custom ← h.from_static (codes "Greeter 1.1")
    layer ← new h {S = Unit {0}} tt (some custom)
    value ← expect (from_str (codes "Greeter 1.1 " ++ tonic_user_agent))
    assert (eq layer.user_agent value)

  -- Both tests pass, if values of the same bytes are equal and a value can be made of a text that is
  -- valid in one.
  suite_passes :
      (values : ValueLaws h) (same : (v w : V) → h.as_bytes v ≡ h.as_bytes w → eq v w ≡ true)
      (valid : (s : Bytes)
        → All IsFieldByte s
        → (v : V) × (from_str s ≡ some v) × (h.as_bytes v ≡ s))
      → (sets_default_if_no_custom_user_agent ≡ done tt)
        × (prepends_custom_user_agent_to_default ≡ done tt)
  unfolding sets_default_if_no_custom_user_agent prepends_custom_user_agent_to_default new
  suite_passes values same valid =
      let (v, built, bytes) = header_value_bytes h values none in
      let (w, made, text) = values.from_static_valid tonic_user_agent tonic_user_agent-IsVisible in
      let (c, static, greeter) = values.from_static_valid (codes "Greeter 1.1") (omega arith) in
      let (x, set, both) = header_value_bytes h values (some c) in
      let (y, read, whole) = valid (codes "Greeter 1.1 " ++ tonic_user_agent) (omega arith) in
      let first : eq v w ≡ true = same v w (bytes ∙ sym text) in
      let second : eq x y ≡ true = same x y (both ∙ rw greeter (sym whole)) in
      (rw built (rw made (rw first refl)), rw static (rw set (rw read (rw second refl))))
