-- ===== src/Error/Display.antt =====
-- How the errors of src/lib.rs and of src/service/grpc_timeout.rs are printed.
use tonic_transport_native.Common.{
  ℕ, ◌≡◌, refl, sym, ap, ◌∙◌, ◌++◌, Bytes, codes, take, drop, eq_bytes, if◌then◌else◌,
}
use tonic_transport_native.Error.{
  Error, BoxError, invalid_uri, invalid_user_agent, h2_not_negotiated, other, transport,
  timeout_expired, foreign,
}

unfoldable pub display_timeout_expired : Bytes
display_timeout_expired = codes "Timeout expired"

-- The variant that a text begins like, by its first and its ninth byte.
abbrev told : Bytes → ℕ
told text =
    if eq_bytes (take 1 text) (codes "H")
    then 2
    else if eq_bytes (take 1 text) (codes "U")
    then 3
    else if eq_bytes (take 1 (drop 8 text)) (codes "U")
    then 0
    else 1

-- `print` is the `Display` of the errors of other crates.
module _ {X : Type 0} (print : X → Bytes) where
  unfoldable mutual
    unfolding display_timeout_expired

    pub display : Error X → Bytes
    display (invalid_uri detail) = codes "Invalid URI: " ++ detail
    display invalid_user_agent = codes "Invalid user agent"
    display h2_not_negotiated = codes "HTTP/2 was not negotiated"
    display (other source) = codes "Unknown error " ++ display_box source

    pub display_box : BoxError X → Bytes
    display_box (transport e) = display e
    display_box timeout_expired = display_timeout_expired
    display_box (foreign e) = print e

  -- The variants of `Error`, less what is in them.
  abbrev variant : Error X → ℕ
  variant (invalid_uri detail) = 0
  variant invalid_user_agent = 1
  variant h2_not_negotiated = 2
  variant (other source) = 3

  -- The text of an error tells its variant, whatever is printed of what is in it.
  told-display : (e : Error X) → told (display e) ≡ variant e
  unfolding display
  told-display (invalid_uri detail) = refl
  told-display invalid_user_agent = refl
  told-display h2_not_negotiated = refl
  told-display (other source) = refl

  -- So errors that are printed in the same way are of the same variant.
  pub display-variant : (e e' : Error X) → display e ≡ display e' → variant e ≡ variant e'
  display-variant e e' same = sym (told-display e) ∙ ap told same ∙ told-display e'
