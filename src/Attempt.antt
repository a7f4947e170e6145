-- ===== src/Attempt.antt =====
-- The operator `?` of Rust on results, as the bind of do blocks.
use tonic_transport_native.Common.{◌≡◌, refl}
use tonic_transport_native.Runtime.{Result, ok, err, map_err}

infixl 5 ◌>>=◌
abbrev pub ◌>>=◌ {ℓ κ μ} :
    {A : Type ℓ} {B : Type κ} {E : Type μ} → Result A E → (A → Result B E) → Result B E
ok a >>= f = f a
err e >>= f = err e

module _ {A B E : Type 0} where
  -- What comes to a value has a first step that does.
  pub bind_ok :
      (r : Result A E) (f : A → Result B E) (b : B)
      → (r >>= f) ≡ ok b
      → (a : A) × (r ≡ ok a) × (f a ≡ ok b)
  bind_ok (ok a) f b h = (a, refl, h)
  bind_ok (err e) f b h = cc

pub map_err_ok :
    {A E E' : Type 0} (g : E → E') (r : Result A E) (a : A) → map_err g r ≡ ok a → r ≡ ok a
map_err_ok g (ok x) a h = cc
map_err_ok g (err e) a h = cc
