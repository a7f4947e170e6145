-- ===== src/Runtime.antt =====
-- What the source takes from Rust and from the futures and tower crates: results, panics, polls,
-- and the traits `Future` and `Service` as records of operations.

use tonic_transport_native.Common.{Bool, if◌then◌else◌, Option, none, some, ℕ, suc, ◌≡◌, refl}

-- `std::result::Result`.
pub data Result {ℓ κ} (A : Type ℓ) (E : Type κ) : Type (ℓ ⊔ κ) where
  ok : A → Result A E
  err : E → Result A E

abbrev pub map_ok {ℓ κ μ} :
    {A : Type ℓ} {B : Type κ} {E : Type μ} → (A → B) → Result A E → Result B E
map_ok f (ok a) = ok (f a)
map_ok f (err e) = err e

abbrev pub map_err {ℓ κ μ} :
    {A : Type ℓ} {E : Type κ} {E' : Type μ} → (E → E') → Result A E → Result A E'
map_err f (ok a) = ok a
map_err f (err e) = err (f e)

-- How a piece of code ends: with a value, by a panic, or not within the fuel of its loop.
pub data Exec {ℓ} (A : Type ℓ) : Type ℓ where
  done : A → Exec A
  panic : Exec A
  out_of_fuel : Exec A

infixl 5 ◌>>=◌ ◌>>◌
abbrev pub ◌>>=◌ {ℓ κ} : {A : Type ℓ} {B : Type κ} → Exec A → (A → Exec B) → Exec B
done a >>= f = f a
panic >>= f = panic
out_of_fuel >>= f = out_of_fuel

abbrev pub ◌>>◌ {ℓ κ} : {A : Type ℓ} {B : Type κ} → Exec A → Exec B → Exec B
m >> k = m >>= λ _. k

pub bind_assoc {ℓ κ μ} :
    {A : Type ℓ} {B : Type κ} {C : Type μ} (m : Exec A) (f : A → Exec B) (g : B → Exec C)
    → (m >>= f >>= g) ≡ (m >>= λ a. f a >>= g)
bind_assoc (done a) f g = refl
bind_assoc panic f g = refl
bind_assoc out_of_fuel f g = refl

pub bind_same {ℓ κ} :
    {A : Type ℓ} {B : Type κ} (m : Exec A) (f g : A → Exec B)
    → ((a : A) → f a ≡ g a)
    → (m >>= f) ≡ (m >>= g)
bind_same (done a) f g h = h a
bind_same panic f g h = refl
bind_same out_of_fuel f g h = refl

-- Code that ends with a value has a first part that does.
pub bind_done :
    {A B : Type 0} (m : Exec A) (f : A → Exec B) (b : B)
    → (m >>= f) ≡ done b
    → (a : A) × (m ≡ done a) × (f a ≡ done b)
bind_done (done a) f b h = (a, refl, h)
bind_done panic f b h = cc
bind_done out_of_fuel f b h = cc

-- `Option::expect`.
abbrev pub expect {ℓ} : {A : Type ℓ} → Option A → Exec A
expect none = panic
expect (some a) = done a

-- `Result::unwrap`.
abbrev pub unwrap {ℓ κ} : {A : Type ℓ} {E : Type κ} → Result A E → Exec A
unwrap (ok a) = done a
unwrap (err e) = panic

-- `assert!`.
abbrev pub assert : Bool → Exec (Unit {0})
assert b = if b then done tt else panic

-- `std::task::Poll`.
pub data Poll {ℓ} (A : Type ℓ) : Type ℓ where
  pending : Poll A
  ready : A → Poll A

abbrev pub map_poll {ℓ κ} : {A : Type ℓ} {B : Type κ} → (A → B) → Poll A → Poll B
map_poll f pending = pending
map_poll f (ready a) = ready (f a)

-- `Future` with output `A`, on the state `F`. What the environment does between two polls is
-- part of that state, so a future may answer its polls in any way at all.
pub record Future (F A : Type 0) : Type 0 where
  pub poll : F → Exec (Poll A × F)

-- `tower::Service` on the state `S`, for requests `R`, with futures `F` and errors `E`.
pub record Service (S R F E : Type 0) : Type 0 where
  pub poll_ready : S → Exec (Poll (Result (Unit {0}) E) × S)
  pub call : S → R → Exec (F × S)

-- What a future does under repeated polls.
module _ {F A : Type 0} (fut : Future F A) where
  -- The first `k` polls are answered `pending`, and the next one `ready a`.
  pub data Resolves : F → ℕ → A → Type 0 where
    now : (f : F) {g : F} {a : A} → fut.poll f ≡ done (ready a, g) → Resolves f 0 a
    later :
        (f : F) {g : F} {k : ℕ} {a : A}
        → fut.poll f ≡ done (pending, g)
        → Resolves g k a
        → Resolves f (suc k) a

  -- The first `k` polls are answered `pending`.
  pub data Waits : F → ℕ → Type 0 where
    idle : (f : F) → Waits f 0
    still : (f : F) {g : F} {k : ℕ} → fut.poll f ≡ done (pending, g) → Waits g k → Waits f (suc k)
