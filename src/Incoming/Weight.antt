-- ===== src/Incoming/Weight.antt =====
-- Weights of lists, and of what `remove` of Incoming/Loop.antt leaves of them.
use tonic_transport_native.Common.{
  ℕ, zero, suc, ◌+◌, ◌≡◌, refl, Option, none, some, List, [], ◌∷◌, ◌++◌, arith,
}
use tonic_transport_native.Incoming.Loop.{cons_to, remove}

-- The sum of weights over a list.
unfoldable pub weight : {A : Type 0} → (A → ℕ) → List A → ℕ
weight w [] = 0
weight w (x ∷ xs) = w x + weight w xs

pub weight-append :
    {A : Type 0} (w : A → ℕ) (xs ys : List A) → weight w (xs ++ ys) ≡ weight w xs + weight w ys
unfolding weight
weight-append w [] ys = omega arith
weight-append w (x ∷ xs) ys = omega (arith, weight-append w xs ys)

pub weight-remove :
    {A : Type 0} (w : A → ℕ) (i : ℕ) (xs : List A) (y : A) (rest : List A)
    → remove i xs ≡ some (y, rest)
    → weight w xs ≡ w y + weight w rest
unfolding weight remove
weight-remove w i [] y rest h = cc
weight-remove w zero (x ∷ xs) y rest h = ground arith
weight-remove w (suc i) (x ∷ xs) y rest h = after (remove i xs) (weight-remove w i xs) h
  where
    after :
        (o : Option (_ × List _))
        → ((z : _) (zs : List _) → o ≡ some (z, zs) → weight w xs ≡ w z + weight w zs)
        → cons_to x o ≡ some (y, rest)
        → weight w (x ∷ xs) ≡ w y + weight w rest
    after none ih h = cc
    after (some (z, zs)) ih h = ground (arith, ih z zs refl)
