-- ===== src/Latest.antt =====
-- The last of a list of calls that writes a value, which the builders of a channel and of a server
-- are specified by.
use tonic_transport_native.Common.{◌≡◌, Option, none, some, List, [], ◌∷◌, unwrap_or, arith}

module _ {ℓ κ} {C : Type ℓ} {A : Type κ} (writes : C → Option A) where
  -- What the last call that writes a value writes, if any does.
  abbrev pub last_write : List C → Option A
  last_write [] = none
  last_write (c ∷ cs) = elim (last_write cs) [ some a ↦ some a | none ↦ writes c ]

  -- The value that is there in the end, if `old` was there before.
  abbrev pub latest : List C → A → A
  latest cs old = unwrap_or (last_write cs) old

  pub latest-cons :
      (c : C) (cs : List C) (old : A) → latest cs (unwrap_or (writes c) old) ≡ latest (c ∷ cs) old
  latest-cons c cs old = ground arith
