-- ===== src/Http.antt =====
-- What the source uses of the http crate. Header values (`V`) and header maps (`M`) are parameters
-- with the operations below; names of headers are byte strings.
use tonic_transport_native.Common.{ℕ, Bytes, ◌<◌, ◌≤◌, ◌≡◌, ◌≢◌, ◌⊎◌, Option, some, none, All}
use tonic_transport_native.Runtime.{Exec, done}

pub record Headers (V M : Type 0) : Type 0 where
  pub get : M → Bytes → Option V
  pub insert : M → Bytes → V → M
  pub to_str : V → Option Bytes
  pub as_bytes : V → Bytes
  pub from_bytes : Bytes → Option V
  pub from_static : Bytes → Exec V

-- The bytes that a header value may hold: a tab, and all from the space up but DEL.
abbrev pub IsFieldByte : ℕ → Type 0
IsFieldByte c = (c ≡ 9) ⊎ ((32 ≤ c) × (c < 256) × (c ≢ 127))

-- The documented behaviour of `HeaderValue::to_str`.
pub record TextLaws {V M : Type 0} (h : Headers V M) : Type 0 where
  pub to_str-as_bytes : (v : V) (s : Bytes) → h.to_str v ≡ some s → h.as_bytes v ≡ s
  pub to_str_ascii : (v : V) (s : Bytes) → h.to_str v ≡ some s → All (λ c. c < 128) s

-- The documented behaviour of `HeaderMap::insert` and `HeaderMap::get`.
pub record MapLaws {V M : Type 0} (h : Headers V M) : Type 0 where
  pub get-insert_self : (m : M) (k : Bytes) (v : V) → h.get (h.insert m k v) k ≡ some v
  pub get-insert_other :
      (m : M) (k j : Bytes) (v : V) → k ≢ j → h.get (h.insert m k v) j ≡ h.get m j

-- The bytes of visible ASCII: from the space up to below DEL.
abbrev pub IsVisible : ℕ → Type 0
IsVisible c = (32 ≤ c) × (c < 127)

-- The documented behaviour of `HeaderValue::from_bytes`, and of `HeaderValue::from_static` on visible
-- ASCII; it panics on other text.
pub record ValueLaws {V M : Type 0} (h : Headers V M) : Type 0 where
  pub as_bytes_valid : (v : V) → All IsFieldByte (h.as_bytes v)
  pub from_bytes_valid :
      (b : Bytes) → All IsFieldByte b → (v : V) × (h.from_bytes b ≡ some v) × (h.as_bytes v ≡ b)
  pub from_static_valid :
      (b : Bytes) → All IsVisible b → (v : V) × (h.from_static b ≡ done v) × (h.as_bytes v ≡ b)

-- The documented behaviour of `HeaderValue::to_str` on a value of visible ASCII.
pub record VisibleLaws {V M : Type 0} (h : Headers V M) : Type 0 where
  pub to_str_visible : (v : V) → All IsVisible (h.as_bytes v) → h.to_str v ≡ some (h.as_bytes v)

-- The parts of a URI, by the types of a scheme, an authority and a path with its query.
pub record Parts (Sc Au Pq : Type 0) : Type 0 where
  pub scheme : Option Sc
  pub authority : Option Au
  pub path_and_query : Option Pq

pub record Uris (U Sc Au Pq : Type 0) : Type 0 where
  pub into_parts : U → Parts Sc Au Pq
  pub from_parts : Parts Sc Au Pq → Option U
  pub host : U → Option Bytes
  pub to_string : U → Bytes

-- The documented behaviour of `Uri::from_parts`: with all three parts there is a URI, which has
-- these parts, and with a scheme and no path there is none.
pub record UriLaws {U Sc Au Pq : Type 0} (u : Uris U Sc Au Pq) : Type 0 where
  pub from_parts_full :
      (s : Sc) (a : Au) (p : Pq)
      → (uri : U) × (u.from_parts
            (record { scheme = some s; authority = some a; path_and_query = some p })
          ≡ some uri)
        × (u.into_parts uri
            ≡ record { scheme = some s; authority = some a; path_and_query = some p })
  pub from_parts_pathless :
      (s : Sc) (a : Au)
      → u.from_parts (record { scheme = some s; authority = some a; path_and_query = none }) ≡ none

-- The head of a request that the source reads or writes, its other parts (`P`: the method, the
-- version, the extensions) and its body.
pub record Request (U M P B : Type 0) : Type 0 where
  pub uri : U
  pub headers : M
  pub rest : P
  pub body : B
