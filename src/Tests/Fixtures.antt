-- ===== src/Tests/Fixtures.antt =====
-- Concrete header maps, URIs, futures and services, for the tests.
use tonic_transport_native.Common.{
  ℕ, ◌≡◌, ◌≢◌, ◌<◌, refl, inl, inr, Bool, true, false, ◌&&◌, ◌||◌, not, Option, none, some, List,
  [], ◌∷◌, Bytes, All, ltb, leb, ◌==◌, eq_bytes, eq_bytes_refl, eq_bytes_sound, Bool-cases,
  if◌then◌else◌, arith,
}
use tonic_transport_native.Runtime.{ok, Exec, done, panic, Poll, ready, Future, Service}
use tonic_transport_native.Http.{
  Headers, TextLaws, MapLaws, ValueLaws, VisibleLaws, IsFieldByte, IsVisible, Parts, Uris, UriLaws,
}

-- A header value: bytes that may stand in one.
pub record FieldValue : Type 0 where
  pub bytes : Bytes
  pub valid : All IsFieldByte bytes

abbrev is_field_byte : ℕ → Bool
is_field_byte c = c == 9 || (leb 32 c && ltb c 256 && not (c == 127))

abbrev are_field_bytes : Bytes → Bool
are_field_bytes [] = true
are_field_bytes (c ∷ s) = is_field_byte c && are_field_bytes s

IsFieldByte-sound : (c : ℕ) → is_field_byte c ≡ true → IsFieldByte c
IsFieldByte-sound c h = ground arith

IsFieldByte-complete : (c : ℕ) → IsFieldByte c → is_field_byte c ≡ true
IsFieldByte-complete c h = ground arith

pub are_field_bytes_sound : (b : Bytes) → are_field_bytes b ≡ true → All IsFieldByte b
are_field_bytes_sound [] h = tt
are_field_bytes_sound (c ∷ s) h =
    (IsFieldByte-sound c (ground arith), are_field_bytes_sound s (ground arith))

are_field_bytes_complete : (b : Bytes) → All IsFieldByte b → are_field_bytes b ≡ true
are_field_bytes_complete [] h = refl
are_field_bytes_complete (c ∷ s) (p, h) =
    rw (IsFieldByte-complete c p) (are_field_bytes_complete s h)

abbrev build : (b : Bytes) (t : Bool) → are_field_bytes b ≡ t → Option FieldValue
build b true h = some (record { bytes = b; valid = are_field_bytes_sound b h })
build b false h = none

abbrev pub from_bytes : Bytes → Option FieldValue
from_bytes b = build b (are_field_bytes b) refl

build_valid :
    (b : Bytes) (t : Bool) (h : are_field_bytes b ≡ t)
    → t ≡ true
    → (v : FieldValue) × (build b t h ≡ some v) × (v.bytes ≡ b)
build_valid b true h e = (record { bytes = b; valid = are_field_bytes_sound b h }, refl, refl)
build_valid b false h e = cc

from_bytes_valid :
    (b : Bytes) → All IsFieldByte b → (v : FieldValue) × (from_bytes b ≡ some v) × (v.bytes ≡ b)
from_bytes_valid b h = build_valid b (are_field_bytes b) refl (are_field_bytes_complete b h)

abbrev unwrap : Option FieldValue → Exec FieldValue
unwrap none = panic
unwrap (some v) = done v

abbrev is_ascii : Bytes → Bool
is_ascii [] = true
is_ascii (c ∷ s) = ltb c 128 && is_ascii s

abbrev pub FieldMap : Type 0
FieldMap = List (Bytes × FieldValue)

abbrev lookup : FieldMap → Bytes → Option FieldValue
lookup [] k = none
lookup ((j, v) ∷ m) k = if eq_bytes j k then some v else lookup m k

abbrev pub headers : Headers FieldValue FieldMap
headers = record {
  get = lookup;
  insert = λ m k v. (k, v) ∷ m;
  to_str = λ v. if is_ascii v.bytes then some v.bytes else none;
  as_bytes = λ v. v.bytes;
  from_bytes = from_bytes;
  from_static = λ b. unwrap (from_bytes b);
}

is_ascii_sound : (s : Bytes) → is_ascii s ≡ true → All (λ c. c < 128) s
is_ascii_sound [] h = tt
is_ascii_sound (c ∷ s) h = (ground arith, is_ascii_sound s (ground arith))

to_str_text :
    (v : FieldValue) (s : Bytes) → headers.to_str v ≡ some s → (v.bytes ≡ s) × (is_ascii s ≡ true)
to_str_text v s h = elim (Bool-cases (is_ascii v.bytes)) [
  | inl ascii ↦
      let found : some v.bytes ≡ some s = rw ascii at h in
      let same : v.bytes ≡ s = cc in (same, rw same at ascii)
  | inr other ↦ let missing : ◌≡◌ {A = Option Bytes} none (some s) = rw other at h in cc
]

pub text_laws : TextLaws headers
text_laws = record {
  to_str-as_bytes = λ v s h. (to_str_text v s h).0;
  to_str_ascii = λ v s h. is_ascii_sound s (to_str_text v s h).1;
}

is_ascii_complete : (s : Bytes) → All IsVisible s → is_ascii s ≡ true
is_ascii_complete [] h = refl
is_ascii_complete (c ∷ s) (visible, h) =
    let small : ltb c 128 ≡ true = ground arith in rw small (is_ascii_complete s h)

pub visible_laws : VisibleLaws headers
visible_laws = record { to_str_visible = λ v shown. rw (is_ascii_complete v.bytes shown) }

lookup_other :
    (m : FieldMap) (k j : Bytes) (v : FieldValue) → k ≢ j → lookup ((k, v) ∷ m) j ≡ lookup m j
lookup_other m k j v other = elim (Bool-cases (eq_bytes k j)) [
  | inl same ↦ absurd (other (eq_bytes_sound k j same))
  | inr differ ↦ rw differ
]

pub map_laws : MapLaws headers
map_laws = record {
  get-insert_self = λ m k v. rw (eq_bytes_refl k);
  get-insert_other = lookup_other;
}

visible_field : (b : Bytes) → All IsVisible b → All IsFieldByte b
visible_field [] h = tt
visible_field (c ∷ b) (shown, h) = (inr (omega arith), visible_field b h)

pub value_laws : ValueLaws headers
value_laws = record {
  as_bytes_valid = λ v. v.valid;
  from_bytes_valid = from_bytes_valid;
  from_static_valid =
      λ b h. let (v, built, same) = from_bytes_valid b (visible_field b h) in (v, rw built, same);
}

-- A value for a literal.
abbrev pub field : (b : Bytes) → are_field_bytes b ≡ true → FieldValue
field b h = record { bytes = b; valid = are_field_bytes_sound b h }

-- URIs are their parts; those with a scheme and no path are refused.
abbrev pub Uri : Type 0
Uri = Parts Bytes Bytes Bytes

abbrev from_parts : Uri → Option Uri
from_parts p = elim (p.scheme) [
  | none ↦ some p
  | some s ↦ elim (p.path_and_query) [ none ↦ none | some q ↦ some p ]
]

abbrev pub uris : Uris Uri Bytes Bytes Bytes
uris = record {
  into_parts = λ u. u;
  from_parts = from_parts;
  host = λ u. u.authority;
  to_string = λ u. [];
}

pub uri_laws : UriLaws uris
uri_laws = record {
  from_parts_full = λ s a p.
      (record { scheme = some s; authority = some a; path_and_query = some p }, refl, refl);
  from_parts_pathless = λ s a. refl;
}

-- A future that answers its polls by a list, and panics when it is polled once more.
abbrev script_poll : {A : Type 0} → List (Poll A) → Exec (Poll A × List (Poll A))
script_poll [] = panic
script_poll (p ∷ ps) = done (p, ps)

abbrev pub script : {A : Type 0} → Future (List (Poll A)) A
script = record { poll = script_poll }

-- A service that is always ready, and answers each request by the same future.
abbrev pub echo : {R A E : Type 0} → List (Poll A) → Service (List R) R (List (Poll A)) E
echo answers = record {
  poll_ready = λ s. done (ready (ok tt), s);
  call = λ s r. done (answers, r ∷ s);
}
