-- ===== src/GrpcTimeout/Fuzz.antt =====
-- What `mod tests` of src/service/grpc_timeout.rs comes to, over any http and quickcheck crates.
use tonic_transport_native.Common.{
  ℕ, zero, suc, ◌-◌, ◌+◌, ◌≤◌, ◌<◌, ◌≡◌, refl, ap, ◌∙◌, Bool, true, ◌&&◌, some, none, List, [], ◌∷◌,
  Bytes, All, length, codes, ltb, leb, arith, ◌||◌, ◌++◌, sym, subst,
}
use tonic_transport_native.Runtime.{ok, err, done, panic}
use tonic_transport_native.Duration.{Duration, from_secs, from_millis, from_micros, from_nanos}
use tonic_transport_native.Http.{Headers, TextLaws, MapLaws, VisibleLaws, IsVisible}
use tonic_transport_native.GrpcTimeout.Number.{IsDigit, mul_u64, sub_usize, split_at, parse_u64}
use tonic_transport_native.GrpcTimeout.Parse.{
  unit_duration, parse_parts, parse_text, parse_value, try_parse_grpc_timeout, grpc_timeout_header,
}
use tonic_transport_native.GrpcTimeout.Grammar.{Encodes, unit_byte}
use tonic_transport_native.GrpcTimeout.Header.{try_parse_grpc_timeout_rejects}
use tonic_transport_native.GrpcTimeout.Suite.{
  Harness, range, header_map, setup_map_try_parse, parsed, test_hours, test_minutes, test_seconds,
  test_milliseconds, test_microseconds, test_nanoseconds, test_header_not_present,
  test_invalid_unit, test_too_many_digits, test_invalid_digits, fuzz, gen_bytes, gen_string,
  arbitrary,
}

-- The documented behaviour of what the tests take from other crates: a new map is empty, visible
-- ASCII makes a header value, `choose` returns an element of a slice that has one (so what is true
-- of all elements is true of it), and ASCII is UTF-8.
pub record HarnessLaws {V M G : Type 0} (h : Headers V M) (t : Harness V M G) : Type 1 where
  pub get-new : (k : Bytes) → h.get t.new k ≡ none
  pub from_str_visible :
      (s : Bytes) → All IsVisible s → (v : V) × (t.from_str s ≡ some v) × (h.as_bytes v ≡ s)
  pub choose_element :
      (P : ℕ → Type 0) (g : G) (x : ℕ) (xs : List ℕ)
      → All P (x ∷ xs)
      → (y : ℕ) × ((t.choose g (x ∷ xs)).0 ≡ some y) × P y
  pub from_utf8_ascii : (s : Bytes) → All (λ c. c < 128) s → t.from_utf8 s ≡ some s

abbrev are_visible : Bytes → Bool
are_visible [] = true
are_visible (c ∷ s) = leb 32 c && ltb c 127 && are_visible s

are_visible_sound : (s : Bytes) → are_visible s ≡ true → All IsVisible s
are_visible_sound [] e = tt
are_visible_sound (c ∷ s) e = (ground arith, are_visible_sound s (ground arith))

IsVisible-ascii : (s : Bytes) → All IsVisible s → All (λ c. c < 128) s
IsVisible-ascii [] v = tt
IsVisible-ascii (c ∷ s) (v, vs) = (omega arith, IsVisible-ascii s vs)

range_within :
    (n low bottom top : ℕ)
    → bottom ≤ low
    → low + n ≤ suc top
    → All (λ x. (bottom ≤ x) × (x ≤ top)) (range low n)
range_within zero low bottom top above within = tt
range_within (suc n) low bottom top above within =
    ((above, omega arith), range_within n (suc low) bottom top (omega arith) (omega arith))

abbrev IsDigitless : ℕ → Type 0
IsDigitless c = ¬ IsDigit c

abbrev are_digitless : Bytes → Bool
are_digitless [] = true
are_digitless (c ∷ s) = (ltb c (b'0') || ltb (b'9') c) && are_digitless s

abbrev IsGenerated : ℕ → Type 0
IsGenerated c = IsVisible c × IsDigitless c

are_digitless_sound :
    (s : Bytes) → are_visible s ≡ true → are_digitless s ≡ true → All IsGenerated s
are_digitless_sound [] e k = tt
are_digitless_sound (c ∷ s) e k = (
  (ground arith, λ (low, high). absurd (ground arith)),
  are_digitless_sound s (ground arith) (ground arith),
)

IsGenerated-IsVisible : (s : Bytes) → All IsGenerated s → All IsVisible s
IsGenerated-IsVisible [] a = tt
IsGenerated-IsVisible (c ∷ s) ((v, d), a) = (v, IsGenerated-IsVisible s a)

-- A text of which some part has a digit is none of the generator's.
digit_within :
    (xs ys zs : Bytes) → All IsGenerated ((xs ++ ys) ++ zs) → All IsDigit ys → 0 < length ys → ⊥
digit_within [] [] zs a d some_digits = absurd (omega arith)
digit_within [] (y ∷ ys) zs ((v, digitless), a) (d, ds) some_digits = digitless d
digit_within (x ∷ xs) ys zs (g, a) d some_digits = digit_within xs ys zs a d some_digits

-- Without a digit a text stands for no duration.
generated_meaningless : (s : Bytes) (d : Duration) → All IsGenerated s → ¬ Encodes s d
generated_meaningless s d a enc =
    digit_within enc.spelled.sign enc.spelled.digits (unit_byte enc.unit ∷ [])
      (subst (All IsGenerated) (enc.text ∙ ap (λ f. f ++ unit_byte enc.unit ∷ []) enc.spelled.text)
        a)
      enc.spelled.is_digits enc.spelled.some_digits

module _ {V M G : Type 0} (h : Headers V M) (t : Harness V M G) (laws : HarnessLaws h t)
    (texts : TextLaws h) (maps : MapLaws h) (visible : VisibleLaws h) where
  -- A visible text is set in the header and read from it.
  setup_text :
      (s : Bytes)
      → All IsVisible s
      → (v : V) × (h.as_bytes v ≡ s) × (setup_map_try_parse h t (some s) ≡ parse_text h v s)
  unfolding setup_map_try_parse header_map try_parse_grpc_timeout parse_value
  setup_text s shown =
      let (v, made, bytes) = laws.from_str_visible s shown in
      let read : h.to_str v ≡ some s = visible.to_str_visible v (rw bytes shown) ∙ ap some bytes in
      (
        v,
        bytes,
        rw made (
            rw (maps.get-insert_self t.new grpc_timeout_header v, try_parse_grpc_timeout)
              (rw (read, parse_value) refl)),
      )

  parsed-some :
      (s : Bytes) (d : Duration)
      → are_visible s ≡ true
      → ((v : V) → h.as_bytes v ≡ s → parse_text h v s ≡ done (ok (some d)))
      → parsed h t s ≡ done d
  unfolding parsed
  parsed-some s d shown reads =
      let (v, bytes, e) = setup_text s (are_visible_sound s shown) in rw e (rw (reads v bytes) refl)

  parsed_panics :
      (s : Bytes)
      → are_visible s ≡ true
      → ((v : V) → h.as_bytes v ≡ s → parse_text h v s ≡ done (err v))
      → parsed h t s ≡ panic
  unfolding parsed
  parsed_panics s shown rejects =
      let (v, bytes, e) = setup_text s (are_visible_sound s shown) in
      rw e (rw (rejects v bytes) refl)

  -- The tests of single texts pass: seven return, and the three that should panic do.
  pub units_pass :
      (test_hours h t ≡ done tt)
      × (test_minutes h t ≡ done tt)
      × (test_seconds h t ≡ done tt)
      × (test_milliseconds h t ≡ done tt)
      × (test_microseconds h t ≡ done tt)
      × (test_nanoseconds h t ≡ done tt)
      × (test_header_not_present h t ≡ done tt)
      × (test_invalid_unit h t ≡ panic)
      × (test_too_many_digits h t ≡ panic)
      × (test_invalid_digits h t ≡ panic)
  unfolding test_hours test_minutes test_seconds test_milliseconds test_microseconds
      test_nanoseconds test_header_not_present test_invalid_unit test_too_many_digits
      test_invalid_digits setup_map_try_parse header_map try_parse_grpc_timeout parse_text
      parse_parts unit_duration parse_u64 sub_usize split_at mul_u64 from_secs from_millis
      from_micros from_nanos
  units_pass = (
    rw (parsed-some (codes "3H") (from_secs 10800) refl (λ v bytes. rw bytes refl)) refl,
    rw (parsed-some (codes "1M") (from_secs 60) refl (λ v bytes. rw bytes refl)) refl,
    rw (parsed-some (codes "42S") (from_secs 42) refl (λ v bytes. rw bytes refl)) refl,
    rw (parsed-some (codes "13m") (from_millis 13) refl (λ v bytes. rw bytes refl)) refl,
    rw (parsed-some (codes "2u") (from_micros 2) refl (λ v bytes. rw bytes refl)) refl,
    rw (parsed-some (codes "82n") (from_nanos 82) refl (λ v bytes. rw bytes refl)) refl,
    rw (laws.get-new grpc_timeout_header, try_parse_grpc_timeout) refl,
    parsed_panics (codes "82f") refl (λ v bytes. rw bytes refl),
    parsed_panics (codes "123456789H") refl (λ v bytes. rw bytes refl),
    parsed_panics (codes "oneH") refl (λ v bytes. rw bytes refl),
  )

module _ {V M G : Type 0} (h : Headers V M) (t : Harness V M G) (laws : HarnessLaws h t)
    (texts : TextLaws h) (maps : MapLaws h) where
  gen_bytes-IsGenerated :
      (n : ℕ) (g : G)
      → (s : Bytes) × (g' : G) × (gen_bytes h t n g ≡ done (s, g'))
        × All IsGenerated s
        × (length s ≡ n)
  unfolding gen_bytes
  gen_bytes-IsGenerated zero g = ([], g, refl, tt, refl)
  gen_bytes-IsGenerated (suc n) g =
      let (c, chosen, shown) =
        laws.choose_element IsGenerated g (b'A')
          (codes "BCDEFGHIJKLMNOPQRSTUVabcdefghilpqrstuvwxyz----")
          (are_digitless_sound (codes "ABCDEFGHIJKLMNOPQRSTUVabcdefghilpqrstuvwxyz----") refl
            refl) in
      let (s, g', made, rest, size) =
        gen_bytes-IsGenerated n
          (t.choose g (codes "ABCDEFGHIJKLMNOPQRSTUVabcdefghilpqrstuvwxyz----")).1 in
      (c ∷ s, g', rw chosen (rw made refl), (shown, rest), ap suc size)

  arbitrary_done :
      (g g' : G) (max : ℕ) (s : Bytes)
      → (t.choose g (range 1 69)).0 ≡ some max
      → gen_bytes h t (max - 0) (t.choose g (range 1 69)).1 ≡ done (s, g')
      → All IsVisible s
      → arbitrary h t g ≡ done (s, g')
  unfolding arbitrary gen_string
  arbitrary_done g g' max s chosen made shown =
      rw chosen (rw made (rw (laws.from_utf8_ascii s (IsVisible-ascii s shown)) refl))

  -- What is generated is handed back as unreadable.
  generated_rejected :
      (s : Bytes) (v : V)
      → All IsGenerated s
      → h.as_bytes v ≡ s
      → try_parse_grpc_timeout h (h.insert t.new grpc_timeout_header v) ≡ done (err v)
  generated_rejected s v a bytes =
      let (to, from) =
        try_parse_grpc_timeout_rejects h texts (h.insert t.new grpc_timeout_header v) v in
      from (
        maps.get-insert_self t.new grpc_timeout_header v,
        λ text d read.
            generated_meaningless text d
              (subst (All IsGenerated) (sym bytes ∙ texts.to_str-as_bytes v text read) a),
      )

  -- Given `HarnessLaws`, `TextLaws` and `MapLaws`: whatever the generator of the fuzz test
  -- chooses, it makes a text of 1 to 69 bytes without a panic, the text is always one that the
  -- parser rejects with its header value, and the fuzz test of that text does not panic and
  -- passes.
  pub fuzz_passes :
      (g : G)
      → (s : Bytes) × (g' : G) × (v : V) × (arbitrary h t g ≡ done (s, g'))
        × (h.as_bytes v ≡ s)
        × (setup_map_try_parse h t (some s) ≡ done (err v))
        × (fuzz h t s ≡ done true)
        × (1 ≤ length s)
        × (length s ≤ 69)
  unfolding fuzz setup_map_try_parse header_map
  fuzz_passes g =
      let (max, chosen, (low, high)) =
        laws.choose_element (λ n. (1 ≤ n) × (n ≤ 69)) g 1 (range 2 68)
          (range_within 69 1 1 69 (omega arith) (omega arith)) in
      let (s, g', made, a, size) = gen_bytes-IsGenerated (max - 0) (t.choose g (range 1 69)).1 in
      let shown = IsGenerated-IsVisible s a in
      let (v, valued, bytes) = laws.from_str_visible s shown in
      let rejected = generated_rejected s v a bytes in
      (
        s,
        g',
        v,
        arbitrary_done g g' max s chosen made shown,
        bytes,
        rw valued rejected,
        rw valued (rw rejected refl),
        omega (arith, size),
        omega (arith, size),
      )
