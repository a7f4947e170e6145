-- ===== src/Tests/Fuzzing.antt =====
-- Tests of GrpcTimeout/Fuzz.antt.
use tonic_transport_native.Common.{
  ℕ, zero, suc, ◌≤◌, ◌≡◌, refl, true, Option, none, some, List, [], ◌∷◌, Bytes, All, length,
}
use tonic_transport_native.Runtime.{err, done}
use tonic_transport_native.GrpcTimeout.Print.{IsVisible-IsFieldByte}
use tonic_transport_native.GrpcTimeout.Suite.{Harness, setup_map_try_parse, fuzz, arbitrary}
use tonic_transport_native.GrpcTimeout.Fuzz.{HarnessLaws, fuzz_passes}
use tonic_transport_native.Tests.Fixtures.{
  FieldValue, FieldMap, headers, text_laws, map_laws, value_laws, from_bytes,
}

-- The generator is a number, which goes up with each choice.
abbrev pick : ℕ → ℕ → List ℕ → ℕ
pick n x [] = x
pick zero x (y ∷ ys) = x
pick (suc n) x (y ∷ ys) = pick n y ys

abbrev choose : ℕ → List ℕ → Option ℕ × ℕ
choose g [] = (none, g)
choose g (x ∷ xs) = (some (pick g x xs), suc g)

abbrev harness : Harness FieldValue FieldMap ℕ
harness = record { new = []; from_str = from_bytes; choose = choose; from_utf8 = λ s. some s }

picked-All : (P : ℕ → Type 0) (n x : ℕ) (xs : List ℕ) → All P (x ∷ xs) → P (pick n x xs)
picked-All P n x [] (p, ps) = p
picked-All P zero x (y ∷ ys) (p, ps) = p
picked-All P (suc n) x (y ∷ ys) (p, ps) = picked-All P n y ys ps

harness_lawful : HarnessLaws headers harness
harness_lawful = record {
  get-new = λ k. refl;
  from_str_visible = λ s shown. value_laws.from_bytes_valid s (IsVisible-IsFieldByte s shown);
  choose_element = λ P g x xs all. (pick g x xs, refl, picked-All P g x xs all);
  from_utf8_ascii = λ s small. refl;
}

fuzz_passes_example :
    (s : Bytes) × (g : ℕ) × (v : FieldValue) × (arbitrary headers harness 5 ≡ done (s, g))
    × (headers.as_bytes v ≡ s)
    × (setup_map_try_parse headers harness (some s) ≡ done (err v))
    × (fuzz headers harness s ≡ done true)
    × (1 ≤ length s)
    × (length s ≤ 69)
fuzz_passes_example = fuzz_passes headers harness harness_lawful text_laws map_laws 5
