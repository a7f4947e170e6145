-- ===== src/GrpcTimeout/Suite.antt =====
-- `mod tests` of src/service/grpc_timeout.rs. What it takes from the http and quickcheck crates is a
-- parameter, with the generator of random choices (`G`) as a state.
use tonic_transport_native.Common.{
  ℕ, zero, suc, ◌*◌, ◌-◌, Bool, true, false, ◌&&◌, Option, none, some, List, [], ◌∷◌, Bytes, codes,
  ◌==◌,
}
use tonic_transport_native.Runtime.{Result, Exec, done, ◌>>=◌, expect, unwrap, assert}
use tonic_transport_native.Duration.{Duration, from_secs, from_millis, from_micros, from_nanos}
use tonic_transport_native.Http.{Headers}
use tonic_transport_native.GrpcTimeout.Parse.{try_parse_grpc_timeout, grpc_timeout_header}

-- `HeaderMap::new`, `HeaderValue::from_str`, `Gen::choose` (copied) and `String::from_utf8`.
pub record Harness (V M G : Type 0) : Type 0 where
  pub new : M
  pub from_str : Bytes → Option V
  pub choose : G → List ℕ → Option ℕ × G
  pub from_utf8 : Bytes → Option Bytes

-- `assert_eq!` on durations.
abbrev pub assert_eq : Duration → Duration → Exec (Unit {0})
assert_eq left right = assert (left.secs == right.secs && left.nanos == right.nanos)

-- The numbers of `low..low + n`.
abbrev pub range : ℕ → ℕ → List ℕ
range low zero = []
range low (suc n) = low ∷ range (suc low) n

module _ {V M G : Type 0} (h : Headers V M) (t : Harness V M G) where
  unfoldable pub header_map : Option Bytes → Exec M
  header_map none = done t.new
  header_map (some v) = do hv ← expect (t.from_str v); done (h.insert t.new grpc_timeout_header hv)

  unfoldable pub setup_map_try_parse : Option Bytes → Exec (Result (Option Duration) V)
  unfolding header_map
  setup_map_try_parse val = do hm ← header_map val; try_parse_grpc_timeout h hm

  -- The first line of most tests: `setup_map_try_parse(Some(val)).unwrap().unwrap()`.
  unfoldable pub parsed : Bytes → Exec Duration
  parsed val = do result ← setup_map_try_parse (some val); timeout ← unwrap result; expect timeout

  unfoldable pub test_hours : Exec (Unit {0})
  test_hours = do
    parsed_duration ← parsed (codes "3H")
    assert_eq (from_secs (3 * 60 * 60)) parsed_duration

  unfoldable pub test_minutes : Exec (Unit {0})
  test_minutes = do parsed_duration ← parsed (codes "1M"); assert_eq (from_secs 60) parsed_duration

  unfoldable pub test_seconds : Exec (Unit {0})
  test_seconds = do parsed_duration ← parsed (codes "42S"); assert_eq (from_secs 42) parsed_duration

  unfoldable pub test_milliseconds : Exec (Unit {0})
  test_milliseconds = do
    parsed_duration ← parsed (codes "13m")
    assert_eq (from_millis 13) parsed_duration

  unfoldable pub test_microseconds : Exec (Unit {0})
  test_microseconds = do
    parsed_duration ← parsed (codes "2u")
    assert_eq (from_micros 2) parsed_duration

  unfoldable pub test_nanoseconds : Exec (Unit {0})
  test_nanoseconds = do
    parsed_duration ← parsed (codes "82n")
    assert_eq (from_nanos 82) parsed_duration

  unfoldable pub test_header_not_present : Exec (Unit {0})
  test_header_not_present = do
    result ← setup_map_try_parse none
    parsed_duration ← unwrap result
    assert (elim parsed_duration [ none ↦ true | some d ↦ false ])

  -- The three tests below should panic.
  unfoldable pub test_invalid_unit : Exec Duration
  test_invalid_unit = parsed (codes "82f")

  unfoldable pub test_too_many_digits : Exec Duration
  test_too_many_digits = parsed (codes "123456789H")

  unfoldable pub test_invalid_digits : Exec Duration
  test_invalid_digits = parsed (codes "oneH")

  unfoldable pub fuzz : Bytes → Exec Bool
  fuzz header_value = do ignored ← setup_map_try_parse (some header_value); done true

  -- The bytes of `gen_string`, one for each number of its range.
  unfoldable pub gen_bytes : ℕ → G → Exec (Bytes × G)
  gen_bytes zero g = done ([], g)
  gen_bytes (suc n) g = do
    let chosen = t.choose g (codes "ABCDEFGHIJKLMNOPQRSTUVabcdefghilpqrstuvwxyz----")
    byte ← expect chosen.0
    rest ← gen_bytes n chosen.1
    done (byte ∷ rest.0, rest.1)

  unfoldable pub gen_string : G → ℕ → ℕ → Exec (Bytes × G)
  gen_string g min max = do
    bytes ← gen_bytes (max - min) g
    text ← expect (t.from_utf8 bytes.0)
    done (text, bytes.1)

  unfoldable pub arbitrary : G → Exec (Bytes × G)
  arbitrary g = do
    let chosen = t.choose g (range 1 69)
    max ← expect chosen.0
    gen_string chosen.1 0 max
