-- ===== src/GrpcTimeout/Parse.antt =====
-- `try_parse_grpc_timeout` of src/service/grpc_timeout.rs. The header map and its values are
-- those of the http crate; a result `err v` hands the unreadable value back.
use tonic_transport_native.Common.{
  ℕ, ◌*◌, Bool, true, false, Option, none, some, [], ◌∷◌, Bytes, codes, length, ltb, eq_bytes,
  if◌then◌else◌,
}
use tonic_transport_native.Runtime.{Result, ok, err, Exec, done, ◌>>=◌}
use tonic_transport_native.Duration.{Duration, from_secs, from_millis, from_micros, from_nanos}
use tonic_transport_native.Http.{Headers}
use tonic_transport_native.GrpcTimeout.Number.{mul_u64, sub_usize, split_at, parse_u64}

abbrev pub grpc_timeout_header : Bytes
grpc_timeout_header = codes "grpc-timeout"

abbrev pub seconds_in_hour : ℕ
seconds_in_hour = 60 * 60

abbrev pub seconds_in_minute : ℕ
seconds_in_minute = 60

abbrev pub is_empty : Bytes → Bool
is_empty [] = true
is_empty (c ∷ s) = false

module _ {V M : Type 0} (h : Headers V M) where
  -- The `match timeout_unit`.
  unfoldable pub unit_duration : V → ℕ → Bytes → Exec (Result (Option Duration) V)
  unit_duration val timeout_value timeout_unit =
      if eq_bytes timeout_unit (codes "H")
      then (do n ← mul_u64 timeout_value seconds_in_hour; done (ok (some (from_secs n))))
      else if eq_bytes timeout_unit (codes "M")
      then (do n ← mul_u64 timeout_value seconds_in_minute; done (ok (some (from_secs n))))
      else if eq_bytes timeout_unit (codes "S")
      then done (ok (some (from_secs timeout_value)))
      else if eq_bytes timeout_unit (codes "m")
      then done (ok (some (from_millis timeout_value)))
      else if eq_bytes timeout_unit (codes "u")
      then done (ok (some (from_micros timeout_value)))
      else if eq_bytes timeout_unit (codes "n")
      then done (ok (some (from_nanos timeout_value)))
      else done (err val)

  -- From the length test on, with the text split into the value and the unit.
  unfoldable pub parse_parts : V → Bytes → Bytes → Exec (Result (Option Duration) V)
  unfolding unit_duration
  parse_parts val timeout_value timeout_unit =
      if ltb 8 (length timeout_value) then done (err val) else elim (parse_u64 timeout_value) [
        | none ↦ done (err val)
        | some n ↦ unit_duration val n timeout_unit
      ]

  -- What is done with the text of a value.
  unfoldable pub parse_text : V → Bytes → Exec (Result (Option Duration) V)
  parse_text val s = if is_empty s then done (err val) else (do
    mid ← sub_usize (length (h.as_bytes val)) 1
    parts ← split_at s mid
    parse_parts val parts.0 parts.1)

  -- The arm for a header that is present.
  unfoldable pub parse_value : V → Exec (Result (Option Duration) V)
  parse_value val = elim (h.to_str val) [ none ↦ done (err val) | some s ↦ parse_text val s ]

  unfoldable pub try_parse_grpc_timeout : M → Exec (Result (Option Duration) V)
  unfolding parse_value parse_text
  try_parse_grpc_timeout headers = elim (h.get headers grpc_timeout_header) [
    | none ↦ done (ok none)
    | some val ↦ parse_value val
  ]
