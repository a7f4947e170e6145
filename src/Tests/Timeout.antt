-- ===== src/Tests/Timeout.antt =====
-- Tests of the modules below GrpcTimeout.
use tonic_transport_native.Common.{
  ◌*◌, ◌≡◌, ◌↔◌, refl, Option, none, some, [], ◌∷◌, Bytes, codes, arith,
}
use tonic_transport_native.Runtime.{Result, ok, err, done}
use tonic_transport_native.Duration.{Duration, IsNormal, as_nanos, from_secs, from_nanos}
use tonic_transport_native.GrpcTimeout.Number.{parse_u64, sub_usize, split_at, mul_u64}
use tonic_transport_native.GrpcTimeout.Parse.{
  parse_parts, unit_duration, try_parse_grpc_timeout, grpc_timeout_header,
}
use tonic_transport_native.GrpcTimeout.Grammar.{Encodes, minute, unit_nanos}
use tonic_transport_native.GrpcTimeout.Print.{print, parse-print}
use tonic_transport_native.GrpcTimeout.Header.{
  try_parse_grpc_timeout_total, try_parse_grpc_timeout_accepts,
}
use tonic_transport_native.Tests.Fixtures.{
  FieldValue, FieldMap, headers, text_laws, visible_laws, value_laws, map_laws, field,
}

abbrev pub three_hours : FieldMap
three_hours = (grpc_timeout_header, field (codes "3H") refl) ∷ []

abbrev unit_missing : FieldMap
unit_missing = (grpc_timeout_header, field (codes "82f") refl) ∷ []

pub hours : try_parse_grpc_timeout headers three_hours ≡ done (ok (some (from_secs 10800)))
unfolding try_parse_grpc_timeout parse_parts unit_duration parse_u64 sub_usize split_at mul_u64
    from_secs from_nanos
hours = refl

nanoseconds :
    try_parse_grpc_timeout headers ((grpc_timeout_header, field (codes "82n") refl) ∷ [])
    ≡ done (ok (some (from_nanos 82)))
unfolding try_parse_grpc_timeout parse_parts unit_duration parse_u64 sub_usize split_at mul_u64
    from_secs from_nanos
nanoseconds = refl

header_not_present : try_parse_grpc_timeout headers [] ≡ done (ok none)
unfolding try_parse_grpc_timeout parse_parts unit_duration parse_u64 sub_usize split_at mul_u64
    from_secs from_nanos
header_not_present = refl

invalid_unit : try_parse_grpc_timeout headers unit_missing ≡ done (err (field (codes "82f") refl))
unfolding try_parse_grpc_timeout parse_parts unit_duration parse_u64 sub_usize split_at mul_u64
    from_secs from_nanos
invalid_unit = refl

too_many_digits :
    try_parse_grpc_timeout headers ((grpc_timeout_header, field (codes "123456789H") refl) ∷ [])
    ≡ done (err (field (codes "123456789H") refl))
unfolding try_parse_grpc_timeout parse_parts unit_duration parse_u64 sub_usize split_at mul_u64
    from_secs from_nanos
too_many_digits = refl

-- The protocol has digits only, and the parser takes a plus sign too.
plus_sign :
    try_parse_grpc_timeout headers ((grpc_timeout_header, field (codes "+5S") refl) ∷ [])
    ≡ done (ok (some (from_secs 5)))
unfolding try_parse_grpc_timeout parse_parts unit_duration parse_u64 sub_usize split_at mul_u64
    from_secs from_nanos
plus_sign = refl

try_parse_grpc_timeout_total_example :
    (r : Result (Option Duration) FieldValue) × (try_parse_grpc_timeout headers unit_missing
      ≡ done r)
try_parse_grpc_timeout_total_example = try_parse_grpc_timeout_total headers text_laws unit_missing

try_parse_grpc_timeout_accepts_example :
    (try_parse_grpc_timeout headers three_hours ≡ done (ok (some (from_secs 10800)))) ↔ (
      (val : FieldValue) × (headers.get three_hours grpc_timeout_header ≡ some val)
      × (s : Bytes) × (headers.to_str val ≡ some s)
      × Encodes s (from_secs 10800))
try_parse_grpc_timeout_accepts_example =
    try_parse_grpc_timeout_accepts headers text_laws three_hours (from_secs 10800)

parse-print_example :
    (v : FieldValue) × (headers.from_bytes (print minute 90) ≡ some v)
    × (d : Duration) × (try_parse_grpc_timeout headers
          (headers.insert three_hours grpc_timeout_header v)
        ≡ done (ok (some d)))
    × (as_nanos d ≡ 90 * unit_nanos minute)
    × IsNormal d
parse-print_example =
    parse-print headers text_laws visible_laws value_laws map_laws three_hours minute 90
      (omega arith)
