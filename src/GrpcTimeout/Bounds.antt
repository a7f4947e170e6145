-- ===== src/GrpcTimeout/Bounds.antt =====
-- Bounds of the durations that the parser of src/service/grpc_timeout.rs returns.
use tonic_transport_native.Common.{ℕ, ◌*◌, ◌≤◌, ◌<◌, ◌≡◌, some, arith}
use tonic_transport_native.Runtime.{ok, done}
use tonic_transport_native.Duration.{Duration, as_nanos}
use tonic_transport_native.Http.{Headers, TextLaws}
use tonic_transport_native.GrpcTimeout.Number.{Spells-small}
use tonic_transport_native.GrpcTimeout.Parse.{try_parse_grpc_timeout}
use tonic_transport_native.GrpcTimeout.Grammar.{TimeoutUnit, hour, unit_nanos}
use tonic_transport_native.GrpcTimeout.Header.{try_parse_grpc_timeout_accepts}

module _ {V M : Type 0} (h : Headers V M) (texts : TextLaws h) where
  -- A duration that the parser returns is at most 99999999 hours, so its seconds are far below the
  -- bound of a u64, and its nanoseconds are below a second.
  parsed_bounds :
      (headers : M) (d : Duration)
      → try_parse_grpc_timeout h headers ≡ done (ok (some d))
      → (d.secs ≤ 99_999_999 * 3600) × (d.nanos < 1_000_000_000)
  unfolding as_nanos
  parsed_bounds headers d e =
      let (val, present, s, read, enc) = (try_parse_grpc_timeout_accepts h texts headers d).0 e in
      (
        within enc.unit enc.number (Spells-small enc.front enc.number enc.spelled enc.short)
            enc.amount,
        enc.normal,
      )
    where
      within :
          (u : TimeoutUnit) (n : ℕ)
          → n < 100_000_000
          → as_nanos d ≡ n * unit_nanos u
          → d.secs ≤ 99_999_999 * 3600
      within hour n small same = omega arith
      within _ n small same = omega arith
