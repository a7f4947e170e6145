-- ===== src/GrpcTimeout/Deadline.antt =====
-- The time that `GrpcTimeout::call` of src/service/grpc_timeout.rs gives a request.
use mathlib.Core.Option
use tonic_transport_native.Common.{
  ◌≤◌, ◌≡◌, ◌≢◌, refl, ◌↔◌, ◌⊎◌, inl, inr, Bool-cases, Option, none, some, Bytes, arith,
}
use tonic_transport_native.Runtime.{Result, ok, err, done, Service}
use tonic_transport_native.Error.{BoxError}
use tonic_transport_native.Duration.{Duration, IsNormal, as_nanos, min, le, le_iff}
use tonic_transport_native.Http.{Headers, TextLaws}
use tonic_transport_native.GrpcTimeout.Parse.{try_parse_grpc_timeout, grpc_timeout_header}
use tonic_transport_native.GrpcTimeout.Grammar.{Encodes}
use tonic_transport_native.GrpcTimeout.Header.{
  try_parse_grpc_timeout_total, try_parse_grpc_timeout_accepts,
}
use tonic_transport_native.GrpcTimeout.Middleware.{
  GrpcTimeout, timeout_duration, client_timeout_of, call,
}

-- The time `d` is the shorter of the client's time `c` and the server's time `s`, if either is set.
pub record IsShortest (c s d : Option Duration) : Type 0 where
  pub unset : (d ≡ none) ↔ ((c ≡ none) × (s ≡ none))
  pub one_of : (x : Duration) → d ≡ some x → (c ≡ some x) ⊎ (s ≡ some x)
  pub within_client : (x y : Duration) → d ≡ some x → c ≡ some y → as_nanos x ≤ as_nanos y
  pub within_server : (x y : Duration) → d ≡ some x → s ≡ some y → as_nanos x ≤ as_nanos y

abbrev pub AllNormal : Option Duration → Type 0
AllNormal none = Unit {0}
AllNormal (some d) = IsNormal d

min_cases :
    (a b : Duration)
    → IsNormal a
    → IsNormal b
    → ((min a b ≡ a) ⊎ (min a b ≡ b))
      × (as_nanos (min a b) ≤ as_nanos a)
      × (as_nanos (min a b) ≤ as_nanos b)
unfolding min
min_cases a b p q = elim (Bool-cases (le a b)) [
  | inl first ↦ rw first (inl refl, omega arith, (le_iff a b p q).0 first)
  | inr second ↦ rw second (inr refl, ground (arith, (le_iff a b p q).1), omega arith)
]

timeout_duration-IsShortest :
    (c s : Option Duration) → AllNormal c → AllNormal s → IsShortest c s (timeout_duration c s)
unfolding timeout_duration
timeout_duration-IsShortest none none p q = record {
  unset = (λ _. (refl, refl), λ _. refl);
  one_of = λ x e. cc;
  within_client = λ x y e f. cc;
  within_server = λ x y e f. cc;
}
timeout_duration-IsShortest (some a) none p q = record {
  unset = (λ e. cc, λ e. cc (e.0));
  one_of = λ x e. inl e;
  within_client = λ x y e f. ground arith;
  within_server = λ x y e f. cc;
}
timeout_duration-IsShortest none (some b) p q = record {
  unset = (λ e. cc, λ e. cc (e.1));
  one_of = λ x e. inr e;
  within_client = λ x y e f. cc;
  within_server = λ x y e f. ground arith;
}
timeout_duration-IsShortest (some a) (some b) p q = record {
  unset = (λ e. cc, λ (e, _). cc);
  one_of = λ x e. ground (arith, min_cases a b p q);
  within_client = λ x y e f. ground (arith, min_cases a b p q);
  within_server = λ x y e f. ground (arith, min_cases a b p q);
}

module _ {V M : Type 0} (h : Headers V M) where
  -- The headers hold a text that stands for the duration.
  pub record Carries (headers : M) (d : Duration) : Type 0 where
    pub val : V
    pub present : h.get headers grpc_timeout_header ≡ some val
    pub text : Bytes
    pub read : h.to_str val ≡ some text
    pub encoded : Encodes text d

  -- The client's time: that which the headers hold, if they do.
  abbrev pub Announces : M → Option Duration → Type 0
  Announces headers none = (d : Duration) → ¬ Carries headers d
  Announces headers (some d) = Carries headers d

module _ {S R F E V M T X : Type 0} (h : Headers V M) (laws : TextLaws h) (headers : R → M)
    (sleep : Duration → T) (svc : Service S R F E) (into : E → BoxError X) where
  pub record Timed (s : GrpcTimeout S) (req : R) (f : F) (s' : S) : Type 0 where
    pub client : Option Duration
    pub announced : Announces h (headers req) client
    pub allowed : Option Duration
    pub shortest : IsShortest client s.server_timeout allowed
    pub result :
        call h headers sleep svc into s req
        ≡ done (record { inner = f; sleep = Option.map sleep allowed }, record s { inner = s' })

  refuted :
      (req : R) (r : Result (Option Duration) V)
      → try_parse_grpc_timeout h (headers req) ≡ done r
      → ((d : Duration) → r ≢ ok (some d))
      → (d : Duration) → ¬ Carries h (headers req) d
  refuted req r e other d c = other d (
      cc (
        e,
        (try_parse_grpc_timeout_accepts h laws (headers req) d).1
            (c.val, c.present, c.text, c.read, c.encoded),
      ))

  parsed_client :
      (req : R) (r : Result (Option Duration) V)
      → try_parse_grpc_timeout h (headers req) ≡ done r
      → Announces h (headers req) (client_timeout_of r) × AllNormal (client_timeout_of r)
  parsed_client req (ok (some d)) e =
      let (val, present, text, read, encoded) =
        (try_parse_grpc_timeout_accepts h laws (headers req) d).0 e in
      (
        record { val = val; present = present; text = text; read = read; encoded = encoded },
        encoded.normal,
      )
  parsed_client req (ok none) e = (refuted req (ok none) e (λ d. cc), tt)
  parsed_client req (err v) e = (refuted req (err v) e (λ d. cc), tt)

  -- If the inner service takes the request, so does this one: the response future holds the
  -- inner future and a timer for the shorter of the client's and the server's time, if either is
  -- set. A header that cannot be read counts as none.
  pub call-Timed :
      (s : GrpcTimeout S) (req : R) (f : F) (s' : S)
      → AllNormal s.server_timeout
      → svc.call s.inner req ≡ done (f, s')
      → Timed s req f s'
  unfolding call
  call-Timed s req f s' normal taken =
      let (r, parsed) = try_parse_grpc_timeout_total h laws (headers req) in
      let (announced, client_normal) = parsed_client req r parsed in
      record {
        client = client_timeout_of r;
        announced = announced;
        allowed = timeout_duration (client_timeout_of r) s.server_timeout;
        shortest =
            timeout_duration-IsShortest (client_timeout_of r) s.server_timeout client_normal normal;
        result = rw (parsed, call) (rw taken);
      }
