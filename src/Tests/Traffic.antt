-- ===== src/Tests/Traffic.antt =====
-- Tests of Connector/Traffic.antt.
use tonic_transport_native.Common.{ℕ, ◌+◌, ◌≡◌, List, [], ◌∷◌, codes, length}
use tonic_transport_native.Runtime.{ok, ready}
use tonic_transport_native.Connector.Io.{Io, new, boxed}
use tonic_transport_native.Connector.Traffic.{
  Call, read, write, flush, traffic, traffic-boxed_twice,
}

-- A stream that counts the bytes that are written, and reads as its count.
abbrev counter : Io ℕ ℕ (Unit {0})
counter = record {
  poll_read = λ s buf. ((ready (ok tt), buf + s), s);
  poll_write = λ s bytes. (ready (ok (length bytes)), s + length bytes);
  poll_flush = λ s. (ready (ok tt), s);
  poll_shutdown = λ s. (ready (ok tt), s);
}

abbrev calls : List (Call ℕ)
calls = write (codes "hello") ∷ flush ∷ read 2 ∷ []

traffic-boxed_twice_example :
    traffic (boxed (boxed counter)) calls (new (new 1))
    ≡ ((traffic counter calls 1).0, new (new (traffic counter calls 1).1))
traffic-boxed_twice_example = traffic-boxed_twice counter calls 1
