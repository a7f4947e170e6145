-- ===== src/Connector/Traffic.antt =====
-- What is read and written over the boxed streams of src/service/io.rs.
use tonic_transport_native.Common.{ℕ, ◌≡◌, refl, ap, ◌∙◌, List, [], ◌∷◌, Bytes}
use tonic_transport_native.Runtime.{Result, Poll}
use tonic_transport_native.Connector.Io.{
  Io, new, poll_read, poll_write, poll_flush, poll_shutdown, boxed,
}

-- A call on a stream, and its answer, with the buffer as a read leaves it.
pub data Call (Buf : Type 0) : Type 0 where
  read : Buf → Call Buf
  write : Bytes → Call Buf
  flush : Call Buf
  shutdown : Call Buf

pub data Answer (Buf E : Type 0) : Type 0 where
  was_read : Poll (Result (Unit {0}) E) × Buf → Answer Buf E
  was_written : Poll (Result ℕ E) → Answer Buf E
  was_flushed : Poll (Result (Unit {0}) E) → Answer Buf E
  was_shut : Poll (Result (Unit {0}) E) → Answer Buf E

module _ {S Buf E : Type 0} (io : Io S Buf E) where
  abbrev perform : Call Buf → S → Answer Buf E × S
  perform (read buf) s = let a = io.poll_read s buf in (was_read a.0, a.1)
  perform (write buf) s = let a = io.poll_write s buf in (was_written a.0, a.1)
  perform flush s = let a = io.poll_flush s in (was_flushed a.0, a.1)
  perform shutdown s = let a = io.poll_shutdown s in (was_shut a.0, a.1)

  -- The answers to some calls, one after the other, and the stream that is left.
  abbrev pub traffic : List (Call Buf) → S → List (Answer Buf E) × S
  traffic [] s = ([], s)
  traffic (c ∷ cs) s = let a = perform c s in let rest = traffic cs a.1 in (a.0 ∷ rest.0, rest.1)

-- Calls on a box are answered by the stream in it.
perform-boxed :
    {S Buf E : Type 0} (io : Io S Buf E) (c : Call Buf) (s : S)
    → perform (boxed io) c (new s) ≡ ((perform io c s).0, new (perform io c s).1)
unfolding boxed new poll_read poll_write poll_flush poll_shutdown
perform-boxed io (read buf) s = refl
perform-boxed io (write buf) s = refl
perform-boxed io flush s = refl
perform-boxed io shutdown s = refl

traffic-boxed :
    {S Buf E : Type 0} (io : Io S Buf E) (cs : List (Call Buf)) (s : S)
    → traffic (boxed io) cs (new s) ≡ ((traffic io cs s).0, new (traffic io cs s).1)
traffic-boxed io [] s = refl
traffic-boxed io (c ∷ cs) s =
    rw (perform-boxed io c s) (rw (traffic-boxed io cs (perform io c s).1) refl)

-- The stream that a connector comes to, a box around the box that the handshake makes, answers every
-- sequence of reads, writes, flushes and shutdowns as the stream of the handshake does, and holds
-- what is left of that stream behind it.
pub traffic-boxed_twice :
    {S Buf E : Type 0} (io : Io S Buf E) (cs : List (Call Buf)) (s : S)
    → traffic (boxed (boxed io)) cs (new (new s))
      ≡ ((traffic io cs s).0, new (new (traffic io cs s).1))
traffic-boxed_twice io cs s =
    traffic-boxed (boxed io) cs (new s) ∙ ap (λ t. (t.0, new t.1)) (traffic-boxed io cs s)
