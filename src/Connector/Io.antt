-- ===== src/Connector/Io.antt =====
-- `BoxedIo` of src/service/io.rs as a stream: what it reads and writes, and what hyper and the
-- server are told of it.
use tonic_transport_native.Common.{ℕ, Bytes}
use tonic_transport_native.Runtime.{Result, ok, Poll}
use tonic_transport_native.Error.{Error}
use tonic_transport_native.Connector.Handshake.{BoxedIo}

-- tokio's `AsyncRead` and `AsyncWrite` on the stream `S`, with buffers `Buf` to read to and errors
-- of input and output `E`.
pub record Io (S Buf E : Type 0) : Type 0 where
  pub poll_read : S → Buf → (Poll (Result (Unit {0}) E) × Buf) × S
  pub poll_write : S → Bytes → Poll (Result ℕ E) × S
  pub poll_flush : S → Poll (Result (Unit {0}) E) × S
  pub poll_shutdown : S → Poll (Result (Unit {0}) E) × S

unfoldable pub new : {S : Type 0} → S → BoxedIo S
new io = record { stream = io }

-- `empty` is `HyperConnected::new`.
unfoldable pub connected : {S N : Type 0} → N → BoxedIo S → N
connected empty self = empty

unfoldable pub connect_info : {S X : Type 0} → BoxedIo S → Result (Unit {0}) (Error X)
connect_info self = ok tt

module _ {S Buf E : Type 0} (io : Io S Buf E) where
  unfoldable pub poll_read : BoxedIo S → Buf → (Poll (Result (Unit {0}) E) × Buf) × BoxedIo S
  poll_read self buf =
      let answer = io.poll_read self.stream buf in (answer.0, record { stream = answer.1 })

  unfoldable pub poll_write : BoxedIo S → Bytes → Poll (Result ℕ E) × BoxedIo S
  poll_write self buf =
      let answer = io.poll_write self.stream buf in (answer.0, record { stream = answer.1 })

  unfoldable pub poll_flush : BoxedIo S → Poll (Result (Unit {0}) E) × BoxedIo S
  poll_flush self =
      let answer = io.poll_flush self.stream in (answer.0, record { stream = answer.1 })

  unfoldable pub poll_shutdown : BoxedIo S → Poll (Result (Unit {0}) E) × BoxedIo S
  poll_shutdown self =
      let answer = io.poll_shutdown self.stream in (answer.0, record { stream = answer.1 })

  unfoldable pub boxed : Io (BoxedIo S) Buf E
  unfolding poll_read poll_write poll_flush poll_shutdown
  boxed = record {
    poll_read = poll_read;
    poll_write = poll_write;
    poll_flush = poll_flush;
    poll_shutdown = poll_shutdown;
  }
