-- ===== src/Server/Threads.antt =====
-- main.c: the two threads that `start_connection` creates, as the sequences of their rounds.
pub mod Conserves
pub mod Shared
pub mod Sessions
use iscsi.Prelude.{ℕ, ◌≤◌, ◌≡◌, Bool, true, ◌==◌, List, ◌++◌, not}
use iscsi.Prelude.Memory.{Memory, AreBytes, bytes}
use iscsi.Prelude.Outcome.{ok}
use iscsi.Buffer.{Buffer}
use iscsi.State.{System, Process}
use iscsi.Server.Dispatch.{socket_terminate, incoming_request}
use iscsi.Server.Loops.{transmit_round}

-- `BUFFER_SIZE`, the most that one call of `recv` returns.
abbrev pub chunk_size : ℕ
chunk_size = 256

-- What the threads share, all that `recv` returned and `send` was given so far, and whether the
-- loop of `start_receiver` goes on.
pub record World : Type 0 where
  pub process : Process
  pub received : List ℕ
  pub transmitted : List ℕ
  pub receiving : Bool

-- The world after a round of `start_receiver` with the first `n` bytes of `chunk`.
abbrev pub world_received : World → Memory → ℕ → ℕ → Process → World
world_received w chunk n status after = record {
  process = after;
  received = w.received ++ bytes chunk 0 n;
  transmitted = w.transmitted;
  receiving = not (status == socket_terminate);
}

-- The world after a round of `start_transmit` that sent `pdu`.
abbrev pub world_sent : World → List ℕ → Buffer → World
world_sent w pdu rest = record w {
  process = record w.process {
    connection = record w.process.connection { response_buffer = rest };
  };
  transmitted = w.transmitted ++ pdu;
}

-- One thread runs a round: the receiver on a chunk, when the call returns, or the transmitter, when
-- `send` succeeds. Memory holds bytes.
pub data Step (system : System) : World → World → Type 0 where
  receives :
      {w : World} {chunk : Memory} {n status : ℕ} {after : Process}
      → w.receiving ≡ true
      → AreBytes chunk
      → n ≤ chunk_size
      → incoming_request system w.process chunk n ≡ ok (status, after)
      → Step system w (world_received w chunk n status after)
  transmits :
      {w : World} {pdu : List ℕ} {rest : Buffer}
      → AreBytes w.process.connection.response_buffer.contents
      → transmit_round true w.process.connection.response_buffer ≡ ok (pdu, true, rest)
      → Step system w (world_sent w pdu rest)

-- The rounds follow one another in any order.
pub data Reach (system : System) (start : World) : World → Type 0 where
  here : Reach system start start
  later : {w v : World} → Reach system start w → Step system w v → Reach system start v
