-- ===== src/Server/Dispatch/Chunks.antt =====
-- iscsi_connection.c: chunks of the socket that do not complete a header.
use iscsi.Prelude.{ℕ, ◌+◌, ◌<◌, ◌≡◌, refl, sym, ap, ◌∙◌, arith, false, ◌++◌, length, length-append}
use iscsi.Prelude.Memory.{Memory, bytes, length-bytes}
use iscsi.Prelude.Outcome.{ok}
use iscsi.Buffer.{Buffer}
use iscsi.Buffer.Contents.{contents, IsIdle}
use iscsi.Buffer.Append.{receive_appends}
use iscsi.Pdu.{iscsi_pdu_valid}
use iscsi.State.{System, Process}
use iscsi.Server.Dispatch.{incoming_request, pdu_incomplete}

short_invalid : (m : Memory) (n : ℕ) → n < 48 → iscsi_pdu_valid m n ≡ false
unfolding iscsi_pdu_valid
short_invalid m n h = ground arith

-- A chunk with which a receive buffer at rest holds fewer than the 48 bytes of a header is put
-- behind the bytes that are there, and kept for later: the status is PDU_INCOMPLETE, nothing is
-- answered, the buffer is at rest, and nothing else of the process is changed.
pub incoming_short :
    (system : System) (p : Process) (chunk : Memory) (n : ℕ)
    → IsIdle p.connection.receive_buffer
    → p.connection.receive_buffer.length + n < 48
    → (after : Buffer) × (incoming_request system p chunk n
        ≡ ok (
          pdu_incomplete,
          record p { connection = record p.connection { receive_buffer = after } },
        ))
      × IsIdle after
      × (contents after ≡ contents p.connection.receive_buffer ++ bytes chunk 0 n)
unfolding incoming_request
incoming_short system p chunk n v few =
    let b = p.connection.receive_buffer in
    let (large, fits, full) = receive_appends b chunk n v (omega arith) in
    let (after, returns, idle, holds) = fits (omega arith) in
    let size : after.length ≡ b.length + n =
      sym (length-bytes after.contents 0 after.length)
      ∙ ap length holds
      ∙ length-append (contents b) (bytes chunk 0 n)
      ∙ omega (arith, length-bytes b.contents 0 b.length, length-bytes chunk 0 n) in
    let short = short_invalid after.contents after.length (omega arith) in
    (after, rw (returns, short) refl, idle, holds)
