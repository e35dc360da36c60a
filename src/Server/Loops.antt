-- ===== src/Server/Loops.antt =====
-- iscsi_connection.c and main.c: creating a connection, and the loops of the two threads.
pub mod Transmit
pub mod Drain
use iscsi.Prelude.{ℕ, Bool, true, false, ◌==◌, Option, none, some, List, [], ◌∷◌, if◌then◌else◌}
use iscsi.Prelude.Memory.{Memory, bytes}
use iscsi.Prelude.Outcome.{Outcome, ok, ◌>>=◌}
use iscsi.Buffer.{
  Buffer, iscsi_buffer_new, iscsi_buffer_acquire_lock, iscsi_buffer_release_lock,
  iscsi_buffer_flush,
}
use iscsi.Pdu.{iscsi_pdu_valid, iscsi_pdu_length}
use iscsi.State.{Reference, Connection, System, Process}
use iscsi.Server.Dispatch.{socket_terminate, incoming_request}

-- The lengths of the buffers and the parameters are as `malloc` left them.
unfoldable pub iscsi_connection_create : Connection → ℕ → Reference → Connection
unfolding iscsi_buffer_new
iscsi_connection_create c socket_fd session = record c {
  session_reference = session;
  socket_fd = socket_fd;
  so_far_in_order = true;
  connection_id = 0;
  current_timeout = 0;
  stat_sn = 0;
  expected_cmd_sn = 0;
  max_cmd_sn = 0xffff_ffff;
  perform_connection_cleanup = false;
  receive_buffer = iscsi_buffer_new c.receive_buffer;
  response_buffer = iscsi_buffer_new c.response_buffer;
}

-- No function of the program calls it.
unfoldable pub clear_buffer : Connection → ℕ → Outcome Connection
clear_buffer c n = do
  flushed ← iscsi_buffer_flush c.receive_buffer n
  ok (record c { receive_buffer = flushed })

module _ (system : System) where
  -- The loop of `start_receiver`, on what the calls of `recv` return: `none` is an error, and ends
  -- the loop, as the status SOCKET_TERMINATE does. The process and the chunks that are left.
  unfoldable pub start_receiver : List (Option (Memory × ℕ)) → Process → Outcome Process
  start_receiver [] p = ok p
  start_receiver (none ∷ chunks) p = ok p
  start_receiver (some (buffer, n) ∷ chunks) p = incoming_request system p buffer n >>= λ r.
      elim (r.0 == socket_terminate) [ true ↦ ok r.1 | false ↦ start_receiver chunks r.1 ]

-- The body for a PDU that is whole, of length `n`. `sent` says whether `send` returned without an
-- error; with an error the loop ends, and the lock stays taken.
unfoldable pub send_front : Bool → Buffer → ℕ → Outcome (List ℕ × Bool × Buffer)
send_front sent buffer n = do
  locked ← iscsi_buffer_acquire_lock buffer
  let pdu = bytes locked.contents 0 n
  let flushed = iscsi_buffer_flush (iscsi_buffer_release_lock locked 0) n
  if sent then (flushed >>= λ rest. ok (pdu, true, rest)) else ok (pdu, false, locked)

-- A round of the loop of `start_transmit`: the PDU at the front, if it is whole, is sent and taken
-- off. The bytes that were given to `send` come back, and whether the loop goes on.
unfoldable pub transmit_round : Bool → Buffer → Outcome (List ℕ × Bool × Buffer)
unfolding send_front
transmit_round sent buffer =
    if iscsi_pdu_valid buffer.contents buffer.length
    then send_front sent buffer (iscsi_pdu_length buffer.contents)
    else ok ([], true, buffer)

-- The loop of `start_transmit`, on how the calls of `send` return: what was sent in each round, and
-- the buffer at the end.
unfoldable pub start_transmit : List Bool → Buffer → Outcome (List (List ℕ) × Buffer)
start_transmit [] buffer = ok ([], buffer)
start_transmit (sent ∷ rounds) buffer = transmit_round sent buffer >>= λ r. elim (r.1) [
  | true ↦ start_transmit rounds r.2 >>= λ q. ok (r.0 ∷ q.0, q.1)
  | false ↦ ok (r.0 ∷ [], r.2)
]
