-- ===== src/Request/Cmd/Read.antt =====
-- request/cmd.c: a read command, from the device to the data that are sent.
use iscsi.Prelude.{
  ℕ, suc, ◌+◌, ◌-◌, ◌^◌, ◌≤◌, ◌<◌, ◌≡◌, ◌≢◌, refl, ◌∙◌, arith, some, List, ◌∷◌, ◌++◌, ◌==◌, false,
}
use iscsi.Prelude.Word.{sub}
use iscsi.Prelude.Memory.{Memory, AreBytes, bytes}
use iscsi.Prelude.Outcome.{ok}
use iscsi.Buffer.{iscsi_buffer_size}
use iscsi.Buffer.Contents.{contents, IsIdle}
use iscsi.Utility.{min}
use iscsi.Pdu.{iscsi_pdu_initiator_task_tag}
use iscsi.State.{
  static, Connection, System, Process, Target, sg_dxfer_from_dev, ScsiCommand, ScsiReply,
  iscsi_connection_advance_expected_cmd_sn,
}
use iscsi.Session.{
  iscsi_session_next_transfer_tag, iscsi_session_execute_command, iscsi_target_execute_scsi_command,
  iscsi_target_memory_size, scsi_cdb_length,
}
use iscsi.Request.Cmd.{
  iscsi_request_cmd_read, iscsi_request_cmd_write, iscsi_request_cmd_exp_data_transfer,
  iscsi_request_cmd_cdb, iscsi_request_cmd_process, cmd_execute,
}
use iscsi.Request.Cmd.Write.{counted, task_tag-IsInt}
use iscsi.Request.DataIn.{iscsi_request_data_in_send}
use iscsi.Request.DataIn.Stream.{Stream, room_needed, send-Stream}

-- A command of bytes that reads and does not write.
pub record IsRead (request : Memory) : Type 0 where
  pub are : AreBytes request
  pub reads : iscsi_request_cmd_read request ≢ 0
  pub writes_not : iscsi_request_cmd_write request ≡ 0

-- The command as the device is given it.
abbrev pub asked_of : Memory → Process → ScsiCommand
asked_of request p = record {
  cdb = bytes (iscsi_request_cmd_cdb request) 0 scsi_cdb_length;
  dxfer_direction = sg_dxfer_from_dev;
  dxfer_len = iscsi_target_memory_size;
  buffer = p.target.buffer;
}

-- How many bytes are sent: what the device left, and no more than the initiator expects.
abbrev pub returned : Memory → ScsiReply → ℕ
returned request reply =
    min (iscsi_request_cmd_exp_data_transfer request) (iscsi_target_memory_size - reply.resid)

-- The device has done the command.
abbrev answered_target : Memory → Process → ScsiReply → Target
answered_target request p reply = record p.target {
  issued = asked_of request p ∷ p.target.issued;
  status = reply.status;
  sb_len_wr = reply.sb_len_wr;
  resid = reply.resid;
  buffer = reply.buffer;
  sense_buffer = reply.sense_buffer;
  scsi_response = 0;
}

takes-execute :
    (system : System) (request : Memory) (p : Process)
    → IsRead request
    → iscsi_request_cmd_process system request p ≡ cmd_execute system request (counted p)
unfolding iscsi_request_cmd_process
takes-execute system request p h = let writes_not = h.writes_not in rw writes_not refl

device-eq :
    (system : System) (request : Memory) (p : Process) (reply : ScsiReply)
    → p.session.target ≡ static
    → system.sg_io p.target.issued (asked_of request p) ≡ some reply
    → iscsi_session_execute_command system p (iscsi_request_cmd_cdb request)
      ≡ ok (record p { target = answered_target request p reply })
unfolding iscsi_session_execute_command iscsi_target_execute_scsi_command
device-eq system request p reply there replies = ground arith

execute-eq :
    (system : System) (request : Memory) (p : Process) (reply : ScsiReply) (after : Connection)
    → iscsi_request_cmd_read request ≢ 0
    → reply.resid ≤ iscsi_target_memory_size
    → iscsi_session_execute_command system p (iscsi_request_cmd_cdb request)
      ≡ ok (record p { target = answered_target request p reply })
    → iscsi_request_data_in_send p.connection
        (iscsi_pdu_initiator_task_tag request)
        (returned request reply)
        reply.buffer
      ≡ ok after
    → cmd_execute system request p
      ≡ ok (0, record p { connection = after; target = answered_target request p reply })
unfolding cmd_execute
execute-eq system request p reply after reads left executes sends =
    let rest : sub iscsi_target_memory_size reply.resid ≡ iscsi_target_memory_size - reply.resid =
      omega arith in
    let is_read : (iscsi_request_cmd_read request == 0) ≡ false = ground arith in
    rw (executes, is_read, rest, sends) refl

returned-bound :
    (request : Memory) (reply : ScsiReply)
    → iscsi_request_cmd_exp_data_transfer request < 2 ^ 31
    → returned request reply ≤ 2 ^ 22
unfolding min
returned-bound request reply small = ground arith

-- The device was given the command, and what it left is sent behind the bytes that wait.
pub record Delivers (request : Memory) (reply : ScsiReply) (p q : Process) : Type 0 where
  pub device : q.target.issued ≡ asked_of request p ∷ p.target.issued
  pub sent : List ℕ
  pub idle : IsIdle q.connection.response_buffer
  pub holds : contents q.connection.response_buffer ≡ contents p.connection.response_buffer ++ sent
  pub stream :
      Stream
        (iscsi_pdu_initiator_task_tag request)
        reply.buffer
        (returned request reply)
        p.connection.parameter.max_receive_data_segment_length
        0
        0
        sent

-- A read command of bytes that expects a natural number of bytes, in a session with a target, on a
-- device that replies and leaves no more than its memory unfilled, with a positive largest segment
-- below 2 ^ 31 and a response buffer at rest with room for the PDUs: `iscsi_request_cmd_process`
-- returns the status 0; the device was given exactly one command, with the command block of the
-- request; and behind the bytes that waited are PDUs that carry, from the first byte to the last,
-- without gap or overlap, what the device left in its buffer, as much as it filled and no more than
-- is expected, the final bit on the last alone; the buffer is at rest.
pub read-Delivers :
    (system : System) (request : Memory) (p : Process) (reply : ScsiReply)
    → let largest = p.connection.parameter.max_receive_data_segment_length in
      let expected = returned request reply in
      IsRead request
      → iscsi_request_cmd_exp_data_transfer request < 2 ^ 31
      → p.session.target ≡ static
      → system.sg_io p.target.issued (asked_of request p) ≡ some reply
      → reply.resid ≤ iscsi_target_memory_size
      → 0 < largest
      → largest < 2 ^ 31
      → IsIdle p.connection.response_buffer
      → p.connection.response_buffer.length + room_needed (suc expected) expected largest 0
        ≤ iscsi_buffer_size
      → (q : Process) × (iscsi_request_cmd_process system request p ≡ ok (0, q))
        × Delivers request reply p q
unfolding iscsi_session_next_transfer_tag iscsi_connection_advance_expected_cmd_sn
read-Delivers system request p reply read natural there replies left positive small v room =
    let tag = iscsi_pdu_initiator_task_tag request in
    let (after, sent, runs, idle, holds, stream) =
      send-Stream (counted p).connection tag (returned request reply) reply.buffer positive small
        (returned-bound request reply natural) (task_tag-IsInt request read.are) v room in
    (
      record (counted p) { connection = after; target = answered_target request p reply },
      takes-execute system request p read
          ∙ execute-eq system request (counted p) reply after read.reads left
              (device-eq system request (counted p) reply there replies) runs,
      record { device = refl; sent = sent; idle = idle; holds = holds; stream = stream },
    )
