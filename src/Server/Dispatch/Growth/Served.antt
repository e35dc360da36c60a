-- ===== src/Server/Dispatch/Growth/Served.antt =====
-- iscsi_server.c: what serving any PDU does to the two buffers.
use mathlib.Core.Path.{subst}
use iscsi.Prelude.{sym, ap, ◌≡◌, arith}
use iscsi.Prelude.Memory.{Memory}
use iscsi.Prelude.Outcome.{Always}
use iscsi.Buffer.Contents.{IsIdle}
use iscsi.State.{Connection, System, Process}
use iscsi.Response.Extends.{Extends-start}
use iscsi.Pdu.{iscsi_pdu_opcode}
use iscsi.Pdu.Opcode
use iscsi.Request.Extends.{NopPadsBehind, reject-Sends, logout-Sends, nop-Sends, text-Sends}
use iscsi.Request.DataOut.{iscsi_request_data_out_process}
use iscsi.Request.Reject.{protocol_error, cmd_not_supported}
use iscsi.Server.Numbering.{valid_command_numbering}
use iscsi.Server.Dispatch.{
  on_connection, reject, process_login, process_command, process_full_feature, process_numbered,
  iscsi_server_process,
}
use iscsi.Server.Dispatch.Growth.{Grown, Serves, Serves-from}
use iscsi.Server.Dispatch.Growth.Logins.{reject_login-Serves, login-Serves}
use iscsi.Server.Dispatch.Growth.Commands.{command-Serves, found-Serves}

-- No NOP-Out whose answer is padded in front of the pointer.
abbrev pub PadsBehind : Memory → Connection → Type 0
PadsBehind request c = iscsi_pdu_opcode request ≡ Opcode.nop_out → NopPadsBehind request c

module _ (system : System) (request : Memory) where
  process_command-Serves :
      (p : Process)
      → IsIdle p.connection.response_buffer
      → PadsBehind request p.connection
      → Serves p (process_command system request p)
  unfolding process_command reject on_connection iscsi_request_data_out_process
  process_command-Serves p v behind = grind (
    arith,
    (λ (e : iscsi_pdu_opcode request ≡ Opcode.nop_out).
        nop-Sends p.connection v request (behind e)),
    reject-Sends p.connection v protocol_error (λ _. 0) 0,
    reject-Sends p.connection v cmd_not_supported (λ _. 0) 0,
    command-Serves system request p v,
    Extends-start p.connection v,
    found-Serves,
  )

  process_full-Serves :
      (p : Process)
      → IsIdle p.connection.response_buffer
      → PadsBehind request p.connection
      → Serves p (process_full_feature system request p)
  unfolding process_full_feature reject on_connection
  process_full-Serves p v behind = ground (
    arith,
    logout-Sends p.connection v request,
    text-Sends p.connection v request,
    reject-Sends p.connection v protocol_error (λ _. 0) 0,
    process_command-Serves p v behind,
  )

  numbered-Serves :
      (p : Process)
      → IsIdle p.connection.response_buffer
      → PadsBehind request p.connection
      → Serves p (process_numbered system request p)
  unfolding process_numbered process_login
  numbered-Serves p v behind = ground (
    arith,
    process_full-Serves p v behind,
    login-Serves system request p v,
    reject_login-Serves request p v,
    Extends-start p.connection v,
  )

numbering_same :
    (p : Process) (request : Memory)
    → (valid_command_numbering p request).1.connection ≡ p.connection
unfolding valid_command_numbering
numbering_same p request = ground arith

-- Whatever the state, and whatever the PDU, but for a NOP-Out with a data segment so long that its
-- answer is padded in front of the pointer, from a response buffer at rest on, when
-- `iscsi_server_process` returns, the response buffer is at rest, holds what it held and behind that
-- the answers, and the receive buffer is as it was: no handler returns with the lock, and, but for
-- that NOP-Out's, none takes back or overwrites an answer that waits.
pub process-Grown :
    (system : System) (request : Memory) (p : Process)
    → IsIdle p.connection.response_buffer
    → PadsBehind request p.connection
    → Always (λ r. Grown p r.1.connection) (iscsi_server_process system request p)
unfolding iscsi_server_process
process-Grown system request p v behind =
    let checked = (valid_command_numbering p request).1 in
    let same = numbering_same p request in
    let w = subst (λ (c : Connection). IsIdle c.response_buffer) (sym same) v in
    Serves-from p checked (iscsi_server_process system request p)
      (ap (λ (c : Connection). c.response_buffer) same)
      (ap (λ (c : Connection). c.receive_buffer) same)
      (ground (
        arith,
        Extends-start checked.connection w,
        numbered-Serves system request checked w
            (subst (λ (c : Connection). PadsBehind request c) (sym same) behind),
      ))
