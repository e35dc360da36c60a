-- ===== src/Server/Numbering.antt =====
-- iscsi_server.c: the test of command numbers.
pub mod Unchecked
pub mod Tested
use iscsi.Prelude.{Bool, true, false, ◌||◌, ◌&&◌, ◌==◌, if◌then◌else◌}
use iscsi.Prelude.Word.{add}
use iscsi.Prelude.Memory.{Memory}
use iscsi.Pdu.{iscsi_pdu_has_cmd_sn, iscsi_pdu_cmd_sn, iscsi_pdu_opcode, iscsi_pdu_immediate}
use iscsi.Pdu.Opcode
use iscsi.State.{null, static, Session, Process}

-- `if (opcode == … ) if (!iscsi_pdu_immediate(buffer)) ++session->ExpCmdSN`
unfoldable pub count_command : Memory → Session → Session
count_command buffer s =
    let opcode = iscsi_pdu_opcode buffer in
    if (opcode == Opcode.logout
        || opcode == Opcode.text
        || opcode == Opcode.scsi_cmd
        || opcode == Opcode.reject)
      && iscsi_pdu_immediate buffer == 0
    then record s { exp_cmd_sn = add s.exp_cmd_sn 1 }
    else s

-- A PDU that carries a command number is let through at once.
unfoldable pub check_number : Memory → Session → Bool × Session
unfolding count_command
check_number buffer s =
    let number = iscsi_pdu_cmd_sn buffer in
    let started = record s { exp_cmd_sn = number; command_numbering_start = true } in
    if iscsi_pdu_has_cmd_sn buffer
    then (true, s)
    else if s.command_numbering_start
    then (if number == s.exp_cmd_sn then (true, count_command buffer s) else (false, s))
    else (true, count_command buffer started)

unfoldable pub valid_command_numbering : Process → Memory → Bool × Process
unfolding check_number
valid_command_numbering p buffer = elim p.connection.session_reference [
  | null ↦ (true, p)
  | static ↦ let (valid, s) = check_number buffer p.session in (valid, record p { session = s })
]
