-- ===== src/Server/Numbering/Unchecked.antt =====
-- iscsi_server.c: the command numbers that are compared, and those that are not.
use iscsi.Prelude.{ℕ, ◌≡◌, ◌≢◌, ◌⊎◌, ◌↔◌, arith, Bool, true, false, ◌==◌, ◌&&◌, if◌then◌else◌}
use iscsi.Prelude.Memory.{Memory}
use iscsi.Prelude.Word.{add}
use iscsi.Pdu.{iscsi_pdu_opcode, iscsi_pdu_has_cmd_sn, iscsi_pdu_cmd_sn, iscsi_pdu_immediate}
use iscsi.Pdu.Opcode
use iscsi.State.{null, static, Process}
use iscsi.Server.Numbering.{valid_command_numbering, check_number, count_command}

-- The PDUs that carry a command number: those of a NOP, a SCSI command, a text request, a logout
-- and a login.
abbrev pub IsCommand : ℕ → Type 0
IsCommand opcode =
    (opcode ≡ Opcode.nop_out)
    ⊎ (opcode ≡ Opcode.scsi_cmd)
    ⊎ (opcode ≡ Opcode.text)
    ⊎ (opcode ≡ Opcode.logout)
    ⊎ (opcode ≡ Opcode.login)

-- The number that is expected behind a PDU that was compared and let through: that of the PDU, or,
-- for a reject that is not immediate, the one behind it.
abbrev pub number_after : Memory → ℕ
number_after request =
    if iscsi_pdu_opcode request == Opcode.reject && iscsi_pdu_immediate request == 0
    then add (iscsi_pdu_cmd_sn request) 1
    else iscsi_pdu_cmd_sn request

-- A PDU that is dropped: it carries no command number, there is a session, whose comparison has
-- started, and the bytes at that place differ from the number expected.
pub record IsDropped (p : Process) (request : Memory) : Type 0 where
  pub no_command : ¬ IsCommand (iscsi_pdu_opcode request)
  pub there : p.connection.session_reference ≡ static
  pub started : p.session.command_numbering_start ≡ true
  pub differs : iscsi_pdu_cmd_sn request ≢ p.session.exp_cmd_sn

-- What the test leaves of the process: for a command, without a session, and for a PDU that is
-- dropped, everything; else the number expected is set and the comparison has started.
abbrev pub Counted : Process → Memory → Bool × Process → Type 0
Counted p request result =
    ((IsCommand (iscsi_pdu_opcode request)
        ⊎ (p.connection.session_reference ≡ null)
        ⊎ (result.0 ≡ false))
      × (result.1 ≡ p))
    ⊎ ((¬ IsCommand (iscsi_pdu_opcode request))
        × (p.connection.session_reference ≡ static)
        × (result.0 ≡ true)
        × (result.1 ≡ record p {
          session = record p.session {
            exp_cmd_sn = number_after request;
            command_numbering_start = true;
          };
        }))

IsDropped-make :
    (p : Process) (request : Memory)
    → ¬ IsCommand (iscsi_pdu_opcode request)
    → p.connection.session_reference ≡ static
    → p.session.command_numbering_start ≡ true
    → iscsi_pdu_cmd_sn request ≢ p.session.exp_cmd_sn
    → IsDropped p request
IsDropped-make p request a b c d = record { no_command = a; there = b; started = c; differs = d }

numbering_drops :
    (p : Process) (request : Memory)
    → (valid_command_numbering p request).0 ≡ false
    → IsDropped p request
unfolding valid_command_numbering check_number count_command iscsi_pdu_has_cmd_sn
numbering_drops p request h =
    IsDropped-make p request (ground arith) (ground arith) (ground arith) (ground arith)

numbering_keeps :
    (p : Process) (request : Memory)
    → IsDropped p request
    → (valid_command_numbering p request).0 ≡ false
unfolding valid_command_numbering check_number count_command iscsi_pdu_has_cmd_sn
numbering_keeps p request h =
    let a = h.no_command in
    let b = h.there in let c = h.started in let d = h.differs in ground arith

-- A PDU is dropped exactly when it carries no command number, there is a session whose comparison
-- has started, and the bytes at the place of the number differ from the number expected. A command
-- is let through whatever its number is, and, as without a session and where a PDU is dropped,
-- nothing is changed: neither a repeated command nor one out of order is recognised. Any other PDU
-- that is let through starts the comparison and makes its own number the one expected, or, for a
-- reject that is not immediate, the one behind it, and changes nothing else.
pub numbering-Unchecked :
    (p : Process) (request : Memory)
    → let result = valid_command_numbering p request in
      ((result.0 ≡ false) ↔ IsDropped p request) × Counted p request result
unfolding valid_command_numbering check_number count_command iscsi_pdu_has_cmd_sn
numbering-Unchecked p request =
    ((numbering_drops p request, numbering_keeps p request), ground arith)
