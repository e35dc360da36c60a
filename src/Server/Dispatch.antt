-- ===== src/Server/Dispatch.antt =====
-- iscsi_server.c and iscsi_connection.c: choosing the handler of a PDU, and taking the PDU off the
-- receive buffer.
pub mod Chunks
pub mod Commands
pub mod Phases
pub mod Sessions
pub mod Transfers
pub mod Growth
pub mod Incoming
pub mod Refusals
use iscsi.Prelude.{ℕ, ◌-◌, ◌^◌, Bool, true, false, ◌==◌, if◌then◌else◌}
use iscsi.Prelude.Memory.{Memory}
use iscsi.Prelude.Outcome.{Outcome, ok, ◌>>=◌}
use iscsi.Buffer.{iscsi_buffer_receive, iscsi_buffer_flush}
use iscsi.Pdu.{iscsi_pdu_opcode, iscsi_pdu_valid, iscsi_pdu_length}
use iscsi.Pdu.Opcode
use iscsi.State.{Reference, null, static, Connection, System, Process}
use iscsi.Request.Reject.{iscsi_request_reject, protocol_error, cmd_not_supported}
use iscsi.Request.Logout.{iscsi_request_logout_process}
use iscsi.Request.Nop.{iscsi_request_nop_out_process}
use iscsi.Request.Text.{iscsi_request_text_process}
use iscsi.Request.Cmd.{iscsi_request_cmd_process}
use iscsi.Request.DataOut.{iscsi_request_data_out_process}
use iscsi.Request.Login.{iscsi_request_login_process, iscsi_request_login_reject}
use iscsi.Server.Numbering.{valid_command_numbering}

-- `enum PDU_STATUS`
abbrev pub socket_terminate : ℕ
socket_terminate = 2 ^ 32 - 1

abbrev pub pdu_incomplete : ℕ
pdu_incomplete = 2 ^ 32 - 3

abbrev pub pdu_ignore : ℕ
pdu_ignore = 2 ^ 32 - 4

-- A handler that works on the connection alone.
unfoldable pub on_connection :
    (Connection → Outcome (ℕ × Connection)) → Process → Outcome (ℕ × Process)
on_connection handler p = do
  (status, c) ← handler p.connection
  ok (status, record p { connection = c })

-- `iscsi_request_reject(connection, reason, NULL, 0, response)`
unfoldable pub reject : ℕ → Process → Outcome (ℕ × Process)
unfolding on_connection
reject reason = on_connection (λ c. iscsi_request_reject c reason (λ _. 0) 0)

module _ (system : System) where
  -- The session is not in the full feature phase, or there is none.
  unfoldable pub process_login : Memory → Process → Outcome (ℕ × Process)
  process_login request p =
      if iscsi_pdu_opcode request == Opcode.login
      then iscsi_request_login_process system request p
      else (elim p.connection.session_reference [
        | null ↦ ok (socket_terminate, p)
        | static ↦ iscsi_request_login_reject p
      ])

  -- The second `switch`, for sessions that are not for discovery.
  unfoldable pub process_command : Memory → Process → Outcome (ℕ × Process)
  unfolding on_connection reject
  process_command request p =
      let opcode = iscsi_pdu_opcode request in
      if opcode == Opcode.nop_out
      then on_connection (iscsi_request_nop_out_process request) p
      else if opcode == Opcode.scsi_data_out
      then iscsi_request_data_out_process system request p
      else if opcode == Opcode.scsi_cmd
      then iscsi_request_cmd_process system request p
      else if opcode == Opcode.login
      then reject protocol_error p
      else reject cmd_not_supported p

  unfoldable pub process_full_feature : Memory → Process → Outcome (ℕ × Process)
  unfolding process_command
  process_full_feature request p =
      let opcode = iscsi_pdu_opcode request in
      if opcode == Opcode.logout
      then on_connection (iscsi_request_logout_process request) p
      else if opcode == Opcode.text
      then on_connection (iscsi_request_text_process request) p
      else if p.session.is_discovery
      then reject protocol_error p
      else process_command request p

  unfoldable pub process_numbered : Memory → Process → Outcome (ℕ × Process)
  unfolding process_login process_full_feature
  process_numbered request p = elim p.connection.session_reference [
    | null ↦ process_login request p
    | static ↦
        if p.session.is_full_feature_phase
        then process_full_feature request p
        else process_login request p
  ]

  unfoldable pub iscsi_server_process : Memory → Process → Outcome (ℕ × Process)
  unfolding process_numbered
  iscsi_server_process request p =
      let (valid, checked) = valid_command_numbering p request in
      if valid then process_numbered request checked else ok (pdu_ignore, checked)

  -- The PDU at the front of the receive buffer is whole: it is processed, and taken off.
  unfoldable pub process_front : Process → Outcome (ℕ × Process)
  process_front p = do
    let request = p.connection.receive_buffer.contents
    (status, after) ← iscsi_server_process request p
    flushed ←
        iscsi_buffer_flush after.connection.receive_buffer
          (iscsi_pdu_length after.connection.receive_buffer.contents)
    ok (status, record after { connection = record after.connection { receive_buffer = flushed } })

  unfoldable pub incoming_request : Process → Memory → ℕ → Outcome (ℕ × Process)
  unfolding process_front
  incoming_request p buffer n = do
    (error, receiver) ← iscsi_buffer_receive p.connection.receive_buffer buffer n
    let received = record p { connection = record p.connection { receive_buffer = receiver } }
    if error == 0
        then (if iscsi_pdu_valid receiver.contents receiver.length
            then process_front received
            else ok (pdu_incomplete, received))
        else ok (error, received)
