-- ===== src/Server/Dispatch/Transfers.antt =====
-- iscsi_server.c, request/cmd.c and request/data_out.c: the counts of the R2Ts of a transfer.
use iscsi.Prelude.{ℕ, ◌≡◌, ◌≢◌, refl, arith}
use iscsi.Prelude.Memory.{Memory, c_string}
use iscsi.Prelude.Word.{add}
use iscsi.Prelude.Outcome.{ok, Always}
use iscsi.Pdu.{iscsi_pdu_data_segment_length}
use iscsi.State.{System, Process, TransferEntry, iscsi_connection_advance_expected_cmd_sn}
use iscsi.Session.{
  iscsi_session_create, iscsi_session_next_transfer_tag, iscsi_session_execute_command,
  iscsi_session_execute_transfer_entry, iscsi_transfer_entry_create,
}
use iscsi.Request.Login.{
  response_final_with_parameters, send_operational, send_status, final_security, final_operational,
  response_final_login, login_last, response_partial_login, iscsi_request_login_process,
  iscsi_request_login_reject, enter_full_feature, security_negotiation_response,
}
use iscsi.Request.Login.Setup
use iscsi.Request.Login.Setup.{
  setup_session, new_session, choose_session, join_session, setup_normal_session, success,
}
use iscsi.Request.Cmd.{iscsi_request_cmd_process, cmd_ask, cmd_execute}
use iscsi.Request.DataOut.{
  iscsi_request_data_out_process, data_out_found, data_out_finish, data_out_more, data_out_store,
  data_out_entry, iscsi_request_data_out_buffer_offset,
}
use iscsi.Session.{iscsi_session_get_transfer_entry}
use iscsi.Server.Numbering.{valid_command_numbering, check_number, count_command}
use iscsi.Server.Dispatch.{
  on_connection, reject, process_login, process_command, process_full_feature, process_numbered,
  iscsi_server_process,
}

-- No R2T of the transfer is counted, neither of those sent nor of those to be sent.
abbrev pub Uncounted : Process → Type 0
Uncounted p = (p.session.transfer_entry.r2t_sn ≡ 0) × (p.session.transfer_entry.total_r2t_sn ≡ 0)

abbrev After : ℕ × Process → Type 0
After r = Uncounted r.1

parameters-Uncounted :
    (request : Memory) (p : Process) (status : ℕ) (text : Memory) (n : ℕ)
    → Uncounted p
    → Always After (response_final_with_parameters request p status text n)
unfolding response_final_with_parameters
parameters-Uncounted request p status text n h = ground arith

status-Uncounted :
    (request : Memory) (status : ℕ) (p : Process)
    → Uncounted p
    → Always After (send_status request status p)
unfolding send_status
status-Uncounted request status p h = ground arith

operational-Uncounted :
    (request : Memory) (status : ℕ) (p : Process)
    → Uncounted p
    → Always After (send_operational request status p)
unfolding send_operational response_final_with_parameters
operational-Uncounted request status p h = ground arith

final-Uncounted :
    (request : Memory) (p : Process) → Uncounted p → Always After (response_final_login request p)
unfolding response_final_login final_security final_operational
final-Uncounted request p h =
    let text = c_string security_negotiation_response in
    let entered = enter_full_feature p in
    ground (
      arith,
      parameters-Uncounted request p success text 15 h,
      parameters-Uncounted request p Setup.initiator_error text 15 h,
      parameters-Uncounted request entered success text 15 h,
      operational-Uncounted request success p h,
      operational-Uncounted request Setup.initiator_error p h,
      operational-Uncounted request success entered h,
      status-Uncounted request Setup.initiator_error p h,
    )

ask-Uncounted :
    (request : Memory) (tag : ℕ) (p : Process) → Uncounted p → Always After (cmd_ask request tag p)
unfolding cmd_ask iscsi_transfer_entry_create
ask-Uncounted request tag p h = ground arith

more-Uncounted :
    (request : Memory) (entry : TransferEntry) (p : Process)
    → entry.r2t_sn ≡ 0
    → entry.total_r2t_sn ≡ 0
    → data_out_more request entry p ≡ ok p
unfolding data_out_more
more-Uncounted request entry p none_sent none_left = rw (none_sent, none_left) refl

module _ (system : System) where
  setup-Uncounted :
      (request : Memory) (p : Process) → Uncounted p → Always After (setup_session system request p)
  unfolding setup_session new_session join_session iscsi_session_create choose_session
      setup_normal_session
  setup-Uncounted request p h = ground arith

  login-Uncounted :
      (request : Memory) (p : Process)
      → Uncounted p
      → Always After (iscsi_request_login_process system request p)
  unfolding iscsi_request_login_process login_last response_partial_login
  login-Uncounted request p h = grind (arith, setup-Uncounted, final-Uncounted, status-Uncounted)

  execute-Uncounted :
      (request : Memory) (p : Process) → Uncounted p → Always After (cmd_execute system request p)
  unfolding cmd_execute iscsi_session_execute_command
  execute-Uncounted request p h = ground arith

  command-Uncounted :
      (request : Memory) (p : Process)
      → Uncounted p
      → Always After (iscsi_request_cmd_process system request p)
  unfolding iscsi_request_cmd_process iscsi_session_next_transfer_tag
  command-Uncounted request p h =
      let tag = add p.session.transfer_tag 1 in
      let counted = record p {
        connection = iscsi_connection_advance_expected_cmd_sn p.connection;
        session = record p.session { transfer_tag = tag };
      } in
      ground (arith, ask-Uncounted request tag counted h, execute-Uncounted request counted h)

  finish-Uncounted :
      (request : Memory) (p : Process)
      → Uncounted p
      → Always Uncounted (data_out_finish system request p)
  unfolding data_out_finish iscsi_session_execute_transfer_entry iscsi_session_execute_command
  finish-Uncounted request p h = ground arith

  data_out-Uncounted :
      (request : Memory) (p : Process)
      → Uncounted p
      → Always After (iscsi_request_data_out_process system request p)
  unfolding iscsi_request_data_out_process data_out_found data_out_store data_out_entry
      iscsi_session_get_transfer_entry
  data_out-Uncounted request p h = grind (arith, more-Uncounted, finish-Uncounted)

  numbered-Uncounted :
      (request : Memory) (p : Process)
      → Uncounted p
      → Always After (process_numbered system request p)
  unfolding process_numbered process_login process_full_feature process_command reject on_connection
      iscsi_request_login_reject
  numbered-Uncounted request p h = ground (
    arith,
    login-Uncounted request p h,
    command-Uncounted request p h,
    data_out-Uncounted request p h,
  )

-- From a transfer of whose R2Ts none is counted, as in the zeros that the program starts with,
-- serving any PDU leads to such a one: no command that is taken in sets the number of R2Ts that are
-- still to be sent.
pub process-Uncounted :
    (system : System) (request : Memory) (p : Process)
    → Uncounted p
    → Always (λ r. Uncounted r.1) (iscsi_server_process system request p)
unfolding iscsi_server_process valid_command_numbering check_number count_command
process-Uncounted system request p h =
    ground (arith, numbered-Uncounted system request (valid_command_numbering p request).1)

-- While no R2T is counted, data of a write that do not reach its end are stored and not answered:
-- whatever the final bit says, when `iscsi_request_data_out_process` returns, the status is 0, no
-- R2T is sent, the connection is as before, and the device is given no command.
pub data_out-Silent :
    (system : System) (request : Memory) (p : Process)
    → Uncounted p
    → add (iscsi_request_data_out_buffer_offset request) (iscsi_pdu_data_segment_length request)
      ≢ p.session.transfer_entry.total_length
    → Always
        (λ r. (r.0 ≡ 0) × (r.1.connection ≡ p.connection) × (r.1.target ≡ p.target))
        (iscsi_request_data_out_process system request p)
unfolding iscsi_request_data_out_process data_out_found data_out_store data_out_entry
    iscsi_session_get_transfer_entry
data_out-Silent system request p h not_last = grind (arith, more-Uncounted)
