-- ===== src/Server/Dispatch/Phases.antt =====
-- iscsi_server.c and request/login.c: how a session comes into the full feature phase.
use iscsi.Prelude.{ℕ, ◌≡◌, ◌≢◌, ◌⊎◌, refl, arith, Bool, true, false}
use iscsi.Prelude.Memory.{Memory, c_string}
use iscsi.Prelude.Outcome.{Always}
use iscsi.Pdu.{iscsi_pdu_opcode}
use iscsi.Prelude.Word.{add}
use iscsi.Pdu.Opcode
use iscsi.State.{null, System, Process, iscsi_connection_advance_expected_cmd_sn}
use iscsi.Session.{
  iscsi_session_create, iscsi_session_next_transfer_tag, iscsi_session_execute_command,
  iscsi_session_execute_transfer_entry,
}
use iscsi.Request.Login.{
  response_final_with_parameters, send_operational, send_status, final_security, final_operational,
  response_final_login, login_last, response_partial_login, iscsi_request_login_process,
  iscsi_request_login_reject, enter_full_feature, security_negotiation_response,
}
use iscsi.Request.Login.Setup
use iscsi.Request.Login.Setup.{
  setup_session, new_session, choose_session, join_session, setup_normal_session,
  iscsi_pdu_login_transit, iscsi_pdu_login_nsg, iscsi_pdu_login_continue, full_feature, success,
}
use iscsi.Request.Cmd.{iscsi_request_cmd_process, cmd_ask, cmd_execute}
use iscsi.Request.DataOut.{
  iscsi_request_data_out_process, data_out_found, data_out_finish, data_out_more, data_out_store,
}
use iscsi.Server.Numbering.{valid_command_numbering, check_number, count_command}
use iscsi.Server.Dispatch.{
  on_connection, reject, process_login, process_command, process_full_feature, process_numbered,
  iscsi_server_process,
}

-- The last PDU of a login, which asks for the full feature phase.
abbrev pub AsksFullFeature : Memory → Type 0
AsksFullFeature request =
    (iscsi_pdu_login_continue request ≡ 0)
    × (iscsi_pdu_login_transit request ≢ 0)
    × (iscsi_pdu_login_nsg request ≡ full_feature)

abbrev InPhase : Bool → ℕ × Process → Type 0
InPhase phase r = r.1.session.is_full_feature_phase ≡ phase

module _ (phase : Bool) where
  parameters-InPhase :
      (request : Memory) (p : Process) (status : ℕ) (text : Memory) (n : ℕ)
      → p.session.is_full_feature_phase ≡ phase
      → Always (InPhase phase) (response_final_with_parameters request p status text n)
  unfolding response_final_with_parameters
  parameters-InPhase request p status text n h = ground arith

  status-InPhase :
      (request : Memory) (status : ℕ) (p : Process)
      → p.session.is_full_feature_phase ≡ phase
      → Always (InPhase phase) (send_status request status p)
  unfolding send_status
  status-InPhase request status p h = ground arith

  operational-InPhase :
      (request : Memory) (status : ℕ) (p : Process)
      → p.session.is_full_feature_phase ≡ phase
      → Always (InPhase phase) (send_operational request status p)
  unfolding send_operational response_final_with_parameters
  operational-InPhase request status p h = ground arith

  setup-InPhase :
      (system : System) (request : Memory) (p : Process)
      → p.session.is_full_feature_phase ≡ phase
      → Always (InPhase phase) (setup_session system request p)
  unfolding setup_session new_session join_session iscsi_session_create choose_session
      setup_normal_session
  setup-InPhase system request p h = ground arith

  ask-InPhase :
      (request : Memory) (tag : ℕ) (p : Process)
      → p.session.is_full_feature_phase ≡ phase
      → Always (InPhase phase) (cmd_ask request tag p)
  unfolding cmd_ask
  ask-InPhase request tag p h = ground arith

  execute-InPhase :
      (system : System) (request : Memory) (p : Process)
      → p.session.is_full_feature_phase ≡ phase
      → Always (InPhase phase) (cmd_execute system request p)
  unfolding cmd_execute iscsi_session_execute_command
  execute-InPhase system request p h = ground arith

  command-InPhase :
      (system : System) (request : Memory) (p : Process)
      → p.session.is_full_feature_phase ≡ phase
      → Always (InPhase phase) (iscsi_request_cmd_process system request p)
  unfolding iscsi_request_cmd_process iscsi_session_next_transfer_tag
  command-InPhase system request p h =
      let tag = add p.session.transfer_tag 1 in
      let session = record p.session { transfer_tag = tag } in
      let counted = record p {
        connection = iscsi_connection_advance_expected_cmd_sn p.connection;
        session = session;
      } in
      ground (arith, ask-InPhase request tag counted h, execute-InPhase system request counted h)

  data_out-InPhase :
      (system : System) (request : Memory) (p : Process)
      → p.session.is_full_feature_phase ≡ phase
      → Always (InPhase phase) (iscsi_request_data_out_process system request p)
  unfolding iscsi_request_data_out_process data_out_found data_out_finish data_out_more
      data_out_store iscsi_session_execute_transfer_entry iscsi_session_execute_command
  data_out-InPhase system request p h = ground arith

-- The phase stays, or the PDU asks for the full feature phase, in which the session is then.
abbrev Enters : Memory → Bool → ℕ × Process → Type 0
Enters request phase r =
    InPhase phase r
    ⊎ ((iscsi_pdu_login_transit request ≢ 0)
        × (iscsi_pdu_login_nsg request ≡ full_feature)
        × InPhase true r)

final-Enters :
    (request : Memory) (p : Process) (phase : Bool)
    → p.session.is_full_feature_phase ≡ phase
    → Always (Enters request phase) (response_final_login request p)
unfolding response_final_login final_security final_operational
final-Enters request p phase h =
    let text = c_string security_negotiation_response in
    let entered = enter_full_feature p in
    ground (
      arith,
      parameters-InPhase phase request p success text 15 h,
      parameters-InPhase phase request p Setup.initiator_error text 15 h,
      parameters-InPhase true request entered success text 15 refl,
      operational-InPhase phase request success p h,
      operational-InPhase phase request Setup.initiator_error p h,
      operational-InPhase true request success entered refl,
      status-InPhase phase request Setup.initiator_error p h,
    )

module _ (system : System) where
  login-Enters :
      (request : Memory) (p : Process) (phase : Bool)
      → p.session.is_full_feature_phase ≡ phase
      → Always
          (λ r. InPhase phase r ⊎ (AsksFullFeature request × InPhase true r))
          (iscsi_request_login_process system request p)
  unfolding iscsi_request_login_process login_last response_partial_login
  login-Enters request p phase h = grind (arith, setup-InPhase, final-Enters, status-InPhase)

-- The phase stays, or a login that asks for the full feature phase has it begin.
abbrev pub Turns : Memory → Process → ℕ × Process → Type 0
Turns request p r =
    (r.1.session.is_full_feature_phase ≡ p.session.is_full_feature_phase)
    ⊎ ((p.session.is_full_feature_phase ≡ false ⊎ p.connection.session_reference ≡ null)
        × (iscsi_pdu_opcode request ≡ Opcode.login)
        × AsksFullFeature request
        × (r.1.session.is_full_feature_phase ≡ true))

module _ (system : System) (request : Memory) (p : Process) where
  login_phase-Turns :
      (p.session.is_full_feature_phase ≡ false) ⊎ (p.connection.session_reference ≡ null)
      → Always (Turns request p) (process_login system request p)
  unfolding process_login iscsi_request_login_reject
  login_phase-Turns h =
      ground (arith, login-Enters system request p p.session.is_full_feature_phase refl)

  command-Turns : Always (Turns request p) (process_command system request p)
  unfolding process_command reject on_connection
  command-Turns = ground (
    arith,
    command-InPhase p.session.is_full_feature_phase system request p refl,
    data_out-InPhase p.session.is_full_feature_phase system request p refl,
  )

  full-Turns : Always (Turns request p) (process_full_feature system request p)
  unfolding process_full_feature reject on_connection
  full-Turns = ground (arith, command-Turns)

  numbered-Turns : Always (Turns request p) (process_numbered system request p)
  unfolding process_numbered
  numbered-Turns = ground (
    arith,
    full-Turns,
    λ (h : (p.session.is_full_feature_phase ≡ false) ⊎ (p.connection.session_reference ≡ null)).
        login_phase-Turns h,
  )

-- Whatever the PDU and the state, when `iscsi_server_process` returns, the session is in the phase
-- in which it was; or it was not in the full feature phase (or the connection had no session), is
-- in it now, and the PDU is a login with the continue bit clear and the transit bit set that names
-- the full feature phase as the next. So no PDU, a logout either, ends the full feature phase.
pub process-Turns :
    (system : System) (request : Memory) (p : Process)
    → Always (Turns request p) (iscsi_server_process system request p)
unfolding iscsi_server_process valid_command_numbering check_number count_command
process-Turns system request p =
    ground (arith, numbered-Turns system request (valid_command_numbering p request).1)
