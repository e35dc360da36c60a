-- ===== src/Server/Dispatch/Commands.antt =====
-- iscsi_server.c: which PDUs of a connection can have the device given a command.
use iscsi.Prelude.{ℕ, ◌≡◌, ◌⊎◌, refl, arith, true, false, List}
use iscsi.Prelude.Memory.{Memory, c_string}
use iscsi.Prelude.Outcome.{Outcome, Always}
use iscsi.Pdu.{iscsi_pdu_opcode}
use iscsi.Pdu.Opcode
use iscsi.State.{static, Connection, System, Process, ScsiCommand}
use iscsi.Session.{iscsi_session_create}
use iscsi.Request.Login.Setup
use iscsi.Request.Login.{
  response_final_with_parameters, send_operational, send_status, final_security, final_operational,
  response_final_login, login_last, iscsi_request_login_process, iscsi_request_login_reject,
  enter_full_feature, security_negotiation_response, response_partial_login,
}
use iscsi.Request.Login.Setup.{
  setup_session, new_session, choose_session, join_session, string_equal, iscsi_pdu_login_tsih,
  setup_normal_session, iscsi_pdu_login_transit, iscsi_pdu_login_csg, iscsi_pdu_login_nsg,
  iscsi_pdu_login_continue, security_negotiation, login_operational, full_feature, success,
}
use iscsi.Server.Numbering.{valid_command_numbering, check_number, count_command}
use iscsi.Server.Dispatch.{
  on_connection, reject, process_login, process_command, process_full_feature, process_numbered,
  iscsi_server_process,
}

-- The device has been given no command but those in the list.
abbrev Silent : List ScsiCommand → ℕ × Process → Type 0
Silent issued r = r.1.target.issued ≡ issued

module _ (issued : List ScsiCommand) where
  on_connection-Silent :
      (handler : Connection → Outcome (ℕ × Connection)) (p : Process)
      → p.target.issued ≡ issued
      → Always (Silent issued) (on_connection handler p)
  unfolding on_connection
  on_connection-Silent handler p h = ground arith

  parameters-Silent :
      (request : Memory) (p : Process) (status : ℕ) (text : Memory) (n : ℕ)
      → p.target.issued ≡ issued
      → Always (Silent issued) (response_final_with_parameters request p status text n)
  unfolding response_final_with_parameters
  parameters-Silent request p status text n h = ground arith

  status-Silent :
      (request : Memory) (status : ℕ) (p : Process)
      → p.target.issued ≡ issued
      → Always (Silent issued) (send_status request status p)
  unfolding send_status
  status-Silent request status p h = ground arith

  operational-Silent :
      (request : Memory) (status : ℕ) (p : Process)
      → p.target.issued ≡ issued
      → Always (Silent issued) (send_operational request status p)
  unfolding send_operational response_final_with_parameters
  operational-Silent request status p h = ground arith

  final-Silent :
      (request : Memory) (p : Process)
      → p.target.issued ≡ issued
      → Always (Silent issued) (response_final_login request p)
  unfolding response_final_login final_security final_operational
  final-Silent request p h = ground (
    arith,
    parameters-Silent request p success (c_string security_negotiation_response) 15 h,
    parameters-Silent request p Setup.initiator_error (c_string security_negotiation_response) 15 h,
    parameters-Silent request (enter_full_feature p) success
        (c_string security_negotiation_response) 15 h,
    operational-Silent request success p h,
    operational-Silent request Setup.initiator_error p h,
    operational-Silent request success (enter_full_feature p) h,
    status-Silent request Setup.initiator_error p h,
  )

  choose-Silent :
      (p : Process) → p.target.issued ≡ issued → Always (Silent issued) (choose_session p)
  unfolding choose_session
  choose-Silent p h = ground arith

  module _ (system : System) where
    setup-Silent :
        (request : Memory) (p : Process)
        → p.target.issued ≡ issued
        → Always (Silent issued) (setup_session system request p)
    unfolding setup_session new_session join_session iscsi_session_create
    setup-Silent request p h = ground arith

    login-Silent :
        (request : Memory) (p : Process)
        → p.target.issued ≡ issued
        → Always (Silent issued) (iscsi_request_login_process system request p)
    unfolding iscsi_request_login_process login_last response_partial_login
    login-Silent request p h = grind (arith, setup-Silent, final-Silent, status-Silent)

    reject-Silent :
        (p : Process)
        → p.target.issued ≡ issued
        → Always (Silent issued) (iscsi_request_login_reject p)
    unfolding iscsi_request_login_reject
    reject-Silent p h = ground arith

-- The PDU may have the device given a command: the session is set up, is in the full feature phase
-- and is not for discovery, and the PDU is a SCSI command or carries its data.
abbrev pub MayCommand : Memory → Process → Type 0
MayCommand request p =
    (p.connection.session_reference ≡ static)
    × (p.session.is_full_feature_phase ≡ true)
    × (p.session.is_discovery ≡ false)
    × ((iscsi_pdu_opcode request ≡ Opcode.scsi_cmd)
        ⊎ (iscsi_pdu_opcode request ≡ Opcode.scsi_data_out))

-- What the test of the command number leaves alone.
numbering-keeps :
    (p : Process) (request : Memory)
    → let q = (valid_command_numbering p request).1 in
      (q.connection ≡ p.connection)
      × (q.target ≡ p.target)
      × (q.session.is_full_feature_phase ≡ p.session.is_full_feature_phase)
      × (q.session.is_discovery ≡ p.session.is_discovery)
unfolding valid_command_numbering check_number count_command
numbering-keeps p request = (ground arith, ground arith, ground arith, ground arith)

-- The device has been given no command, or the PDU may have it given one.
abbrev pub Guarded : Memory → Process → ℕ × Process → Type 0
Guarded request p r = Silent p.target.issued r ⊎ MayCommand request p

module _ (system : System) where
  command-Guarded :
      (request : Memory) (p : Process)
      → p.connection.session_reference ≡ static
      → p.session.is_full_feature_phase ≡ true
      → p.session.is_discovery ≡ false
      → Always (Guarded request p) (process_command system request p)
  unfolding process_command reject on_connection
  command-Guarded request p set phase normal = ground arith

  full-Guarded :
      (request : Memory) (p : Process)
      → p.connection.session_reference ≡ static
      → p.session.is_full_feature_phase ≡ true
      → Always (Guarded request p) (process_full_feature system request p)
  unfolding process_full_feature on_connection reject
  full-Guarded request p set phase = ground (arith, command-Guarded request p set phase)

  login_phase-Guarded :
      (request : Memory) (p : Process) → Always (Guarded request p) (process_login system request p)
  unfolding process_login
  login_phase-Guarded request p = ground (
    arith,
    login-Silent p.target.issued system request p refl,
    reject-Silent p.target.issued system p refl,
  )

  numbered-Guarded :
      (request : Memory) (p : Process)
      → Always (Guarded request p) (process_numbered system request p)
  unfolding process_numbered
  numbered-Guarded request p = ground (arith, login_phase-Guarded request p, full-Guarded request p)

  -- Whatever the PDU and the state, when `iscsi_server_process` returns, either the device has been
  -- given no command, or the session is set up, in the full feature phase and not for discovery,
  -- and the PDU is a SCSI command or carries the data of one.
  pub process-Guarded :
      (request : Memory) (p : Process)
      → Always (Guarded request p) (iscsi_server_process system request p)
  unfolding iscsi_server_process
  process-Guarded request p =
      let (same, device, phase, discovery) = numbering-keeps p request in
      ground (arith, numbered-Guarded request (valid_command_numbering p request).1)
