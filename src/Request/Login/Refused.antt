-- ===== src/Request/Login/Refused.antt =====
-- request/login.c: a login for a normal session that names no target.
use iscsi.Prelude.{ℕ, ◌+◌, ◌*◌, ◌^◌, ◌≤◌, ◌≡◌, refl, arith, false, some, none}
use iscsi.Prelude.Memory.{Memory, AreBytes, from}
use iscsi.Prelude.Text.{codes}
use iscsi.Prelude.Outcome.{ok}
use iscsi.Buffer.{iscsi_buffer_size}
use iscsi.Buffer.Contents.{IsIdle}
use iscsi.Pdu.{
  iscsi_pdu_opcode, iscsi_pdu_length, iscsi_pdu_data, iscsi_pdu_data_segment_length,
  iscsi_pdu_initiator_task_tag,
}
use iscsi.Pdu.Fields.{opcode-set_opcode}
use iscsi.Pdu.Opcode
use iscsi.State.{null, static, Connection, Parameter, System, Process}
use iscsi.Session.{iscsi_session_create, max_supported_conns, iscsi_session_default_tsih}
use iscsi.Parameter.Lookup.{iscsi_connection_parameter_get}
use iscsi.Parameter.Update.{iscsi_connection_parameter_create}
use iscsi.Response.{respond}
use iscsi.Response.Laws.{Answers, answered, respond-Answers, KeepsBuffer}
use iscsi.Request.Login.{status_write, send_status, login_last, iscsi_request_login_process}
use iscsi.Request.Login.Setup.{
  iscsi_pdu_login_continue, iscsi_pdu_login_tsih, iscsi_pdu_login_cid, iscsi_pdu_login_exp_cmd_sn,
  initiator_error, setup_session, new_session, choose_session, string_equal,
}

-- What the answer says: the header of the request but for the opcode and the status.
pub record RefusedPdu (request m : Memory) : Type 0 where
  pub opcode : iscsi_pdu_opcode m ≡ Opcode.login_res
  pub status : m 36 * 2 ^ 8 + m 37 ≡ initiator_error
  pub size : iscsi_pdu_length m ≡ iscsi_pdu_length request
  pub task : iscsi_pdu_initiator_task_tag m ≡ iscsi_pdu_initiator_task_tag request

write-RefusedPdu :
    (request m : Memory) (d : Connection)
    → AreBytes request
    → RefusedPdu request (status_write request initiator_error m d).0
unfolding status_write iscsi_pdu_opcode iscsi_pdu_length iscsi_pdu_initiator_task_tag
write-RefusedPdu request m d bytes = record {
  opcode = (opcode-set_opcode request Opcode.login_res 0 bytes (omega arith)).0;
  status = ground arith;
  size = refl;
  task = refl;
}

status-KeepsBuffer : (request : Memory) (status : ℕ) → KeepsBuffer (status_write request status)
unfolding status_write
status-KeepsBuffer request status m c = refl

-- The last PDU of a login with the TSIH 0, on a connection without a session, whose text, with the
-- parameters read, names an initiator and a session type other than Discovery, and no target; and
-- the device can be opened.
pub record IsTargetless (system : System) (request : Memory) (p : Process) (parameter : Parameter)
    : Type 0 where
  pub last : iscsi_pdu_login_continue request ≡ 0
  pub new : iscsi_pdu_login_tsih request ≡ 0
  pub without : p.connection.session_reference ≡ null
  pub reads :
      iscsi_connection_parameter_create p.connection.parameter
        (iscsi_pdu_data request)
        (iscsi_pdu_data_segment_length request)
      ≡ ok parameter
  pub initiator : ℕ
  pub names : iscsi_connection_parameter_get parameter (codes "InitiatorName") ≡ some initiator
  pub place : ℕ
  pub typed : iscsi_connection_parameter_get parameter (codes "SessionType") ≡ some place
  pub normal : string_equal (from parameter.buffer place) (codes "Discovery") ≡ false
  pub no_target : iscsi_connection_parameter_get parameter (codes "TargetName") ≡ none
  pub fd : ℕ
  pub opens : system.open_device ≡ some fd

-- The connection when its session is set up.
abbrev pub attached : Memory → Connection → Parameter → Connection
attached request c parameter = record c {
  parameter = parameter;
  session_reference = static;
  connection_id = iscsi_pdu_login_cid request;
}

-- The process with its session created anew, for that connection.
abbrev pub created : Memory → Process → Connection → ℕ → Process
created request p c fd = record {
  connection = c;
  target = record p.target { fd = fd };
  session = record p.session {
    num_connections = 0;
    max_connections = max_supported_conns;
    tsih = iscsi_session_default_tsih;
    exp_cmd_sn = iscsi_pdu_login_exp_cmd_sn request;
    error_recovery_level = 0;
    transfer_tag = 0;
    target = static;
  };
}

setup-eq :
    (system : System) (request : Memory) (p : Process) (parameter : Parameter)
    (h : IsTargetless system request p parameter)
    → setup_session system request
        (record p { connection = record p.connection { parameter = parameter } })
      ≡ ok (initiator_error, created request p (attached request p.connection parameter) h.fd)
unfolding setup_session new_session choose_session iscsi_session_create
setup-eq system request p parameter h =
    rw
      (
        setup_session, h.names, h.new, new_session, iscsi_session_create, h.opens, choose_session,
        h.typed, h.normal, h.no_target,
      )
      refl

refused_runs :
    (system : System) (request : Memory) (p : Process) (parameter : Parameter) (after : Connection)
    (h : IsTargetless system request p parameter)
    → respond (attached request p.connection parameter) 48 (status_write request initiator_error)
      ≡ ok after
    → iscsi_request_login_process system request p ≡ ok (48, created request p after h.fd)
unfolding iscsi_request_login_process login_last send_status
refused_runs system request p parameter after h sent =
    rw (h.reads, h.last, h.without, setup-eq system request p parameter h, sent) refl

-- A login for a normal session that names no target (`IsTargetless`), of bytes, is answered, given a
-- response buffer at rest with room for a header, by exactly one login response of 48 bytes behind
-- the bytes that wait, with the header of the request and the status for an initiator error; it
-- takes no status number. Though it is refused, the session is created anew, and the connection
-- keeps it.
pub targetless-Answers :
    (system : System) (request : Memory) (p : Process) (parameter : Parameter)
    (h : IsTargetless system request p parameter)
    → AreBytes request
    → IsIdle p.connection.response_buffer
    → p.connection.response_buffer.length + 48 ≤ iscsi_buffer_size
    → let c = attached request p.connection parameter in
      let after = answered c 48 (status_write request initiator_error) in
      (iscsi_request_login_process system request p ≡ ok (48, created request p after h.fd))
      × Answers c after 48 (RefusedPdu request)
      × (after.stat_sn ≡ p.connection.stat_sn)
      × (after.session_reference ≡ static)
unfolding status_write
targetless-Answers system request p parameter h bytes v room =
    let c = attached request p.connection parameter in
    let after = answered c 48 (status_write request initiator_error) in
    let (sent, answers) =
      respond-Answers c 48 (status_write request initiator_error) (RefusedPdu request)
        (status-KeepsBuffer request initiator_error)
        (λ m d _ _ _. write-RefusedPdu request m d bytes) v room in
    (refused_runs system request p parameter after h sent, answers, refl, refl)
