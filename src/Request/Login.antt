-- ===== src/Request/Login.antt =====
-- request/login.c and request/login.h: the login phase.
pub mod Setup
pub mod Partial
pub mod Refused
pub mod Final
pub mod Operational
use iscsi.Prelude.{
  ℕ, ◌+◌, ◌-◌, ◌*◌, ◌/◌, ◌%◌, ◌^◌, Bool, true, false, ◌==◌, List, length, if◌then◌else◌,
}
use iscsi.Prelude.Word.{add}
use iscsi.Prelude.Memory.{Memory, poke, memcpy, c_string}
use iscsi.Prelude.Text.{codes}
use iscsi.Prelude.Outcome.{Outcome, ok, ◌>>=◌}
use iscsi.Pdu.{
  basic_header_segment_length, iscsi_pdu_data, iscsi_pdu_data_segment_length,
  iscsi_pdu_padded_length, iscsi_pdu_generate_from_buffer, iscsi_pdu_set_bit, iscsi_pdu_set_opcode,
  iscsi_pdu_set_final, iscsi_pdu_set_data_segment_length, iscsi_pdu_pad0,
}
use iscsi.Pdu.Opcode
use iscsi.State.{
  Reference, null, static, Connection, System, Process, iscsi_pdu_set_response_header,
}
use iscsi.Buffer.{minus_one}
use iscsi.Parameter.Update.{
  iscsi_connection_parameter_create, iscsi_connection_parameter_generate_operational_data,
}
use iscsi.Response.{Writer, respond}
use Setup.{
  iscsi_pdu_login_transit, iscsi_pdu_login_continue, iscsi_pdu_login_csg, iscsi_pdu_login_nsg,
  success, initiator_error, security_negotiation, login_operational, full_feature, setup_session,
}

unfoldable pub iscsi_pdu_login_set_tsih : Memory → ℕ → Memory
iscsi_pdu_login_set_tsih buffer tsih = poke (poke buffer 14 (tsih / 2 ^ 8 % 256)) 15 (tsih % 256)

unfoldable pub iscsi_pdu_login_set_response_status : Memory → ℕ → Memory
iscsi_pdu_login_set_response_status buffer status =
    poke (poke buffer 36 (status / 2 ^ 8 % 256)) 37 (status % 256)

-- The answer that only repeats the header of the request, with a status.
unfoldable pub status_write : Memory → ℕ → Writer
unfolding iscsi_pdu_set_opcode iscsi_pdu_generate_from_buffer iscsi_pdu_login_set_response_status
status_write request status buffer c =
    let buffer = iscsi_pdu_generate_from_buffer buffer request in
    let buffer = iscsi_pdu_set_opcode buffer Opcode.login_res in
    (iscsi_pdu_login_set_response_status buffer status, c)

unfoldable pub partial_write : Memory → Writer
unfolding iscsi_pdu_set_opcode iscsi_pdu_set_final iscsi_pdu_set_response_header
    iscsi_pdu_generate_from_buffer iscsi_pdu_login_set_response_status
partial_write request buffer c =
    let buffer = iscsi_pdu_generate_from_buffer buffer request in
    let (buffer, c) = iscsi_pdu_set_response_header buffer c in
    let buffer = iscsi_pdu_set_opcode buffer Opcode.login_res in
    let buffer = iscsi_pdu_set_final buffer 0 in
    let status = if iscsi_pdu_login_transit request == 0 then success else initiator_error in
    (iscsi_pdu_login_set_response_status buffer status, c)

unfoldable pub response_partial_login : Memory → Connection → Outcome (ℕ × Connection)
response_partial_login request c = do
  c ← respond c basic_header_segment_length (partial_write request)
  ok (basic_header_segment_length, c)

unfoldable pub final_write : Memory → ℕ → ℕ → Memory → ℕ → Writer
unfolding iscsi_pdu_set_opcode iscsi_pdu_set_final iscsi_pdu_set_data_segment_length
    iscsi_pdu_set_response_header iscsi_pdu_pad0 iscsi_pdu_generate_from_buffer iscsi_pdu_set_bit
    iscsi_pdu_login_set_response_status iscsi_pdu_login_set_tsih
final_write request status tsih parameter n buffer c =
    let buffer = iscsi_pdu_generate_from_buffer buffer request in
    let (buffer, c) = iscsi_pdu_set_response_header buffer c in
    let buffer = iscsi_pdu_set_bit buffer 1 0 in
    let buffer = iscsi_pdu_set_opcode buffer Opcode.login_res in
    let buffer = iscsi_pdu_set_final buffer 1 in
    let buffer = iscsi_pdu_login_set_response_status buffer status in
    let buffer = iscsi_pdu_login_set_tsih buffer tsih in
    let buffer = iscsi_pdu_set_data_segment_length buffer n in
    let buffer = iscsi_pdu_pad0 buffer (add basic_header_segment_length n) in
    (memcpy buffer basic_header_segment_length parameter n, c)

unfoldable pub response_final_with_parameters :
    Memory → Process → ℕ → Memory → ℕ → Outcome (ℕ × Process)
response_final_with_parameters request p status parameter n = do
  let total_padded_size = iscsi_pdu_padded_length (add basic_header_segment_length n)
  c ← respond p.connection total_padded_size (final_write request status p.session.tsih parameter n)
  ok (total_padded_size, record p { connection = c })

abbrev pub security_negotiation_response : List ℕ
security_negotiation_response = codes "AuthMethod=None"

-- `is_full_feature_phase = 1`
abbrev pub enter_full_feature : Process → Process
enter_full_feature p = record p { session = record p.session { is_full_feature_phase = true } }

-- In security negotiation a transit to any state but the full feature phase is refused: the second
-- test reads the transit bit, which is set there.
unfoldable pub final_security : Memory → Process → Outcome (ℕ × Process)
final_security request p =
    let text = c_string security_negotiation_response in
    let n = length security_negotiation_response in
    let transit = iscsi_pdu_login_transit request in
    if transit == 0
    then response_final_with_parameters request p success text n
    else if iscsi_pdu_login_nsg request == full_feature
    then response_final_with_parameters request (enter_full_feature p) success text n
    else if transit == security_negotiation
    then response_final_with_parameters request p success text n
    else response_final_with_parameters request p initiator_error text n

-- The parameters are written out, and sent.
unfoldable pub send_operational : Memory → ℕ → Process → Outcome (ℕ × Process)
send_operational request status p = do
  parameter ← iscsi_connection_parameter_generate_operational_data p.connection.parameter
  response_final_with_parameters request
      (record p { connection = record p.connection { parameter = parameter } }) status
      parameter.buffer parameter.length

unfoldable pub final_operational : Memory → Process → Outcome (ℕ × Process)
unfolding send_operational
final_operational request p =
    if iscsi_pdu_login_transit request == 0
    then send_operational request success p
    else if iscsi_pdu_login_nsg request == full_feature
    then send_operational request success (enter_full_feature p)
    else send_operational request initiator_error p

-- An answer of a header alone, with a status.
unfoldable pub send_status : Memory → ℕ → Process → Outcome (ℕ × Process)
send_status request status p = do
  c ← respond p.connection basic_header_segment_length (status_write request status)
  ok (basic_header_segment_length, record p { connection = c })

unfoldable pub response_final_login : Memory → Process → Outcome (ℕ × Process)
unfolding final_security final_operational send_status
response_final_login request p =
    let csg = iscsi_pdu_login_csg request in
    if csg == security_negotiation
    then final_security request p
    else if csg == login_operational
    then final_operational request p
    else if csg == full_feature
    then send_status request initiator_error p
    else ok (minus_one, p)

-- `PDU_ERROR`
abbrev pub pdu_error : ℕ
pdu_error = 2 ^ 32 - 5

unfoldable pub reject_write : ℕ → Writer
unfolding iscsi_pdu_set_opcode iscsi_pdu_login_set_tsih
reject_write tsih buffer c =
    (iscsi_pdu_login_set_tsih (iscsi_pdu_set_opcode buffer Opcode.login_res) tsih, c)

unfoldable pub iscsi_request_login_reject : Process → Outcome (ℕ × Process)
iscsi_request_login_reject p = elim p.connection.session_reference [
  | null ↦ ok (pdu_error, p)
  | static ↦ do
    c ← respond p.connection basic_header_segment_length (reject_write p.session.tsih)
    ok (basic_header_segment_length, record p { connection = c })
]

module _ (system : System) where
  -- The last PDU of a login request: the session is set up first, if there is none.
  unfoldable pub login_last : Memory → Process → Outcome (ℕ × Process)
  login_last request p = elim p.connection.session_reference [
    | static ↦ response_final_login request p
    | null ↦ do
      (status, p) ← setup_session system request p
      if status == success then response_final_login request p else send_status request status p
  ]

  unfoldable pub iscsi_request_login_process : Memory → Process → Outcome (ℕ × Process)
  unfolding login_last
  iscsi_request_login_process request p = do
    parameter ←
        iscsi_connection_parameter_create p.connection.parameter (iscsi_pdu_data request)
          (iscsi_pdu_data_segment_length request)
    let p = record p { connection = record p.connection { parameter = parameter } }
    if iscsi_pdu_login_continue request == 0
        then login_last request p
        else (response_partial_login request p.connection >>= λ r.
            ok (r.0, record p { connection = r.1 }))
