-- ===== src/Server/Dispatch/Growth/Logins.antt =====
-- request/login.c: what a login does to the two buffers.
use mathlib.Core.Path.{subst}
use iscsi.Prelude.{ℕ, sym, ◌==◌, ◌≡◌, refl, arith, if◌then◌else◌}
use iscsi.Prelude.Memory.{Memory, c_string}
use iscsi.Prelude.Word.{add}
use iscsi.Prelude.Outcome.{ok, Always, Always-bind, Always-Unit, ◌>>=◌}
use iscsi.Buffer.Contents.{IsIdle}
use iscsi.Pdu.{iscsi_pdu_data, iscsi_pdu_padded_length, iscsi_pdu_data_segment_length}
use iscsi.State.{System, Process}
use iscsi.Session.{iscsi_session_create}
use iscsi.Response.Extends.{KeepsBuffers, Extends-start, respond-Extends}
use iscsi.Parameter.Update.{
  iscsi_connection_parameter_create, iscsi_connection_parameter_generate_operational_data,
}
use iscsi.Request.Login
use iscsi.Request.Login.{
  response_final_with_parameters, send_operational, send_status, final_security, final_operational,
  response_final_login, login_last, response_partial_login, iscsi_request_login_process,
  iscsi_request_login_reject, enter_full_feature, security_negotiation_response, status_write,
  partial_write, final_write,
}
use iscsi.Request.Login.Setup
use iscsi.Request.Login.Setup.{
  setup_session, new_session, choose_session, join_session, setup_normal_session, success,
  iscsi_pdu_login_continue,
}
use iscsi.Server.Dispatch.Growth.{Grown, Serves, Serves-from}

status-KeepsBuffers : (request : Memory) (status : ℕ) → KeepsBuffers (status_write request status)
unfolding status_write
status-KeepsBuffers request status m c = (refl, refl)

partial-KeepsBuffers : (request : Memory) → KeepsBuffers (partial_write request)
unfolding partial_write
partial-KeepsBuffers request m c = (refl, refl)

final-KeepsBuffers :
    (request : Memory) (status tsih : ℕ) (text : Memory) (n : ℕ)
    → KeepsBuffers (final_write request status tsih text n)
unfolding final_write
final-KeepsBuffers request status tsih text n m c = (refl, refl)

reject-KeepsBuffers : (tsih : ℕ) → KeepsBuffers (Login.reject_write tsih)
unfolding Login.reject_write
reject-KeepsBuffers tsih m c = (refl, refl)

module _ (request : Memory) (p : Process) (v : IsIdle p.connection.response_buffer) where
  parameters-Serves :
      (status : ℕ) (text : Memory) (n : ℕ)
      → Serves p (response_final_with_parameters request p status text n)
  unfolding response_final_with_parameters
  parameters-Serves status text n =
      let size = iscsi_pdu_padded_length (add 48 n) in
      let write = final_write request status p.session.tsih text n in
      ground (
        arith,
        respond-Extends p.connection size write
            (final-KeepsBuffers request status p.session.tsih text n) v,
      )

  status-Serves : (status : ℕ) → Serves p (send_status request status p)
  unfolding send_status
  status-Serves status = ground (
    arith,
    respond-Extends p.connection 48 (status_write request status)
        (status-KeepsBuffers request status) v,
  )

  pub reject_login-Serves : Serves p (iscsi_request_login_reject p)
  unfolding iscsi_request_login_reject
  reject_login-Serves = ground (
    arith,
    Extends-start p.connection v,
    respond-Extends p.connection 48 (Login.reject_write p.session.tsih)
        (reject-KeepsBuffers p.session.tsih) v,
  )

operational-Serves :
    (request : Memory) (p : Process) (status : ℕ)
    → IsIdle p.connection.response_buffer
    → Serves p (send_operational request status p)
unfolding send_operational
operational-Serves request p status v =
    Always-bind (λ _. Unit {0}) (λ r. Grown p r.1.connection)
      (iscsi_connection_parameter_generate_operational_data p.connection.parameter) _
      (Always-Unit (iscsi_connection_parameter_generate_operational_data p.connection.parameter))
      λ parameter _.
        parameters-Serves request
          (record p { connection = record p.connection { parameter = parameter } }) v status
          parameter.buffer parameter.length

final-Serves :
    (request : Memory) (p : Process)
    → IsIdle p.connection.response_buffer
    → Serves p (response_final_login request p)
unfolding response_final_login final_security final_operational
final-Serves request p v =
    let text = c_string security_negotiation_response in
    let entered = enter_full_feature p in
    ground (
      arith,
      Extends-start p.connection v,
      parameters-Serves request p v success text 15,
      parameters-Serves request p v Setup.initiator_error text 15,
      parameters-Serves request entered v success text 15,
      operational-Serves request p success v,
      operational-Serves request p Setup.initiator_error v,
      operational-Serves request entered success v,
      status-Serves request p v Setup.initiator_error,
    )

-- Setting a session up answers nothing.
setup-keeps :
    (system : System) (request : Memory) (p : Process)
    → Always
        (λ r.
          (r.1.connection.response_buffer ≡ p.connection.response_buffer)
          × (r.1.connection.receive_buffer ≡ p.connection.receive_buffer))
        (setup_session system request p)
unfolding setup_session new_session join_session iscsi_session_create choose_session
    setup_normal_session
setup-keeps system request p = ground arith

last_unset-Serves :
    (system : System) (request : Memory) (p : Process)
    → IsIdle p.connection.response_buffer
    → Serves p (
        setup_session system request p >>= λ (r : ℕ × Process).
        if r.0 == success then response_final_login request r.1 else send_status request r.0 r.1)
last_unset-Serves system request p v =
    Always-bind
      (λ r.
        (r.1.connection.response_buffer ≡ p.connection.response_buffer)
        × (r.1.connection.receive_buffer ≡ p.connection.receive_buffer))
      (λ r. Grown p r.1.connection) (setup_session system request p) _
      (setup-keeps system request p)
      λ r same.
        let w = subst IsIdle (sym same.0) v in
        Serves-from p r.1 _ same.0 same.1
          (ground (arith, final-Serves request r.1 w, status-Serves request r.1 w r.0))

last-Serves :
    (system : System) (request : Memory) (p : Process)
    → IsIdle p.connection.response_buffer
    → Serves p (login_last system request p)
unfolding login_last
last-Serves system request p v =
    ground (arith, final-Serves request p v, last_unset-Serves system request p v)

module _ (system : System) (request : Memory) where
  login_read-Serves :
      (p : Process)
      → IsIdle p.connection.response_buffer
      → Serves p (
          if iscsi_pdu_login_continue request == 0
          then login_last system request p
          else (response_partial_login request p.connection >>= λ r.
              ok (r.0, record p { connection = r.1 })))
  unfolding response_partial_login
  login_read-Serves p v = ground (
    arith,
    last-Serves system request p v,
    respond-Extends p.connection 48 (partial_write request) (partial-KeepsBuffers request) v,
  )

  pub login-Serves :
      (p : Process)
      → IsIdle p.connection.response_buffer
      → Serves p (iscsi_request_login_process system request p)
  unfolding iscsi_request_login_process
  login-Serves p v =
      let read =
        iscsi_connection_parameter_create p.connection.parameter (iscsi_pdu_data request)
          (iscsi_pdu_data_segment_length request) in
      Always-bind (λ _. Unit {0}) (λ r. Grown p r.1.connection) read _ (Always-Unit read)
        λ parameter _.
          login_read-Serves
            (record p { connection = record p.connection { parameter = parameter } }) v
