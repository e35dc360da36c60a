-- ===== src/Request/Login/Operational.antt =====
-- request/login.c: the answer to the last login PDU in the operational phase.
use iscsi.Prelude.{ℕ, ◌+◌, ◌^◌, ◌≤◌, ◌<◌, ◌≡◌, refl, ◌∙◌, arith}
use iscsi.Prelude.Word.{add}
use iscsi.Prelude.Memory.{Memory, AreBytes}
use iscsi.Prelude.Outcome.{ok}
use iscsi.Buffer.{iscsi_buffer_size}
use iscsi.Buffer.Contents.{IsIdle}
use iscsi.Pdu.{iscsi_pdu_padded_length}
use iscsi.State.{Connection, Parameter, Process}
use iscsi.Parameter.Settled.{IsSettled}
use iscsi.Parameter.Generated.{Prints, generate-Prints}
use iscsi.Parameter.Update.{iscsi_connection_parameter_generate_operational_data}
use iscsi.Response.Laws.{HasInts, Answers, answered}
use iscsi.Request.Login.{
  final_write, response_final_with_parameters, response_final_login, final_operational,
  send_operational,
}
use iscsi.Request.Login.Final.{FinalPdu, security_status, turned, parameters-Answers}
use iscsi.Request.Login.Setup.{iscsi_pdu_login_csg, login_operational}

operational-eq :
    (request : Memory) (p : Process)
    → iscsi_pdu_login_csg request ≡ login_operational
    → response_final_login request p
      ≡ send_operational request (security_status request) (turned request p)
unfolding response_final_login final_operational
operational-eq request p stage = ground arith

-- The connection with the parameters as they are printed.
abbrev pub printed : Process → Parameter → Process
printed p q = record p { connection = record p.connection { parameter = q } }

send-eq :
    (request : Memory) (status : ℕ) (p : Process) (q : Parameter)
    → iscsi_connection_parameter_generate_operational_data p.connection.parameter ≡ ok q
    → send_operational request status p
      ≡ response_final_with_parameters request (printed p q) status q.buffer q.length
unfolding send_operational
send-eq request status p q prints = rw prints refl

padded_bound : (n : ℕ) → n ≤ 512 → iscsi_pdu_padded_length (48 + n) ≤ 560
unfolding iscsi_pdu_padded_length
padded_bound n small = omega arith

-- For the last PDU of a login of bytes, in the operational phase and with a session, given int
-- numbers, parameters within the limits which are natural numbers, and a response buffer at rest
-- with room for 560 bytes, `response_final_login` returns. With the transit bit set and the full
-- feature phase named as the next, that phase begins and the status is the one for success; so it
-- is without the transit bit, the phase as it was; and a transit to any other phase is refused with
-- an initiator error. The answer is exactly one PDU behind the bytes that wait: a login response
-- with that status, the handle of the session, the connection's numbers, the transit bit set
-- whatever the request says, and as data the text of the parameters. The status number goes up by
-- one.
pub operational-Answers :
    (request : Memory) (p : Process)
    → AreBytes request
    → iscsi_pdu_login_csg request ≡ login_operational
    → IsSettled p.connection.parameter
    → HasInts p.connection
    → IsIdle p.connection.response_buffer
    → p.connection.response_buffer.length + 560 ≤ iscsi_buffer_size
    → (q : Parameter) × (after : Connection) × Prints p.connection.parameter q
      × (response_final_login request p
          ≡ ok (
            iscsi_pdu_padded_length (48 + q.length),
            record (turned request p) { connection = after },
          ))
      × Answers p.connection after (iscsi_pdu_padded_length (48 + q.length)) (
          FinalPdu request
            (record p.connection { parameter = q })
            (security_status request)
            p.session.tsih
            q.buffer
            q.length)
      × (after.stat_sn ≡ add p.connection.stat_sn 1)
operational-Answers request p bytes stage settled numbers v room =
    let status = security_status request in
    let known : status < 2 ^ 16 = ground arith in
    let (q, generates, prints) = generate-Prints p.connection.parameter settled in
    let short = prints.short in
    let fits = padded_bound q.length short in
    let (sent, answers, advanced) =
      parameters-Answers request (printed (turned request p) q) status q.buffer q.length bytes
        numbers known (omega arith) v (omega arith) in
    let after =
      answered (record p.connection { parameter = q }) (iscsi_pdu_padded_length (48 + q.length))
        (final_write request status p.session.tsih q.buffer q.length) in
    (
      q,
      after,
      prints,
      operational-eq request p stage ∙ send-eq request status (turned request p) q generates ∙ sent,
      record { idle = answers.idle; holds = answers.holds; fields = answers.fields },
      advanced,
    )
