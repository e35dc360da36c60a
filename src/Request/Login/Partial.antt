-- ===== src/Request/Login/Partial.antt =====
-- request/login.c: the answer to a login PDU that is not the last.
use iscsi.Prelude.{◌+◌, ◌*◌, ◌^◌, ◌≤◌, ◌≡◌, ◌≢◌, refl, arith, ◌==◌, if◌then◌else◌, false}
use iscsi.Prelude.Word.{add}
use iscsi.Prelude.Memory.{Memory, AreBytes, from}
use iscsi.Prelude.Outcome.{ok}
use iscsi.Byte.{iscsi_byte_byte2int}
use iscsi.Buffer.{iscsi_buffer_size}
use iscsi.Buffer.Contents.{IsIdle}
use iscsi.Pdu.{
  iscsi_pdu_opcode, iscsi_pdu_final, iscsi_pdu_length, iscsi_pdu_data,
  iscsi_pdu_data_segment_length, iscsi_pdu_initiator_task_tag,
}
use iscsi.Pdu.Fields.{opcode-set_opcode, final-set_final}
use iscsi.Pdu.Opcode
use iscsi.State.{Connection, Parameter, System, Process}
use iscsi.Parameter.Update.{iscsi_connection_parameter_create}
use iscsi.Response.{respond}
use iscsi.Response.Laws.{Advances, HasInts, Answers, answered, respond-Advances}
use iscsi.Request.Login.{partial_write, response_partial_login, iscsi_request_login_process}
use iscsi.Request.Login.Setup.{
  iscsi_pdu_login_transit, iscsi_pdu_login_continue, success, initiator_error,
}

-- What the answer says: the header of the request but for the opcode, the final bit, the numbers
-- and the status, which refuses a transit bit beside the continue bit.
pub record PartialPdu (request : Memory) (c : Connection) (m : Memory) : Type 0 where
  pub opcode : iscsi_pdu_opcode m ≡ Opcode.login_res
  pub final : iscsi_pdu_final m ≡ 0
  pub size : iscsi_pdu_length m ≡ iscsi_pdu_length request
  pub status :
      m 36 * 2 ^ 8 + m 37
      ≡ (if iscsi_pdu_login_transit request == 0 then success else initiator_error)
  pub stat_sn : iscsi_byte_byte2int (from m 24) ≡ c.stat_sn
  pub exp_cmd_sn : iscsi_byte_byte2int (from m 28) ≡ c.expected_cmd_sn
  pub task : iscsi_pdu_initiator_task_tag m ≡ iscsi_pdu_initiator_task_tag request

write-PartialPdu :
    (request : Memory) (c : Connection) (m : Memory) (d : Connection)
    → AreBytes request
    → HasInts c
    → d.stat_sn ≡ c.stat_sn
    → d.expected_cmd_sn ≡ c.expected_cmd_sn
    → PartialPdu request c (partial_write request m d).0
unfolding partial_write iscsi_pdu_length iscsi_pdu_opcode iscsi_pdu_final iscsi_byte_byte2int
    iscsi_pdu_initiator_task_tag
write-PartialPdu request c m d bytes (a, b) sa sb = record {
  opcode = (opcode-set_opcode request Opcode.login_res 0 bytes (omega arith)).0;
  final = final-set_final request 0 bytes;
  size = refl;
  status = ground arith;
  stat_sn = ground arith;
  exp_cmd_sn = ground arith;
  task = refl;
}

partial-Advances : (request : Memory) → Advances (partial_write request)
unfolding partial_write
partial-Advances request m c = refl

partial_runs :
    (system : System) (request : Memory) (p : Process) (parameter : Parameter) (after : Connection)
    → iscsi_pdu_login_continue request ≢ 0
    → iscsi_connection_parameter_create p.connection.parameter
        (iscsi_pdu_data request)
        (iscsi_pdu_data_segment_length request)
      ≡ ok parameter
    → respond (record p.connection { parameter = parameter }) 48 (partial_write request) ≡ ok after
    → iscsi_request_login_process system request p ≡ ok (48, record p { connection = after })
unfolding iscsi_request_login_process response_partial_login
partial_runs system request p parameter after more read sent =
    let goes_on : (iscsi_pdu_login_continue request == 0) ≡ false = ground arith in
    rw (read, goes_on, sent) refl

-- A login PDU of bytes with the continue bit, whose parameters can be read, is answered with or
-- without a session, given int numbers and a response buffer at rest with room for a header, by
-- exactly one PDU of 48 bytes behind the bytes that wait: a login response with the final bit
-- clear, the connection's numbers and the status for success, or for an initiator error if the
-- transit bit is set too. The length that it states is that of the request. The status number goes
-- up by one, and of the session nothing is changed.
pub partial-Answers :
    (system : System) (request : Memory) (p : Process) (parameter : Parameter)
    → AreBytes request
    → iscsi_pdu_login_continue request ≢ 0
    → iscsi_connection_parameter_create p.connection.parameter
        (iscsi_pdu_data request)
        (iscsi_pdu_data_segment_length request)
      ≡ ok parameter
    → HasInts p.connection
    → IsIdle p.connection.response_buffer
    → p.connection.response_buffer.length + 48 ≤ iscsi_buffer_size
    → let c = record p.connection { parameter = parameter } in
      let after = answered c 48 (partial_write request) in
      (iscsi_request_login_process system request p ≡ ok (48, record p { connection = after }))
      × Answers c after 48 (PartialPdu request c)
      × (after.stat_sn ≡ add c.stat_sn 1)
partial-Answers system request p parameter bytes more read numbers v room =
    let c = record p.connection { parameter = parameter } in
    let after = answered c 48 (partial_write request) in
    let (sent, answers, advanced) =
      respond-Advances c 48 (partial_write request) (PartialPdu request c)
        (partial-Advances request) (λ m d _. write-PartialPdu request c m d bytes numbers) v room in
    (partial_runs system request p parameter after more read sent, answers, advanced)
