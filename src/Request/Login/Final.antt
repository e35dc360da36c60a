-- ===== src/Request/Login/Final.antt =====
-- request/login.c: the answer to the last login PDU.
use iscsi.Prelude.{
  ℕ, ◌+◌, ◌*◌, ◌%◌, ◌^◌, ◌≤◌, ◌<◌, ◌≡◌, refl, ◌∙◌, arith, Bool, true, ltb, ◌==◌, if◌then◌else◌,
  all_below, all_below_sound, ◌||◌, ◌&&◌, not,
}
use iscsi.Prelude.Word.{IsByte, add}
use iscsi.Prelude.Memory.{Memory, AreBytes, from, c_string}
use iscsi.Prelude.Outcome.{ok}
use iscsi.Byte.{iscsi_byte_byte2int, with_bit}
use iscsi.Buffer.{iscsi_buffer_size}
use iscsi.Buffer.Contents.{IsIdle}
use iscsi.Pdu.{
  iscsi_pdu_opcode, iscsi_pdu_final, iscsi_pdu_length, iscsi_pdu_padded_length,
  iscsi_pdu_set_opcode, iscsi_pdu_data_segment_length, iscsi_pdu_initiator_task_tag,
}
use iscsi.Pdu.Fields.{opcode-set_opcode, final-set_final}
use iscsi.Pdu.Opcode
use iscsi.State.{Connection, Process}
use iscsi.Response.Laws.{Advances, HasInts, Answers, answered, respond-Advances}
use iscsi.Request.Login.{
  final_write, response_final_with_parameters, response_final_login, final_security,
  security_negotiation_response,
}
use iscsi.Request.Login.Setup.{
  iscsi_pdu_login_transit, iscsi_pdu_login_csg, iscsi_pdu_login_nsg, success, initiator_error,
  security_negotiation, full_feature,
}

-- What the answer says: the status, the handle of the session, the connection's numbers and `n`
-- bytes of text; the final bit, which is that of the transit, is always set.
pub record FinalPdu (request : Memory) (c : Connection) (status tsih : ℕ) (text : Memory) (n : ℕ)
    (m : Memory) : Type 0 where
  pub opcode : iscsi_pdu_opcode m ≡ Opcode.login_res
  pub final : iscsi_pdu_final m ≡ 1
  pub status_given : m 36 * 2 ^ 8 + m 37 ≡ status
  pub handle : m 14 * 2 ^ 8 + m 15 ≡ tsih % 2 ^ 16
  pub task : iscsi_pdu_initiator_task_tag m ≡ iscsi_pdu_initiator_task_tag request
  pub stat_sn : iscsi_byte_byte2int (from m 24) ≡ c.stat_sn
  pub exp_cmd_sn : iscsi_byte_byte2int (from m 28) ≡ c.expected_cmd_sn
  pub data_length : iscsi_pdu_data_segment_length m ≡ n
  pub size : m 4 ≡ 0 → iscsi_pdu_length m ≡ iscsi_pdu_padded_length (48 + n)
  pub data_text : (i : ℕ) → i < n → m (48 + i) ≡ text i

bit_table : all_below 256 (λ b. ltb (with_bit b 1 0) 256) ≡ true
unfolding all_below with_bit
bit_table = refl

-- The first byte of the answer is a byte.
bit-IsByte : (b : ℕ) → IsByte b → IsByte (with_bit b 1 0)
bit-IsByte b small = (let h = all_below_sound 256 _ b bit_table small in ground (arith, h))

opcode_kept :
    (request : Memory)
    → AreBytes request
    → iscsi_pdu_opcode (iscsi_pdu_set_opcode (λ _. with_bit (request 0) 1 0) Opcode.login_res)
      ≡ Opcode.login_res
opcode_kept request bytes =
    (opcode-set_opcode (λ _. with_bit (request 0) 1 0) Opcode.login_res 0
      (λ _. bit-IsByte (request 0) (bytes 0)) (omega arith)).0

module _ (request : Memory) (c : Connection) (status tsih : ℕ) (text : Memory) (n : ℕ) where
  write-FinalPdu :
      (m : Memory) (d : Connection)
      → AreBytes request
      → HasInts c
      → status < 2 ^ 16
      → n < 2 ^ 20
      → d.stat_sn ≡ c.stat_sn
      → d.expected_cmd_sn ≡ c.expected_cmd_sn
      → FinalPdu request c status tsih text n (final_write request status tsih text n m d).0
  unfolding final_write iscsi_pdu_length iscsi_pdu_initiator_task_tag iscsi_byte_byte2int
      iscsi_pdu_padded_length iscsi_pdu_data_segment_length iscsi_pdu_opcode iscsi_pdu_final
  write-FinalPdu m d bytes (a, b) known small sa sb = record {
    opcode = ground (arith, opcode_kept request bytes);
    final = ground (arith, final-set_final request 1 bytes);
    status_given = ground arith;
    handle = ground arith;
    task = ground arith;
    stat_sn = ground arith;
    exp_cmd_sn = ground arith;
    data_length = ground arith;
    size = λ none. ground arith;
    data_text = λ i lt. ground arith;
  }

  final-Advances : Advances (final_write request status tsih text n)
  unfolding final_write
  final-Advances m d = refl

-- The answer with a status and a text, on a connection with room.
pub parameters-Answers :
    (request : Memory) (p : Process) (status : ℕ) (text : Memory) (n : ℕ)
    → AreBytes request
    → HasInts p.connection
    → status < 2 ^ 16
    → n < 2 ^ 20
    → IsIdle p.connection.response_buffer
    → p.connection.response_buffer.length + iscsi_pdu_padded_length (48 + n) ≤ iscsi_buffer_size
    → let size = iscsi_pdu_padded_length (48 + n) in
      let after = answered p.connection size (final_write request status p.session.tsih text n) in
      (response_final_with_parameters request p status text n
        ≡ ok (size, record p { connection = after }))
      × Answers p.connection after size (FinalPdu request p.connection status p.session.tsih text n)
      × (after.stat_sn ≡ add p.connection.stat_sn 1)
unfolding response_final_with_parameters
parameters-Answers request p status text n bytes numbers known small v room =
    let c = p.connection in
    let tsih = p.session.tsih in
    let same : add 48 n ≡ 48 + n = omega arith in
    let (sent, answers, advanced) =
      respond-Advances c (iscsi_pdu_padded_length (48 + n)) (final_write request status tsih text n)
        (FinalPdu request c status tsih text n) (final-Advances request c status tsih text n)
        (λ m d _. write-FinalPdu request c status tsih text n m d bytes numbers known small) v
        room in
    (rw (same, sent) refl, answers, advanced)

-- A transit to the full feature phase is taken; to another it is refused.
abbrev pub enters : Memory → Bool
enters request =
    not (iscsi_pdu_login_transit request == 0) && (iscsi_pdu_login_nsg request == full_feature)

abbrev pub security_status : Memory → ℕ
security_status request =
    if (iscsi_pdu_login_transit request == 0) || (iscsi_pdu_login_nsg request == full_feature)
    then success
    else initiator_error

abbrev pub security_text : Memory
security_text = c_string security_negotiation_response

-- The process in the phase that follows.
abbrev pub turned : Memory → Process → Process
turned request p = record p {
  session = record p.session {
    is_full_feature_phase = enters request || p.session.is_full_feature_phase;
  };
}

security-eq :
    (request : Memory) (p : Process)
    → AreBytes request
    → iscsi_pdu_login_csg request ≡ security_negotiation
    → response_final_login request p
      ≡ response_final_with_parameters request
          (turned request p)
          (security_status request)
          security_text
          15
unfolding response_final_login final_security
security-eq request p bytes stage = ground arith

-- For the last PDU of a login of bytes, in security negotiation and with a session, given int
-- numbers and a response buffer at rest with room for 64 bytes, `response_final_login` returns.
-- With the transit bit set and the full feature phase named as the next, that phase begins and the
-- status is the one for success; so it is without the transit bit, the phase as it was; and a
-- transit to any other phase, the operational one too, is refused with an initiator error. The
-- answer is exactly one PDU behind the bytes that wait: a login response with that status, the
-- handle of the session, the connection's numbers, the text AuthMethod=None, and the transit bit
-- set whatever the request says. The status number goes up by one, and nothing else is changed.
pub security-Answers :
    (request : Memory) (p : Process)
    → AreBytes request
    → iscsi_pdu_login_csg request ≡ security_negotiation
    → HasInts p.connection
    → IsIdle p.connection.response_buffer
    → p.connection.response_buffer.length + 64 ≤ iscsi_buffer_size
    → (after : Connection) × (response_final_login request p
        ≡ ok (64, record (turned request p) { connection = after }))
      × Answers p.connection after 64
          (FinalPdu request p.connection (security_status request) p.session.tsih security_text 15)
      × (after.stat_sn ≡ add p.connection.stat_sn 1)
unfolding iscsi_pdu_padded_length
security-Answers request p bytes stage numbers v room =
    let status = security_status request in
    let known : status < 2 ^ 16 = ground arith in
    let (sent, answers, advanced) =
      parameters-Answers request (turned request p) status security_text 15 bytes numbers known
        (omega arith) v (omega arith) in
    let after =
      answered p.connection 64 (final_write request status p.session.tsih security_text 15) in
    (after, security-eq request p bytes stage ∙ sent, answers, advanced)
