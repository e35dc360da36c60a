-- ===== src/Server/Dispatch/Refusals.antt =====
-- iscsi_server.c: PDUs that are refused, by the phase of the session and the opcode.
use iscsi.Prelude.{
  ◌⊎◌, inl, inr, ℕ, ◌+◌, ◌*◌, ◌^◌, ◌%◌, ◌≤◌, ◌<◌, ◌≡◌, ◌≢◌, refl, ap, ◌∙◌, arith, Bool, true, false,
  ◌==◌, if◌then◌else◌, ◌||◌, ◌&&◌, not,
}
use iscsi.Prelude.Word.{add}
use iscsi.Prelude.Memory.{Memory}
use iscsi.Prelude.Outcome.{ok, ◌>>=◌}
use iscsi.Buffer.{iscsi_buffer_size}
use iscsi.Buffer.Contents.{IsIdle}
use iscsi.Pdu.{iscsi_pdu_opcode, iscsi_pdu_length, iscsi_pdu_padded_length}
use iscsi.Pdu.Opcode
use iscsi.State.{static, Connection, Session, System, Process}
use iscsi.Response.{respond}
use iscsi.Response.Laws.{HasInts, Answers, answered, respond-Answers}
use iscsi.Request.Login.{reject_write, iscsi_request_login_reject}
use iscsi.Request.Reject.{protocol_error, cmd_not_supported}
use iscsi.Request.Reject.Answer.{RejectPdu, reject-Answers}
use iscsi.Server.Numbering.{valid_command_numbering}
use iscsi.Server.Numbering.Tested.{tested}
use iscsi.Server.Numbering.Unchecked.{IsDropped, Counted}
use iscsi.Server.Dispatch.{
  pdu_ignore, reject, on_connection, process_login, process_command, process_full_feature,
  process_numbered, iscsi_server_process,
}

-- No handler stands for the PDU in the full feature phase.
abbrev pub unserved : Memory → Process → Bool
unserved request p =
    let opcode = iscsi_pdu_opcode request in
    not (opcode == Opcode.logout)
    && not (opcode == Opcode.text)
    && (p.session.is_discovery
        || (not (opcode == Opcode.nop_out)
            && not (opcode == Opcode.scsi_data_out)
            && not (opcode == Opcode.scsi_cmd)))

-- The reason of the reject.
abbrev pub reason_of : Memory → Process → ℕ
reason_of request p =
    if p.session.is_discovery || (iscsi_pdu_opcode request == Opcode.login)
    then protocol_error
    else cmd_not_supported

-- The answer to a PDU that comes before the login is over: a login response that has the handle of
-- the session, the status of a success, and no numbers.
pub record LoginRejectPdu (tsih : ℕ) (m : Memory) : Type 0 where
  pub opcode : iscsi_pdu_opcode m ≡ Opcode.login_res
  pub handle : m 14 * 2 ^ 8 + m 15 ≡ tsih % 2 ^ 16
  pub status_given : m 36 * 2 ^ 8 + m 37 ≡ 0
  pub size : iscsi_pdu_length m ≡ 48

write-LoginRejectPdu :
    (tsih : ℕ) (m : Memory) (d : Connection)
    → ((i : ℕ) → i < 48 → m i ≡ 0)
    → LoginRejectPdu tsih (reject_write tsih m d).0
unfolding reject_write iscsi_pdu_opcode iscsi_pdu_length
write-LoginRejectPdu tsih m d zeros = record {
  opcode = rw (zeros 0 (omega arith)) refl;
  handle = ground arith;
  status_given = omega (arith, zeros 36, zeros 37);
  size = ground (arith, zeros 4, zeros 5, zeros 6, zeros 7);
}

reject-keeps :
    (tsih : ℕ) (m : Memory) (c : Connection)
    → (reject_write tsih m c).1.response_buffer ≡ c.response_buffer
unfolding reject_write
reject-keeps tsih m c = refl

reject-number :
    (tsih : ℕ) (c : Connection) → (answered c 48 (reject_write tsih)).stat_sn ≡ c.stat_sn
unfolding reject_write
reject-number tsih c = refl

login_reject-eq :
    (p : Process) (after : Connection)
    → p.connection.session_reference ≡ static
    → respond p.connection 48 (reject_write p.session.tsih) ≡ ok after
    → iscsi_request_login_reject p ≡ ok (48, record p { connection = after })
unfolding iscsi_request_login_reject
login_reject-eq p after there sent = ground arith

module _ (system : System) (request : Memory) (p : Process) where
  dropped-eq :
      IsDropped p request
      → (valid_command_numbering p request).0 ≡ false
      → (valid_command_numbering p request).1 ≡ p
      → iscsi_server_process system request p ≡ ok (pdu_ignore, p)
  unfolding iscsi_server_process
  dropped-eq h stops same =
      let whole : valid_command_numbering p request ≡ (false, p) = ground arith in
      ap
        (λ (r : Bool × Process).
          if r.0 then process_numbered system request r.1 else ok (pdu_ignore, r.1))
        whole

  through-eq :
      (valid_command_numbering p request).0 ≡ true
      → iscsi_server_process system request p
        ≡ process_numbered system request (valid_command_numbering p request).1
  unfolding iscsi_server_process
  through-eq through = rw through refl

module _ (system : System) (request : Memory) (p : Process) where
  full_feature-eq :
      p.connection.session_reference ≡ static
      → p.session.is_full_feature_phase ≡ true
      → unserved request p ≡ true
      → process_numbered system request p ≡ reject (reason_of request p) p
  unfolding process_numbered process_full_feature process_command
  full_feature-eq there phase none = rw (there, phase) (ground arith)

  before_login-eq :
      p.connection.session_reference ≡ static
      → p.session.is_full_feature_phase ≡ false
      → iscsi_pdu_opcode request ≢ Opcode.login
      → process_numbered system request p ≡ iscsi_request_login_reject p
  unfolding process_numbered process_login
  before_login-eq there phase other = ground arith

  -- Behind the test of command numbers.
  numbered-Rejected :
      (reason : ℕ)
      → reason_of request p ≡ reason
      → reason < 256
      → p.connection.session_reference ≡ static
      → p.session.is_full_feature_phase ≡ true
      → unserved request p ≡ true
      → HasInts p.connection
      → IsIdle p.connection.response_buffer
      → p.connection.response_buffer.length + 48 ≤ iscsi_buffer_size
      → (after : Connection) × (process_numbered system request p
          ≡ ok (0, record p { connection = after }))
        × Answers p.connection after 48 (RejectPdu p.connection reason (λ _. 0) 0)
        × (after.stat_sn ≡ add p.connection.stat_sn 1)
  unfolding iscsi_pdu_padded_length reject on_connection
  numbered-Rejected reason same small there phase none numbers v room =
      let (sent, answers, counted) =
        reject-Answers p.connection reason (λ _. 0) 0 (omega arith) numbers v room in
      (
        _,
        full_feature-eq there phase none
            ∙ ap (λ r. reject r p) same
            ∙ ap (λ m. m >>= λ r. ok (r.0, record p { connection = r.1 })) sent,
        answers,
        counted,
      )

  -- Behind the test of command numbers.
  numbered-Refused :
      (tsih : ℕ)
      → p.session.tsih ≡ tsih
      → p.connection.session_reference ≡ static
      → p.session.is_full_feature_phase ≡ false
      → iscsi_pdu_opcode request ≢ Opcode.login
      → IsIdle p.connection.response_buffer
      → p.connection.response_buffer.length + 48 ≤ iscsi_buffer_size
      → (after : Connection) × (process_numbered system request p
          ≡ ok (48, record p { connection = after }))
        × Answers p.connection after 48 (LoginRejectPdu tsih)
        × (after.stat_sn ≡ p.connection.stat_sn)
  numbered-Refused tsih same there phase other v room =
      let write = reject_write tsih in
      let (sent, answers) =
        respond-Answers p.connection 48 write (LoginRejectPdu tsih) (reject-keeps tsih)
          (λ m d zeros _ _. write-LoginRejectPdu tsih m d zeros) v room in
      (
        answered p.connection 48 write,
        before_login-eq there phase other
            ∙ login_reject-eq p _ there
                (ap (λ t. respond p.connection 48 (reject_write t)) same ∙ sent),
        answers,
        reject-number tsih p.connection,
      )

-- In the full feature phase, given int numbers and a response buffer at rest with room for a header:
-- a PDU for which no handler stands, which in a session for discovery is every one but a logout and
-- a text request, is either dropped by the test of command numbers (`IsDropped`), and nothing is
-- changed, or answered by exactly one reject of 48 bytes behind the bytes that wait, whose reason is
-- a protocol error in a session for discovery and for a login, and a command that is not supported
-- else. Its status is 0, the status number goes up by one, the device is as it was, and the session
-- as the test of command numbers leaves it (`Counted`).
pub unserved-Rejected :
    (system : System) (request : Memory) (p : Process)
    → p.connection.session_reference ≡ static
    → p.session.is_full_feature_phase ≡ true
    → unserved request p ≡ true
    → HasInts p.connection
    → IsIdle p.connection.response_buffer
    → p.connection.response_buffer.length + 48 ≤ iscsi_buffer_size
    → (IsDropped p request × (iscsi_server_process system request p ≡ ok (pdu_ignore, p)))
      ⊎ ((after : Connection) × (s : Session) × (¬ IsDropped p request)
          × (iscsi_server_process system request p
              ≡ ok (0, record p { connection = after; session = s }))
          × Counted p request (true, record p { session = s })
          × Answers p.connection after 48 (RejectPdu p.connection (reason_of request p) (λ _. 0) 0)
          × (after.stat_sn ≡ add p.connection.stat_sn 1))
unserved-Rejected system request p there phase none numbers v room = elim (tested p request) [
  | inl (h, stops, same) ↦ inl (h, dropped-eq system request p h stops same)
  | inr (s, kept, through, same, full, kind, handle, counted) ↦
      let q : Process = record p { session = s } in
      let unserved_too : unserved request q ≡ true = rw kind none in
      let reason_too : reason_of request q ≡ reason_of request p = rw kind refl in
      let (after, sent, answers, number) =
        numbered-Rejected system request q (reason_of request p) reason_too (ground arith) there
          (full ∙ phase) unserved_too numbers v room in
      inr (
        after,
        s,
        kept,
        through-eq system request p through ∙ ap (process_numbered system request) same ∙ sent,
        counted,
        answers,
        number,
      )
]

-- Before the full feature phase of a session, given a response buffer at rest with room for a
-- header: a PDU that is no login is either dropped by the test of command numbers (`IsDropped`), and
-- nothing is changed, or answered by exactly one login response of 48 bytes behind the bytes that
-- wait, with the handle of the session and, though it refuses, the status for success. The device
-- and the status number are as they were, and the session as the test of command numbers leaves it
-- (`Counted`).
pub before_login-Refused :
    (system : System) (request : Memory) (p : Process)
    → p.connection.session_reference ≡ static
    → p.session.is_full_feature_phase ≡ false
    → iscsi_pdu_opcode request ≢ Opcode.login
    → IsIdle p.connection.response_buffer
    → p.connection.response_buffer.length + 48 ≤ iscsi_buffer_size
    → (IsDropped p request × (iscsi_server_process system request p ≡ ok (pdu_ignore, p)))
      ⊎ ((after : Connection) × (s : Session) × (¬ IsDropped p request)
          × (iscsi_server_process system request p
              ≡ ok (48, record p { connection = after; session = s }))
          × Counted p request (true, record p { session = s })
          × Answers p.connection after 48 (LoginRejectPdu p.session.tsih)
          × (after.stat_sn ≡ p.connection.stat_sn))
before_login-Refused system request p there phase other v room = elim (tested p request) [
  | inl (h, stops, same) ↦ inl (h, dropped-eq system request p h stops same)
  | inr (s, kept, through, same, full, kind, handle, counted) ↦
      let (after, sent, answers, number) =
        numbered-Refused system request (record p { session = s }) p.session.tsih handle there
          (full ∙ phase) other v room in
      inr (
        after,
        s,
        kept,
        through-eq system request p through ∙ ap (process_numbered system request) same ∙ sent,
        counted,
        answers,
        number,
      )
]
