-- ===== src/Tests/Refusals.antt =====
-- Ends of the login, and refusals, at concrete PDUs.
use iscsi.Prelude.{◌⊎◌, ℕ, ◌≡◌, ◌≢◌, refl, arith, true, List, ◌+◌, [], ◌∷◌}
use iscsi.Prelude.Memory.{Memory, c_string}
use iscsi.Prelude.Outcome.{ok}
use iscsi.Pdu.{iscsi_pdu_opcode, iscsi_pdu_padded_length}
use iscsi.Pdu.Opcode
use iscsi.State.{Connection, Parameter, Process, Session}
use iscsi.Parameter.Generated.{Prints}
use iscsi.Parameter.Settled.{IsSettled}
use iscsi.Request.Login.Operational.{operational-Answers}
use iscsi.Response.Laws.{Answers}
use iscsi.Request.Login.{response_final_login}
use iscsi.Request.Login.Final.{FinalPdu, turned, security_status, security_text, security-Answers}
use iscsi.Request.Login.Setup.{iscsi_pdu_login_csg, login_operational}
use iscsi.Request.Reject.Answer.{RejectPdu}
use iscsi.Server.Dispatch.{pdu_ignore, iscsi_server_process}
use iscsi.Server.Numbering.Unchecked.{IsDropped, Counted}
use iscsi.Server.Dispatch.Refusals.{
  LoginRejectPdu, reason_of, unserved, unserved-Rejected, before_login-Refused,
}
use iscsi.Tests.Samples.{parameters, c_string-AreBytes, process, session, system, empty-IsIdle}

-- A login in security negotiation that asks for the operational phase.
abbrev asks : Memory
asks = c_string (0x43 ∷ 0x81 ∷ [])

in_security : iscsi_pdu_login_csg asks ≡ 0
unfolding iscsi_pdu_login_csg
in_security = refl

security-Answers_example :
    (after : Connection) × (response_final_login asks process
      ≡ ok (64, record (turned asks process) { connection = after }))
    × Answers process.connection after 64
        (FinalPdu asks process.connection (security_status asks) 1 security_text 15)
    × (after.stat_sn ≡ 8)
security-Answers_example =
    security-Answers asks process (c_string-AreBytes (0x43 ∷ 0x81 ∷ []) (omega arith)) in_security
      (omega arith) empty-IsIdle (omega arith)

-- A login in the operational phase that asks for the full feature phase.
abbrev ends_codes : List ℕ
ends_codes = 0x43 ∷ 0x87 ∷ []

abbrev ends : Memory
ends = c_string ends_codes

in_operational : iscsi_pdu_login_csg ends ≡ login_operational
unfolding iscsi_pdu_login_csg
in_operational = refl

parameters-IsSettled : IsSettled parameters
parameters-IsSettled = record {
  connections = omega arith;
  in_turn = refl;
  immediate = refl;
  burst = omega arith;
  first_burst = omega arith;
  pdu_order = refl;
  sequence_order = refl;
  wait = (omega arith, omega arith);
  retain = (omega arith, omega arith);
  outstanding = omega arith;
}

operational-Answers_example :
    (q : Parameter) × (after : Connection) × Prints parameters q
    × (response_final_login ends process
        ≡ ok (
          iscsi_pdu_padded_length (48 + q.length),
          record (turned ends process) { connection = after },
        ))
    × Answers process.connection after (iscsi_pdu_padded_length (48 + q.length)) (
        FinalPdu ends
          (record process.connection { parameter = q })
          (security_status ends)
          1
          q.buffer
          q.length)
    × (after.stat_sn ≡ 8)
operational-Answers_example =
    operational-Answers ends process (c_string-AreBytes ends_codes (omega arith)) in_operational
      parameters-IsSettled (omega arith) empty-IsIdle (omega arith)

-- A SNACK request.
abbrev snack : Memory
snack = c_string (0x10 ∷ [])

abbrev full : Process
full = record process { session = record session { is_full_feature_phase = true } }

no_handler : unserved snack full ≡ true
unfolding iscsi_pdu_opcode
no_handler = refl

unserved-Rejected_example :
    (IsDropped full snack × (iscsi_server_process system snack full ≡ ok (pdu_ignore, full)))
    ⊎ ((after : Connection) × (s : Session) × (¬ IsDropped full snack)
        × (iscsi_server_process system snack full
            ≡ ok (0, record full { connection = after; session = s }))
        × Counted full snack (true, record full { session = s })
        × Answers full.connection after 48
            (RejectPdu full.connection (reason_of snack full) (λ _. 0) 0)
        × (after.stat_sn ≡ 8))
unserved-Rejected_example =
    unserved-Rejected system snack full refl refl no_handler (omega arith) empty-IsIdle
      (omega arith)

no_login : iscsi_pdu_opcode snack ≢ Opcode.login
unfolding iscsi_pdu_opcode
no_login = omega arith

before_login-Refused_example :
    (IsDropped process snack
      × (iscsi_server_process system snack process ≡ ok (pdu_ignore, process)))
    ⊎ ((after : Connection) × (s : Session) × (¬ IsDropped process snack)
        × (iscsi_server_process system snack process
            ≡ ok (48, record process { connection = after; session = s }))
        × Counted process snack (true, record process { session = s })
        × Answers process.connection after 48 (LoginRejectPdu 1)
        × (after.stat_sn ≡ 7))
before_login-Refused_example =
    before_login-Refused system snack process refl refl no_login empty-IsIdle (omega arith)
