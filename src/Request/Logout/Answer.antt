-- ===== src/Request/Logout/Answer.antt =====
-- request/logout.c: the answer to a logout.
use iscsi.Prelude.{ℕ, ◌+◌, ◌≤◌, ◌<◌, ◌≡◌, refl, ap, ◌∙◌, arith}
use iscsi.Prelude.Word.{add}
use iscsi.Prelude.Memory.{Memory, from}
use iscsi.Prelude.Outcome.{ok, ◌>>=◌}
use iscsi.Byte.{iscsi_byte_byte2int}
use iscsi.Buffer.{iscsi_buffer_size}
use iscsi.Buffer.Contents.{IsIdle}
use iscsi.Pdu.{iscsi_pdu_opcode, iscsi_pdu_final, iscsi_pdu_length, iscsi_pdu_initiator_task_tag}
use iscsi.Pdu.Opcode
use iscsi.State.{static, Connection}
use iscsi.Response.{respond}
use iscsi.Response.Laws.{Advances, HasInts, Answers, answered, respond-Advances}
use iscsi.Request.Logout.{logout_write, logout_success, iscsi_request_logout_process}

-- What the answer to a logout says.
pub record LogoutResponsePdu (c : Connection) (m : Memory) : Type 0 where
  pub opcode : iscsi_pdu_opcode m ≡ Opcode.logout_res
  pub final : iscsi_pdu_final m ≡ 1
  pub size : iscsi_pdu_length m ≡ 48
  pub response : m 2 ≡ logout_success
  pub stat_sn : iscsi_byte_byte2int (from m 24) ≡ c.stat_sn
  pub exp_cmd_sn : iscsi_byte_byte2int (from m 28) ≡ c.expected_cmd_sn
  pub task : iscsi_pdu_initiator_task_tag m ≡ 0

write-LogoutResponsePdu :
    (c : Connection) (m : Memory) (d : Connection)
    → HasInts c
    → ((i : ℕ) → i < 48 → m i ≡ 0)
    → d.stat_sn ≡ c.stat_sn
    → d.expected_cmd_sn ≡ c.expected_cmd_sn
    → LogoutResponsePdu c (logout_write m d).0
unfolding logout_write iscsi_pdu_opcode iscsi_pdu_final iscsi_pdu_length
    iscsi_pdu_initiator_task_tag iscsi_byte_byte2int
write-LogoutResponsePdu c m d (a, b) zeros sa sb = record {
  opcode = rw (zeros 0 (omega arith)) refl;
  final = rw (zeros 1 (omega arith)) refl;
  size = ground (arith, zeros 4, zeros 5, zeros 6, zeros 7);
  response = refl;
  stat_sn = omega arith;
  exp_cmd_sn = omega arith;
  task = ground (arith, zeros 16, zeros 17, zeros 18, zeros 19);
}

logout-Advances : Advances logout_write
unfolding logout_write
logout-Advances m c = refl

with_session :
    (request : Memory) (c : Connection)
    → c.session_reference ≡ static
    → iscsi_request_logout_process request c ≡ (respond c 48 logout_write >>= λ d. ok (48, d))
unfolding iscsi_request_logout_process
with_session request c session = ground arith

-- With a session, int numbers, and a response buffer at rest with room for a header, a logout is
-- answered by exactly one PDU, put behind the bytes that wait in the response buffer: a logout
-- response of 48 bytes, with the code for success and the connection's numbers. Its task tag is 0,
-- whatever the tag of the request. The status is 48, the status number goes up by one, and the
-- buffer is at rest.
pub logout-Answers :
    (request : Memory) (c : Connection)
    → c.session_reference ≡ static
    → HasInts c
    → IsIdle c.response_buffer
    → c.response_buffer.length + 48 ≤ iscsi_buffer_size
    → let after = answered c 48 logout_write in
      (iscsi_request_logout_process request c ≡ ok (48, after))
      × Answers c after 48 (LogoutResponsePdu c)
      × (after.stat_sn ≡ add c.stat_sn 1)
logout-Answers request c session numbers v h =
    let (sent, answers, advanced) =
      respond-Advances c 48 logout_write (LogoutResponsePdu c) logout-Advances
        (λ m d zeros. write-LogoutResponsePdu c m d numbers zeros) v h in
    (with_session request c session ∙ ap (λ r. r >>= λ d. ok (48, d)) sent, answers, advanced)
