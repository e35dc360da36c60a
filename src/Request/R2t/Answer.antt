-- ===== src/Request/R2t/Answer.antt =====
-- request/r2t.c: the fields of an R2T.
use iscsi.Prelude.{ℕ, ◌+◌, ◌<◌, ◌≤◌, ◌≡◌, refl, arith}
use iscsi.Prelude.Word.{IsInt, add}
use iscsi.Prelude.Memory.{Memory, from}
use iscsi.Prelude.Outcome.{ok}
use iscsi.Byte.{iscsi_byte_byte2int}
use iscsi.Buffer.{iscsi_buffer_size}
use iscsi.Buffer.Contents.{IsIdle}
use iscsi.Pdu.{
  iscsi_pdu_opcode, iscsi_pdu_final, iscsi_pdu_length, iscsi_pdu_initiator_task_tag,
  iscsi_pdu_target_transfer_tag,
}
use iscsi.Pdu.Opcode
use iscsi.State.{Connection}
use iscsi.Response.Laws.{Advances, HasInts, Answers, answered, respond-Advances}
use iscsi.Request.R2t.{r2t_write, iscsi_request_r2t_send}

-- What an R2T says.
pub record R2tPdu (c : Connection) (tag transfer_tag sn offset desired : ℕ) (m : Memory)
    : Type 0 where
  pub opcode : iscsi_pdu_opcode m ≡ Opcode.r2t
  pub final : iscsi_pdu_final m ≡ 1
  pub size : iscsi_pdu_length m ≡ 48
  pub task : iscsi_pdu_initiator_task_tag m ≡ tag
  pub transfer : iscsi_pdu_target_transfer_tag m ≡ transfer_tag
  pub stat_sn : iscsi_byte_byte2int (from m 24) ≡ c.stat_sn
  pub exp_cmd_sn : iscsi_byte_byte2int (from m 28) ≡ c.expected_cmd_sn
  pub r2t_sn : iscsi_byte_byte2int (from m 36) ≡ sn
  pub buffer_offset : iscsi_byte_byte2int (from m 40) ≡ offset
  pub desired_length : iscsi_byte_byte2int (from m 44) ≡ desired

module _ (c : Connection) (tag transfer_tag sn offset desired : ℕ) where
  abbrev pub AreInts : Type 0
  AreInts = IsInt tag × IsInt transfer_tag × IsInt sn × IsInt offset × IsInt desired

  write-R2tPdu :
      (m : Memory) (d : Connection)
      → HasInts c
      → AreInts
      → ((i : ℕ) → i < 48 → m i ≡ 0)
      → d.stat_sn ≡ c.stat_sn
      → d.expected_cmd_sn ≡ c.expected_cmd_sn
      → R2tPdu c tag transfer_tag sn offset desired
          (r2t_write tag transfer_tag sn offset desired m d).0
  unfolding r2t_write iscsi_pdu_opcode iscsi_pdu_final iscsi_pdu_length iscsi_pdu_initiator_task_tag
      iscsi_pdu_target_transfer_tag iscsi_byte_byte2int
  write-R2tPdu m d (a, b) (e, f, g, h, k) zeros sa sb = record {
    opcode = rw (zeros 0 (omega arith)) refl;
    final = rw (zeros 1 (omega arith)) refl;
    size = ground arith;
    task = omega arith;
    transfer = omega arith;
    stat_sn = omega arith;
    exp_cmd_sn = omega arith;
    r2t_sn = omega arith;
    buffer_offset = omega arith;
    desired_length = omega arith;
  }

r2t-Advances : (a b d e f : ℕ) → Advances (r2t_write a b d e f)
unfolding r2t_write
r2t-Advances a b d e f m c = refl

-- The command number of the connection stays.
pub r2t-keeps :
    (c : Connection) (a b d e f : ℕ)
    → (answered c 48 (r2t_write a b d e f)).expected_cmd_sn ≡ c.expected_cmd_sn
unfolding r2t_write
r2t-keeps c a b d e f = refl

-- Given ints, and a response buffer at rest with room for a header, `iscsi_request_r2t_send` puts
-- exactly one PDU behind the bytes that wait in the response buffer, and leaves the buffer at rest:
-- an R2T of 48 bytes with the tags, the number, the offset and the length that it is given and the
-- connection's numbers. The status number of the connection goes up by one.
pub r2t_send-Answers :
    (c : Connection) (tag transfer_tag sn offset desired : ℕ)
    → HasInts c
    → AreInts c tag transfer_tag sn offset desired
    → IsIdle c.response_buffer
    → c.response_buffer.length + 48 ≤ iscsi_buffer_size
    → let after = answered c 48 (r2t_write tag transfer_tag sn offset desired) in
      (iscsi_request_r2t_send c tag transfer_tag sn offset desired ≡ ok after)
      × Answers c after 48 (R2tPdu c tag transfer_tag sn offset desired)
      × (after.stat_sn ≡ add c.stat_sn 1)
unfolding iscsi_request_r2t_send
r2t_send-Answers c tag transfer_tag sn offset desired numbers ints =
    respond-Advances c 48 (r2t_write tag transfer_tag sn offset desired)
      (R2tPdu c tag transfer_tag sn offset desired)
      (r2t-Advances tag transfer_tag sn offset desired)
      λ m d zeros. write-R2tPdu c tag transfer_tag sn offset desired m d numbers ints zeros
