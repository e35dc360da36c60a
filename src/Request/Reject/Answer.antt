-- ===== src/Request/Reject/Answer.antt =====
-- request/reject.c: the fields of a reject.
use iscsi.Prelude.{◌%◌, ℕ, ◌+◌, ◌^◌, ◌<◌, ◌≤◌, ◌≡◌, refl, arith}
use iscsi.Prelude.Word.{add}
use iscsi.Prelude.Memory.{Memory, from}
use iscsi.Prelude.Outcome.{ok}
use iscsi.Byte.{iscsi_byte_byte2int}
use iscsi.Buffer.{iscsi_buffer_size}
use iscsi.Buffer.Contents.{IsIdle}
use iscsi.Pdu.{
  basic_header_segment_length, iscsi_pdu_opcode, iscsi_pdu_final, iscsi_pdu_length,
  iscsi_pdu_initiator_task_tag, iscsi_pdu_padded_length,
}
use iscsi.Pdu.Opcode
use iscsi.State.{Connection}
use iscsi.Response.Laws.{Advances, HasInts, Answers, answered, respond-Advances}
use iscsi.Request.Reject.{reject_write, iscsi_request_reject}

-- What a reject says.
pub record RejectPdu (c : Connection) (reason : ℕ) (source : Memory) (n : ℕ) (m : Memory)
    : Type 0 where
  pub opcode : iscsi_pdu_opcode m ≡ Opcode.reject
  pub final : iscsi_pdu_final m ≡ 1
  pub size : iscsi_pdu_length m ≡ iscsi_pdu_padded_length (48 + n)
  pub reason_given : m 2 ≡ reason % 2 ^ 8
  pub task : iscsi_pdu_initiator_task_tag m ≡ 0xffff_ffff
  pub stat_sn : iscsi_byte_byte2int (from m 24) ≡ c.stat_sn
  pub exp_cmd_sn : iscsi_byte_byte2int (from m 28) ≡ c.expected_cmd_sn
  pub header : (i : ℕ) → i < n → m (48 + i) ≡ source i

module _ (c : Connection) (reason : ℕ) (source : Memory) (n : ℕ) (small : n < 2 ^ 20) where
  write-RejectPdu :
      (m : Memory) (d : Connection)
      → HasInts c
      → ((i : ℕ) → i < iscsi_pdu_padded_length (48 + n) → m i ≡ 0)
      → d.stat_sn ≡ c.stat_sn
      → d.expected_cmd_sn ≡ c.expected_cmd_sn
      → RejectPdu c reason source n (reject_write reason source n m d).0
  unfolding reject_write iscsi_pdu_opcode iscsi_pdu_final iscsi_pdu_length
      iscsi_pdu_initiator_task_tag iscsi_byte_byte2int iscsi_pdu_padded_length
  write-RejectPdu m d (a, b) zeros sa sb = record {
    opcode = rw (zeros 0 (omega arith)) (ground arith);
    final = rw (zeros 1 (omega arith)) (ground arith);
    size = ground (arith, zeros 4);
    reason_given = ground arith;
    task = ground arith;
    stat_sn = ground arith;
    exp_cmd_sn = ground arith;
    header = λ i lt. ground arith;
  }

  reject-Advances : Advances (reject_write reason source n)
  unfolding reject_write
  reject-Advances m d = refl

  -- For fewer than 2 ^ 20 refused bytes, given int numbers and a response buffer at rest with room
  -- for the answer, `iscsi_request_reject` puts exactly one PDU behind the bytes that wait in the
  -- response buffer, and leaves the buffer at rest: a reject with the reason, whose data are the
  -- first `n` bytes of what was refused, and whose length, as it is read from its header, is that
  -- of the bytes that it takes. The status is 0, and the status number goes up by one.
  pub reject-Answers :
      HasInts c
      → IsIdle c.response_buffer
      → c.response_buffer.length + iscsi_pdu_padded_length (48 + n) ≤ iscsi_buffer_size
      → let size = iscsi_pdu_padded_length (48 + n) in
        let after = answered c size (reject_write reason source n) in
        (iscsi_request_reject c reason source n ≡ ok (0, after))
        × Answers c after size (RejectPdu c reason source n)
        × (after.stat_sn ≡ add c.stat_sn 1)
  unfolding iscsi_request_reject
  reject-Answers numbers v h =
      let size = iscsi_pdu_padded_length (48 + n) in
      let same : add basic_header_segment_length n ≡ 48 + n = omega arith in
      let (sent, answers, advanced) =
        respond-Advances c size (reject_write reason source n) (RejectPdu c reason source n)
          reject-Advances (λ m d zeros. write-RejectPdu m d numbers zeros) v h in
      (rw (same, sent) refl, answers, advanced)
