-- ===== src/Request/DataIn/Pieces.antt =====
-- request/data_in.c: the PDU of one round of the loop.
use iscsi.Prelude.{
  ℕ, ◌+◌, ◌≤◌, ◌<◌, ◌≡◌, ◌⊎◌, inl, inr, refl, arith, ◌^◌, ◌==◌, if◌then◌else◌, false,
}
use iscsi.Prelude.Word.{IsInt, add, sub, is_negative}
use iscsi.Prelude.Memory.{Memory, from}
use iscsi.Prelude.Outcome.{ok}
use iscsi.Byte.{iscsi_byte_byte2int, iscsi_byte_byte2bit, iscsi_byte_bit2byte}
use iscsi.Buffer.{iscsi_buffer_size}
use iscsi.Buffer.Contents.{IsIdle}
use iscsi.Utility.{min}
use iscsi.Pdu.{
  iscsi_pdu_opcode, iscsi_pdu_final, iscsi_pdu_length, iscsi_pdu_padded_length,
  iscsi_pdu_data_segment_length, iscsi_pdu_initiator_task_tag,
}
use iscsi.Pdu.Opcode
use iscsi.State.{Connection}
use iscsi.Response.Laws.{Advances, Answers, answered, respond-Advances}
use iscsi.Request.DataIn.{data_in_write, data_in_round}

-- What the PDU of a round says: `n` bytes of `source` from `offset` on, under the number `sn`.
pub record DataInPdu (tag : ℕ) (source : Memory) (sn offset n final : ℕ) (m : Memory) : Type 0 where
  pub opcode : iscsi_pdu_opcode m ≡ Opcode.scsi_data_in
  pub is_final : iscsi_pdu_final m ≡ final
  pub size : iscsi_pdu_length m ≡ iscsi_pdu_padded_length (48 + n)
  pub data_length : iscsi_pdu_data_segment_length m ≡ n
  pub task : iscsi_pdu_initiator_task_tag m ≡ tag
  pub data_sn : iscsi_byte_byte2int (from m 36) ≡ sn
  pub buffer_offset : iscsi_byte_byte2int (from m 40) ≡ offset
  pub segment : (i : ℕ) → i < n → m (48 + i) ≡ source (offset + i)

module _ (tag : ℕ) (source : Memory) (sn offset n final : ℕ) where
  data_in-Advances : Advances (data_in_write tag source sn offset n final)
  unfolding data_in_write
  data_in-Advances m c = refl

  write-DataInPdu :
      (m : Memory) (d : Connection)
      → IsInt tag
      → IsInt sn
      → IsInt offset
      → n < 2 ^ 23
      → (final ≡ 0) ⊎ (final ≡ 1)
      → ((i : ℕ) → i < iscsi_pdu_padded_length (48 + n) → m i ≡ 0)
      → DataInPdu tag source sn offset n final (data_in_write tag source sn offset n final m d).0
  unfolding data_in_write iscsi_pdu_opcode iscsi_pdu_final iscsi_pdu_length
      iscsi_pdu_initiator_task_tag iscsi_byte_byte2int iscsi_pdu_padded_length
      iscsi_pdu_data_segment_length iscsi_byte_byte2bit iscsi_byte_bit2byte
  write-DataInPdu m d a b e small bit zeros = record {
    opcode = rw (zeros 0 (omega arith)) (ground arith);
    is_final = elim bit [
      | inl z ↦ rw (z, zeros 1 (omega arith)) (ground arith)
      | inr o ↦ rw (o, zeros 1 (omega arith)) (ground arith)
    ];
    size = ground (arith, zeros 4);
    data_length = ground arith;
    task = ground arith;
    data_sn = ground arith;
    buffer_offset = ground arith;
    segment = λ i lt. ground arith;
  }

-- How much a round sends.
abbrev pub piece : ℕ → ℕ → ℕ → ℕ
piece expected largest offset = min (sub expected offset) largest

-- Whether the round is the last.
abbrev pub final_of : ℕ → ℕ → ℕ → ℕ
final_of expected offset n = if offset + n == expected then 1 else 0

pub piece_lem :
    (expected largest offset : ℕ)
    → 0 < largest
    → largest < 2 ^ 31
    → expected < 2 ^ 31
    → offset ≤ expected
    → let n = piece expected largest offset in
      (n ≤ largest)
      × (offset + n ≤ expected)
      × ((offset + n ≡ expected) ⊎ (n ≡ largest))
      × (add offset n ≡ offset + n)
      × (is_negative n ≡ false)
unfolding min
piece_lem expected largest offset positive small short inside =
    (ground arith, ground arith, ground arith, ground arith, ground arith)

final_bit :
    (expected offset n : ℕ) → (final_of expected offset n ≡ 0) ⊎ (final_of expected offset n ≡ 1)
final_bit expected offset n = ground arith

-- The answer of a round, with room for it.
pub round-Answers :
    (tag expected largest : ℕ) (source : Memory) (i offset n : ℕ) (c : Connection)
    → piece expected largest offset ≡ n
    → add offset n ≡ offset + n
    → is_negative n ≡ false
    → IsInt tag
    → IsInt i
    → IsInt offset
    → IsIdle c.response_buffer
    → c.response_buffer.length + iscsi_pdu_padded_length (48 + n) ≤ iscsi_buffer_size
    → n ≤ iscsi_pdu_padded_length (48 + n)
    → let final = final_of expected offset n in
      let size = iscsi_pdu_padded_length (48 + n) in
      let after = answered c size (data_in_write tag source i offset n final) in
      (data_in_round tag expected largest source i offset c ≡ ok after)
      × Answers c after size (DataInPdu tag source i offset n final)
unfolding data_in_round
round-Answers tag expected largest source i offset n c this sum natural a b e v room below =
    let final = final_of expected offset n in
    let size = iscsi_pdu_padded_length (48 + n) in
    let write = data_in_write tag source i offset n final in
    let total : add 48 n ≡ 48 + n = omega arith in
    let (sent, answers, advanced) =
      respond-Advances c size write (DataInPdu tag source i offset n final)
        (data_in-Advances tag source i offset n final)
        (λ m d zeros _ _.
          write-DataInPdu tag source i offset n final m d a b e (omega arith)
            (final_bit expected offset n) zeros)
        v room in
    (rw (this, sum, natural, total) sent, answers)
