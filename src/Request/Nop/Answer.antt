-- ===== src/Request/Nop/Answer.antt =====
-- request/nop.c: the answer to a NOP-Out.
use iscsi.Prelude.{ℕ, ◌+◌, ◌^◌, ◌≤◌, ◌<◌, ◌≡◌, refl, ap, ◌∙◌, arith, false}
use iscsi.Prelude.Word.{add, is_negative}
use iscsi.Prelude.Memory.{Memory, AreBytes, from}
use iscsi.Prelude.Outcome.{ok, ◌>>=◌}
use iscsi.Byte.{iscsi_byte_byte2int}
use iscsi.Utility.{min}
use iscsi.Buffer.{iscsi_buffer_size}
use iscsi.Buffer.Contents.{IsIdle}
use iscsi.Pdu.{
  iscsi_pdu_opcode, iscsi_pdu_final, iscsi_pdu_length, iscsi_pdu_padded_length,
  iscsi_pdu_data_segment_length, iscsi_pdu_initiator_task_tag, iscsi_pdu_target_transfer_tag,
}
use iscsi.Pdu.Opcode
use iscsi.State.{Connection}
use iscsi.Response.{respond}
use iscsi.Response.Laws.{Advances, HasInts, Answers, answered, respond-Advances}
use iscsi.Request.Nop.{nop_write, pad_from, pad_waiting, iscsi_request_nop_out_process}

-- What the answer to a NOP-Out with `n` bytes of data says.
pub record NopInPdu (request : Memory) (c : Connection) (n : ℕ) (m : Memory) : Type 0 where
  pub opcode : iscsi_pdu_opcode m ≡ Opcode.nop_in
  pub final : iscsi_pdu_final m ≡ 1
  pub size : iscsi_pdu_length m ≡ iscsi_pdu_padded_length (48 + n)
  pub task : iscsi_pdu_initiator_task_tag m ≡ iscsi_pdu_initiator_task_tag request
  pub transfer : iscsi_pdu_target_transfer_tag m ≡ iscsi_pdu_target_transfer_tag request
  pub stat_sn : iscsi_byte_byte2int (from m 24) ≡ c.stat_sn
  pub exp_cmd_sn : iscsi_byte_byte2int (from m 28) ≡ c.expected_cmd_sn
  pub echo : (i : ℕ) → i < n → m (48 + i) ≡ request (48 + i)

-- Where all data is sent back there is nothing to pad.
pad_nothing :
    (request : Memory) (n : ℕ)
    → n < 2 ^ 24
    → iscsi_pdu_data_segment_length request ≡ n
    → pad_from request n ≡ 0
pad_nothing request n h e = omega arith

pub nop-Advances : (request : Memory) (n : ℕ) → Advances (nop_write request n)
unfolding nop_write
nop-Advances request n m c = refl

-- The tags of a request of bytes are read back from the answer.
write-NopInPdu :
    (request : Memory) (c : Connection) (n : ℕ) (m : Memory) (d : Connection)
    → AreBytes request
    → HasInts c
    → n < 2 ^ 20
    → iscsi_pdu_data_segment_length request ≡ n
    → ((i : ℕ) → i < 48 + n → m i ≡ 0)
    → d.stat_sn ≡ c.stat_sn
    → d.expected_cmd_sn ≡ c.expected_cmd_sn
    → NopInPdu request c n (nop_write request n m d).0
unfolding nop_write iscsi_pdu_opcode iscsi_pdu_final iscsi_pdu_length iscsi_pdu_initiator_task_tag
    iscsi_pdu_target_transfer_tag iscsi_byte_byte2int iscsi_pdu_padded_length
write-NopInPdu request c n m d bytes (a, b) small e zeros sa sb =
    let none = pad_nothing request n (omega arith) e in
    rw none record {
      opcode = rw (zeros 0 (omega arith)) refl;
      final = rw (zeros 1 (omega arith)) refl;
      size = ground (arith, zeros 4);
      task = omega (arith, bytes 16, bytes 17, bytes 18, bytes 19);
      transfer = omega (arith, bytes 20, bytes 21, bytes 22, bytes 23);
      stat_sn = omega arith;
      exp_cmd_sn = omega arith;
      echo = λ i lt. ground arith;
    }

-- Data that the initiator may send is sent back whole.
all_data :
    (max_receive n : ℕ)
    → max_receive < 2 ^ 31
    → n < 2 ^ 20
    → n ≤ max_receive
    → min max_receive n ≡ n
unfolding min
all_data max_receive n positive small h = ground arith

nothing_to_refuse : (n : ℕ) → n < 2 ^ 20 → is_negative n ≡ false
nothing_to_refuse n small = ground arith

pad_waiting_nothing : (used : ℕ) (c : Connection) → pad_waiting 0 used c ≡ ok c
unfolding pad_waiting
pad_waiting_nothing used c = refl

nop_runs :
    (request : Memory) (c : Connection) (n : ℕ)
    → iscsi_pdu_data_segment_length request ≡ n
    → c.parameter.max_receive_data_segment_length < 2 ^ 31
    → n ≤ c.parameter.max_receive_data_segment_length
    → n < 2 ^ 20
    → iscsi_request_nop_out_process request c
      ≡ (respond c (48 + n) (nop_write request n) >>= λ d. ok (48 + n, d))
unfolding iscsi_request_nop_out_process
nop_runs request c n e positive fits small =
    let total : add 48 n ≡ 48 + n = omega arith in
    let none = pad_nothing request n (omega arith) e in
    let whole : min c.parameter.max_receive_data_segment_length
          (iscsi_pdu_data_segment_length request)
        ≡ n =
      rw e (all_data c.parameter.max_receive_data_segment_length n positive small fits) in
    rw (whole, none, nothing_to_refuse n small, total)
      (ap (λ f. respond c (48 + n) (nop_write request n) >>= f)
        (λ i d.
          (pad_waiting_nothing c.response_buffer.length d i) >>= λ padded. ok (48 + n, padded)))

-- A NOP-Out of bytes with `n` bytes of data, fewer than 2 ^ 20 and not more than the negotiated
-- segment, which is not a negative `int`, given int numbers and a response buffer at rest with room
-- for the answer, is answered by exactly one PDU, put
-- behind the bytes that wait in the response buffer: a NOP-In with the tags and the data of the
-- request and the connection's numbers. The status is the 48 + n bytes that the answer takes; what
-- the answer says of its own length is that number padded to a multiple of four. The status number
-- goes up by one, and the buffer is at rest.
pub nop-Answers :
    (request : Memory) (c : Connection) (n : ℕ)
    → iscsi_pdu_data_segment_length request ≡ n
    → AreBytes request
    → HasInts c
    → c.parameter.max_receive_data_segment_length < 2 ^ 31
    → n ≤ c.parameter.max_receive_data_segment_length
    → n < 2 ^ 20
    → IsIdle c.response_buffer
    → c.response_buffer.length + (48 + n) ≤ iscsi_buffer_size
    → let after = answered c (48 + n) (nop_write request n) in
      (iscsi_request_nop_out_process request c ≡ ok (48 + n, after))
      × Answers c after (48 + n) (NopInPdu request c n)
      × (after.stat_sn ≡ add c.stat_sn 1)
nop-Answers request c n e bytes numbers positive fits small v h =
    let (sent, answers, advanced) =
      respond-Advances c (48 + n) (nop_write request n) (NopInPdu request c n)
        (nop-Advances request n)
        (λ m d zeros. write-NopInPdu request c n m d bytes numbers small e zeros) v h in
    (
      nop_runs request c n e positive fits small ∙ ap (λ r. r >>= λ d. ok (48 + n, d)) sent,
      answers,
      advanced,
    )
