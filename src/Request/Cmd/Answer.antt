-- ===== src/Request/Cmd/Answer.antt =====
-- request/cmd.c: the answer with the status of a command and its sense data.
use iscsi.Prelude.{◌%◌, ℕ, ◌+◌, ◌*◌, ◌^◌, ◌≤◌, ◌<◌, ◌≡◌, refl, arith}
use iscsi.Prelude.Word.{add}
use iscsi.Prelude.Memory.{Memory, AreBytes, from}
use iscsi.Prelude.Outcome.{ok}
use iscsi.Byte.{iscsi_byte_byte2int}
use iscsi.Buffer.{iscsi_buffer_size}
use iscsi.Buffer.Contents.{IsIdle}
use iscsi.Pdu.{
  iscsi_pdu_opcode, iscsi_pdu_final, iscsi_pdu_length, iscsi_pdu_padded_length,
  iscsi_pdu_data_segment_length, iscsi_pdu_initiator_task_tag, iscsi_pdu_calc_size,
}
use iscsi.Pdu.Opcode
use iscsi.State.{Connection, Target}
use iscsi.Response.Laws.{Advances, HasInts, Answers, answered, respond-Advances}
use iscsi.Request.Cmd.{response_write, iscsi_request_cmd_send_response}

-- What the answer says of the device: its response and status, and as data the length of the sense
-- data and these.
pub record CmdPdu (target : Target) (request : Memory) (c : Connection) (m : Memory) : Type 0 where
  pub opcode : iscsi_pdu_opcode m ≡ Opcode.scsi_cmd_res
  pub final : iscsi_pdu_final m ≡ 1
  pub response : m 2 ≡ target.scsi_response % 2 ^ 8
  pub status : m 3 ≡ target.status % 2 ^ 8
  pub task : iscsi_pdu_initiator_task_tag m ≡ iscsi_pdu_initiator_task_tag request
  pub stat_sn : iscsi_byte_byte2int (from m 24) ≡ c.stat_sn
  pub exp_cmd_sn : iscsi_byte_byte2int (from m 28) ≡ c.expected_cmd_sn
  pub data_length : iscsi_pdu_data_segment_length m ≡ 2 + target.sb_len_wr
  pub size : iscsi_pdu_length m ≡ iscsi_pdu_padded_length (50 + target.sb_len_wr)
  pub sense_length : m 48 * 2 ^ 8 + m 49 ≡ target.sb_len_wr
  pub sense : (i : ℕ) → i < target.sb_len_wr → m (50 + i) ≡ target.sense_buffer i

response-Advances : (target : Target) (request : Memory) → Advances (response_write target request)
unfolding response_write
response-Advances target request m c = refl

write-CmdPdu :
    (target : Target) (request : Memory) (c : Connection) (m : Memory) (d : Connection)
    → AreBytes request
    → HasInts c
    → target.sb_len_wr < 256
    → ((i : ℕ) → i < 48 → m i ≡ 0)
    → d.stat_sn ≡ c.stat_sn
    → d.expected_cmd_sn ≡ c.expected_cmd_sn
    → CmdPdu target request c (response_write target request m d).0
unfolding response_write iscsi_pdu_opcode iscsi_pdu_final iscsi_pdu_length
    iscsi_pdu_initiator_task_tag iscsi_byte_byte2int iscsi_pdu_padded_length
    iscsi_pdu_data_segment_length
write-CmdPdu target request c m d bytes (a, b) small zeros sa sb = record {
  opcode = rw (zeros 0 (omega arith)) (ground arith);
  final = rw (zeros 1 (omega arith)) (ground arith);
  response = ground arith;
  status = ground arith;
  task = ground (arith, bytes 16, bytes 17, bytes 18, bytes 19);
  stat_sn = ground arith;
  exp_cmd_sn = ground arith;
  data_length = ground arith;
  size = ground (arith, zeros 4);
  sense_length = ground arith;
  sense = λ i lt. ground arith;
}

-- How long the answer is.
abbrev pub response_size : ℕ → ℕ
response_size n = iscsi_pdu_padded_length (50 + n)

pub response_size-bound : (n : ℕ) → n < 256 → response_size n ≤ 308
unfolding iscsi_pdu_padded_length
response_size-bound n small = omega arith

calc_size-eq :
    (n : ℕ) → n < 256 → (iscsi_pdu_calc_size 0 (add 2 n) ≡ response_size n) × (48 < response_size n)
unfolding iscsi_pdu_padded_length iscsi_pdu_calc_size
calc_size-eq n small = (omega arith, omega arith)

-- For sense data of fewer than 256 bytes, a request of bytes, numbers of the connection that are
-- ints, and a response buffer at rest with room, `iscsi_request_cmd_send_response` puts exactly one
-- PDU behind the bytes that wait and leaves the buffer at rest: a SCSI response with the task tag
-- of the request, the response and the status of the device, the connection's numbers, and as data
-- the length of the sense data and the sense data. The status number goes up by one.
pub send_response-Answers :
    (c : Connection) (target : Target) (request : Memory)
    → AreBytes request
    → HasInts c
    → target.sb_len_wr < 256
    → IsIdle c.response_buffer
    → c.response_buffer.length + response_size target.sb_len_wr ≤ iscsi_buffer_size
    → let size = response_size target.sb_len_wr in
      let after = answered c size (response_write target request) in
      (iscsi_request_cmd_send_response c target request ≡ ok after)
      × Answers c after size (CmdPdu target request c)
      × (after.stat_sn ≡ add c.stat_sn 1)
unfolding iscsi_request_cmd_send_response
send_response-Answers c target request are numbers small =
    let (same, long) = calc_size-eq target.sb_len_wr small in
    rw same (
      respond-Advances c (response_size target.sb_len_wr) (response_write target request)
        (CmdPdu target request c) (response-Advances target request)
        λ m d zeros.
          write-CmdPdu target request c m d are numbers small (λ i lt. zeros i (omega arith)))
