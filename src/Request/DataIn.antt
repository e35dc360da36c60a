-- ===== src/Request/DataIn.antt =====
-- request/data_in.c: sending the data of a read.
pub mod Pieces
pub mod Stream
use iscsi.Prelude.{ℕ, zero, suc, true, false, ◌==◌, if◌then◌else◌}
use iscsi.Prelude.Word.{add, sub, slt, is_negative}
use iscsi.Prelude.Memory.{Memory, from, poke}
use iscsi.Prelude.Outcome.{Outcome, ok, fault, out_of_bounds, unending, ◌>>=◌}
use iscsi.Byte.{iscsi_byte_bit2byte, iscsi_byte_int2byte}
use iscsi.Utility.{min, divide_round_up}
use iscsi.Pdu.{
  basic_header_segment_length, default_target_transfer_tag, iscsi_pdu_padded_length,
  iscsi_pdu_set_opcode, iscsi_pdu_set_final, iscsi_pdu_set_initiator_task_tag,
  iscsi_pdu_set_target_transfer_tag, iscsi_pdu_set_data_segment, iscsi_pdu_pad0,
}
use iscsi.Pdu.Opcode
use iscsi.State.{Connection, iscsi_pdu_set_response_header}
use iscsi.Response.{Writer, respond}

unfoldable pub iscsi_request_data_in_set_status : Memory → ℕ → Memory
unfolding iscsi_byte_bit2byte
iscsi_request_data_in_set_status buffer status = poke (iscsi_byte_bit2byte buffer 1 7 1) 3 status

unfoldable pub iscsi_request_data_in_set_acknowledge : Memory → ℕ → Memory
unfolding iscsi_byte_bit2byte
iscsi_request_data_in_set_acknowledge buffer acknowledge =
    iscsi_byte_bit2byte buffer 1 1 acknowledge

-- The PDU of round `i`: `data_length` bytes of `source` from `offset` on.
unfoldable pub data_in_write : ℕ → Memory → ℕ → ℕ → ℕ → ℕ → Writer
unfolding iscsi_request_data_in_set_status iscsi_request_data_in_set_acknowledge
    iscsi_pdu_set_opcode iscsi_pdu_set_final iscsi_pdu_set_initiator_task_tag
    iscsi_pdu_set_target_transfer_tag iscsi_pdu_set_response_header iscsi_byte_int2byte
    iscsi_pdu_set_data_segment iscsi_pdu_pad0
data_in_write initiator_task_tag source i offset data_length final buffer c =
    let buffer = iscsi_pdu_set_opcode buffer Opcode.scsi_data_in in
    let buffer = iscsi_pdu_set_final buffer final in
    let buffer = iscsi_request_data_in_set_acknowledge buffer 0 in
    let buffer = iscsi_request_data_in_set_status buffer 0 in
    let buffer = iscsi_pdu_set_initiator_task_tag buffer initiator_task_tag in
    let buffer = iscsi_pdu_set_target_transfer_tag buffer default_target_transfer_tag in
    let (buffer, c) = iscsi_pdu_set_response_header buffer c in
    let buffer = iscsi_byte_int2byte buffer 36 i in
    let buffer = iscsi_byte_int2byte buffer 40 offset in
    let buffer = iscsi_pdu_set_data_segment buffer (from source offset) data_length in
    (iscsi_pdu_pad0 buffer (add basic_header_segment_length data_length), c)

-- One round: what it sends, and the connection behind it. A negative length makes `memcpy` run
-- beyond every array.
unfoldable pub data_in_round : ℕ → ℕ → ℕ → Memory → ℕ → ℕ → Connection → Outcome Connection
data_in_round initiator_task_tag expected max_receive source i offset c =
    let data_length = min (sub expected offset) max_receive in
    let final : ℕ = if add offset data_length == expected then 1 else 0 in
    let total_length = iscsi_pdu_padded_length (add basic_header_segment_length data_length) in
    if is_negative data_length
    then fault out_of_bounds
    else respond c total_length (data_in_write initiator_task_tag source i offset data_length final)

-- `for (int i = 0; i == 0 || offset < expected; ++i)`, from the body of round `i` on.
unfoldable pub data_in_loop : ℕ → ℕ → ℕ → ℕ → Memory → ℕ → ℕ → Connection → Outcome Connection
data_in_loop zero initiator_task_tag expected max_receive source i offset c = fault unending
data_in_loop (suc fuel) initiator_task_tag expected max_receive source i offset c =
    let next = add offset (min (sub expected offset) max_receive) in
    data_in_round initiator_task_tag expected max_receive source i offset c >>= λ after.
    elim (slt next expected) [
      | true ↦ data_in_loop fuel initiator_task_tag expected max_receive source (add i 1) next after
      | false ↦ ok after
    ]

-- The number of PDUs is computed, and not used; but the division by 0 is a fault. Each round sends
-- a byte at least, so `expected + 1` rounds are enough (`DataIn.Stream`).
unfoldable pub iscsi_request_data_in_send : Connection → ℕ → ℕ → Memory → Outcome Connection
iscsi_request_data_in_send c initiator_task_tag expected source =
    let max_receive = c.parameter.max_receive_data_segment_length in
    divide_round_up expected max_receive >>= λ _.
    data_in_loop (suc expected) initiator_task_tag expected max_receive source 0 0 c
