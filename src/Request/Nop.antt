-- ===== src/Request/Nop.antt =====
-- request/nop.c: answering a NOP-Out with its own data.
pub mod Answer
pub mod Waiting
use iscsi.Prelude.{ℕ, ◌-◌, Bool, not, ◌&&◌, ◌==◌, ltb, if◌then◌else◌}
use iscsi.Prelude.Word.{add, sub, is_negative}
use iscsi.Prelude.Memory.{Memory, memset}
use iscsi.Prelude.Outcome.{Outcome, ok, fault, out_of_bounds, ◌>>=◌}
use iscsi.Utility.{min}
use iscsi.Pdu.{
  basic_header_segment_length, iscsi_pdu_data, iscsi_pdu_data_segment_length,
  iscsi_pdu_initiator_task_tag, iscsi_pdu_target_transfer_tag, iscsi_pdu_set_opcode,
  iscsi_pdu_set_final, iscsi_pdu_set_initiator_task_tag, iscsi_pdu_set_target_transfer_tag,
  iscsi_pdu_set_data_segment, iscsi_pdu_pad0, pad_size,
}
use iscsi.Pdu.Opcode
use iscsi.State.{Connection, iscsi_pdu_set_response_header}
use iscsi.Response.{Writer, respond}

-- `total_length - BASIC_HEADER_SEGMENT_LENGTH - iscsi_pdu_data_segment_length(request)`
abbrev pub pad_from : Memory → ℕ → ℕ
pad_from request data_length =
    sub (sub (add basic_header_segment_length data_length) basic_header_segment_length)
      (iscsi_pdu_data_segment_length request)

unfoldable pub nop_write : Memory → ℕ → Writer
unfolding iscsi_pdu_set_opcode iscsi_pdu_set_final iscsi_pdu_set_initiator_task_tag
    iscsi_pdu_set_target_transfer_tag iscsi_pdu_set_response_header iscsi_pdu_set_data_segment
    iscsi_pdu_pad0
nop_write request data_length buffer c =
    let buffer = iscsi_pdu_set_opcode buffer Opcode.nop_in in
    let buffer = iscsi_pdu_set_final buffer 1 in
    let buffer = iscsi_pdu_set_initiator_task_tag buffer (iscsi_pdu_initiator_task_tag request) in
    let buffer = iscsi_pdu_set_target_transfer_tag buffer (iscsi_pdu_target_transfer_tag request) in
    let (buffer, c) = iscsi_pdu_set_response_header buffer c in
    let buffer = iscsi_pdu_set_data_segment buffer (iscsi_pdu_data request) data_length in
    let pad = pad_from request data_length in
    (if is_negative pad then buffer else iscsi_pdu_pad0 buffer pad, c)

-- The padding starts in front of the pointer and is not empty.
abbrev pub pads_in_front : ℕ → Bool
pads_in_front pad = is_negative pad && not (pad_size pad == 0)

-- `iscsi_pdu_pad0` with a negative length, in the array in which `used` bytes are in front of the
-- pointer: bytes of the answers that wait become zeros, or, where fewer wait, it writes in front of
-- the array.
unfoldable pub pad_waiting : ℕ → ℕ → Connection → Outcome Connection
pad_waiting pad used c =
    let back = sub 0 pad in
    let padded = record c.response_buffer {
      contents = memset c.response_buffer.contents (used - back) 0 (pad_size pad);
    } in
    if pads_in_front pad
    then (if ltb used back then fault out_of_bounds else ok (record c { response_buffer = padded }))
    else ok c

-- Where the length is negative, `memcpy` is given a size beyond every array.
unfoldable pub iscsi_request_nop_out_process : Memory → Connection → Outcome (ℕ × Connection)
unfolding pad_waiting
iscsi_request_nop_out_process request c =
    let data_length =
      min c.parameter.max_receive_data_segment_length (iscsi_pdu_data_segment_length request) in
    let total_length = add basic_header_segment_length data_length in
    if is_negative data_length then fault out_of_bounds else do
      sent ← respond c total_length (nop_write request data_length)
      padded ← pad_waiting (pad_from request data_length) c.response_buffer.length sent
      ok (total_length, padded)
