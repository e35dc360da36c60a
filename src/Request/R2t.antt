-- ===== src/Request/R2t.antt =====
-- request/r2t.c: asking the initiator for the data of a write.
pub mod Answer
use iscsi.Prelude.{ℕ}
use iscsi.Prelude.Outcome.{Outcome}
use iscsi.Byte.{iscsi_byte_int2byte}
use iscsi.Pdu.{
  basic_header_segment_length, iscsi_pdu_set_opcode, iscsi_pdu_set_final, iscsi_pdu_set_ahs_length,
  iscsi_pdu_set_data_segment_length, iscsi_pdu_set_initiator_task_tag,
  iscsi_pdu_set_target_transfer_tag,
}
use iscsi.Pdu.Opcode
use iscsi.State.{Connection, iscsi_pdu_set_response_header}
use iscsi.Response.{Writer, respond}

-- `iscsi_pdu_r2t_set_r2t_sn`, `…_buffer_offset` and `…_desired_data_transfer_length`
unfoldable pub r2t_write : ℕ → ℕ → ℕ → ℕ → ℕ → Writer
unfolding iscsi_pdu_set_opcode iscsi_pdu_set_final iscsi_pdu_set_ahs_length
    iscsi_pdu_set_data_segment_length iscsi_pdu_set_initiator_task_tag
    iscsi_pdu_set_target_transfer_tag iscsi_pdu_set_response_header iscsi_byte_int2byte
r2t_write initiator_task_tag target_transfer_tag r2t_sn offset desired buffer c =
    let buffer = iscsi_pdu_set_opcode buffer Opcode.r2t in
    let buffer = iscsi_pdu_set_final buffer 1 in
    let buffer = iscsi_pdu_set_ahs_length buffer 0 in
    let buffer = iscsi_pdu_set_data_segment_length buffer 0 in
    let buffer = iscsi_pdu_set_initiator_task_tag buffer initiator_task_tag in
    let buffer = iscsi_pdu_set_target_transfer_tag buffer target_transfer_tag in
    let (buffer, c) = iscsi_pdu_set_response_header buffer c in
    let buffer = iscsi_byte_int2byte buffer 36 r2t_sn in
    let buffer = iscsi_byte_int2byte buffer 40 offset in (iscsi_byte_int2byte buffer 44 desired, c)

unfoldable pub iscsi_request_r2t_send : Connection → ℕ → ℕ → ℕ → ℕ → ℕ → Outcome Connection
iscsi_request_r2t_send c initiator_task_tag target_transfer_tag r2t_sn offset desired =
    respond c basic_header_segment_length
      (r2t_write initiator_task_tag target_transfer_tag r2t_sn offset desired)
