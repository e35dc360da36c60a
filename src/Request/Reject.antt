-- ===== src/Request/Reject.antt =====
-- request/reject.c and request/reject.h: refusing a request.
pub mod Answer
use iscsi.Prelude.{◌^◌, ◌%◌, ℕ}
use iscsi.Prelude.Word.{add}
use iscsi.Prelude.Memory.{Memory, poke}
use iscsi.Prelude.Outcome.{Outcome, ok, ◌>>=◌}
use iscsi.Pdu.{
  basic_header_segment_length, default_initial_task_tag, iscsi_pdu_padded_length,
  iscsi_pdu_set_opcode, iscsi_pdu_set_final, iscsi_pdu_set_initiator_task_tag,
  iscsi_pdu_set_data_segment, iscsi_pdu_pad0,
}
use iscsi.Pdu.Opcode
use iscsi.State.{Connection, iscsi_pdu_set_response_header}
use iscsi.Response.{Writer, respond}

-- `enum REJECT_REASON`, the reasons that the program gives.
abbrev pub protocol_error : ℕ
protocol_error = 0x04

abbrev pub cmd_not_supported : ℕ
cmd_not_supported = 0x05

unfoldable pub reject_write : ℕ → Memory → ℕ → Writer
unfolding iscsi_pdu_set_opcode iscsi_pdu_set_final iscsi_pdu_set_initiator_task_tag
    iscsi_pdu_set_response_header iscsi_pdu_set_data_segment iscsi_pdu_pad0
reject_write reason source n buffer c =
    let buffer = iscsi_pdu_set_opcode buffer Opcode.reject in
    let buffer = iscsi_pdu_set_final buffer 1 in
    let (buffer, c) = iscsi_pdu_set_response_header buffer c in
    let buffer = poke buffer 2 (reason % 2 ^ 8) in
    let buffer = iscsi_pdu_set_initiator_task_tag buffer default_initial_task_tag in
    let buffer = iscsi_pdu_set_data_segment buffer source n in
    (iscsi_pdu_pad0 buffer (add basic_header_segment_length n), c)

-- The status is 0.
unfoldable pub iscsi_request_reject : Connection → ℕ → Memory → ℕ → Outcome (ℕ × Connection)
iscsi_request_reject c reason source n = do
  c ←
      respond c (iscsi_pdu_padded_length (add basic_header_segment_length n))
        (reject_write reason source n)
  ok (0, c)
