-- ===== src/Request/Logout.antt =====
-- request/logout.c and request/logout.h.
pub mod Answer
use iscsi.Prelude.{ℕ}
use iscsi.Prelude.Memory.{Memory, poke}
use iscsi.Prelude.Outcome.{Outcome, ok, ◌>>=◌}
use iscsi.Byte.{iscsi_byte_short2byte}
use iscsi.Pdu.{basic_header_segment_length, iscsi_pdu_set_opcode, iscsi_pdu_set_final}
use iscsi.Pdu.Opcode
use iscsi.State.{null, static, Connection, iscsi_pdu_set_response_header}
use iscsi.Response.{Writer, respond}
use iscsi.Request.Reject.{iscsi_request_reject, protocol_error}

abbrev pub logout_success : ℕ
logout_success = 0x00

unfoldable pub logout_write : Writer
unfolding iscsi_pdu_set_opcode iscsi_pdu_set_final iscsi_pdu_set_response_header
    iscsi_byte_short2byte
logout_write buffer c =
    let buffer = iscsi_pdu_set_opcode buffer Opcode.logout_res in
    let buffer = iscsi_pdu_set_final buffer 1 in
    let (buffer, c) = iscsi_pdu_set_response_header buffer c in
    let buffer = poke buffer 2 logout_success in
    let buffer = iscsi_byte_short2byte buffer 40 0 in (iscsi_byte_short2byte buffer 42 0, c)

unfoldable pub iscsi_request_logout_process : Memory → Connection → Outcome (ℕ × Connection)
iscsi_request_logout_process request c = elim c.session_reference [
  | null ↦ iscsi_request_reject c protocol_error request basic_header_segment_length
  | static ↦ do
    c ← respond c basic_header_segment_length logout_write
    ok (basic_header_segment_length, c)
]
