-- ===== src/Request/Text.antt =====
-- request/text.c: the discovery of targets.
pub mod Answer
use iscsi.Prelude.{ℕ, ◌+◌, ◌==◌, none, some, List, length, if◌then◌else◌}
use iscsi.Prelude.Memory.{Memory, memcpy, c_string}
use iscsi.Prelude.Text.{codes}
use iscsi.Prelude.Outcome.{Outcome, ok, fault, null_pointer, ◌>>=◌}
use iscsi.Byte.{iscsi_byte_byte2bit}
use iscsi.Pdu.{
  basic_header_segment_length, iscsi_pdu_data, iscsi_pdu_data_segment_length,
  iscsi_pdu_padded_length, iscsi_pdu_generate_from_buffer, iscsi_pdu_set_opcode,
  iscsi_pdu_set_final, iscsi_pdu_set_data_segment_length, iscsi_pdu_pad0,
}
use iscsi.Pdu.Opcode
use iscsi.State.{null, static, Connection}
use iscsi.Parameter.Lookup.{iscsi_parameter_get}
use iscsi.Response.{Writer, respond}

unfoldable pub iscsi_pdu_text_continue : Memory → ℕ
iscsi_pdu_text_continue buffer = iscsi_byte_byte2bit (buffer 2) 1

-- `"TargetName="ISCSI_TARGET_IQN`
abbrev pub response_text : List ℕ
response_text = codes "TargetName=iqn.2019-10.chula.ac.th:iscsi-disk.sn.12345"

-- `STRLEN` counts the NUL.
abbrev pub text_length : ℕ
text_length = length response_text + 1

unfoldable pub continue_write : Memory → Writer
unfolding iscsi_pdu_set_opcode iscsi_pdu_set_final iscsi_pdu_generate_from_buffer
continue_write request buffer c =
    let buffer = iscsi_pdu_generate_from_buffer buffer request in
    let buffer = iscsi_pdu_set_opcode buffer Opcode.text_res in (iscsi_pdu_set_final buffer 1, c)

unfoldable pub targets_write : Memory → Writer
unfolding iscsi_pdu_set_opcode iscsi_pdu_set_final iscsi_pdu_set_data_segment_length iscsi_pdu_pad0
    iscsi_pdu_generate_from_buffer
targets_write request buffer c =
    let buffer = iscsi_pdu_generate_from_buffer buffer request in
    let buffer = iscsi_pdu_set_opcode buffer Opcode.text_res in
    let buffer = iscsi_pdu_set_final buffer 1 in
    let buffer = iscsi_pdu_set_data_segment_length buffer text_length in
    let buffer = memcpy buffer basic_header_segment_length (c_string response_text) text_length in
    (iscsi_pdu_pad0 buffer (basic_header_segment_length + text_length), c)

-- The two branches at the end read `session->is_discovery` and answer nothing: the first is empty,
-- and the `length` of the second is always 0.
unfoldable pub iscsi_request_text_process : Memory → Connection → Outcome (ℕ × Connection)
iscsi_request_text_process request c =
    let padded_length = iscsi_pdu_padded_length (basic_header_segment_length + text_length) in
    if iscsi_pdu_text_continue request == 0
    then (elim (iscsi_parameter_get (iscsi_pdu_data request) (iscsi_pdu_data_segment_length request)
        (codes "SendTargets")) [
          | some _ ↦
              (respond c padded_length (targets_write request) >>= λ c. ok (padded_length, c))
          | none ↦ elim c.session_reference [ null ↦ fault null_pointer | static ↦ ok (0, c) ]
        ])
    else (respond c basic_header_segment_length (continue_write request) >>= λ c.
        ok (basic_header_segment_length, c))
