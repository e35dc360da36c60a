-- ===== src/Request/Text/Answer.antt =====
-- request/text.c: the answers to a text request.
use iscsi.Prelude.{ℕ, ◌+◌, ◌≤◌, ◌<◌, ◌≡◌, ◌≢◌, refl, ap, ◌∙◌, arith, some, get_or}
use iscsi.Prelude.Text.{codes}
use iscsi.Prelude.Memory.{Memory, AreBytes, c_string, memcpy, memcpy-inside}
use iscsi.Prelude.Outcome.{ok, ◌>>=◌}
use iscsi.Buffer.{iscsi_buffer_size}
use iscsi.Buffer.Contents.{IsIdle}
use iscsi.Pdu.{
  iscsi_pdu_opcode, iscsi_pdu_final, iscsi_pdu_length, iscsi_pdu_calc_size, iscsi_pdu_data,
  iscsi_pdu_data_segment_length, iscsi_pdu_padded_length, iscsi_pdu_set_opcode, iscsi_pdu_set_final,
  iscsi_pdu_set_data_segment_length, iscsi_pdu_generate_from_buffer,
}
use iscsi.Pdu.Fields.{opcode-set_opcode, final-set_final}
use iscsi.Pdu.Length.{pad0_below}
use iscsi.Pdu.Opcode
use iscsi.State.{Connection}
use iscsi.Parameter.Lookup.{iscsi_parameter_get}
use iscsi.Response.{respond}
use iscsi.Response.Laws.{KeepsBuffer, Answers, answered, respond-Answers}
use iscsi.Request.Text.{
  iscsi_pdu_text_continue, response_text, text_length, continue_write, targets_write,
  iscsi_request_text_process,
}

-- What the answer to a text request that goes on says: the header of the request but for two bytes.
pub record ContinuePdu (request m : Memory) : Type 0 where
  pub opcode : iscsi_pdu_opcode m ≡ Opcode.text_res
  pub final : iscsi_pdu_final m ≡ 1
  pub size : iscsi_pdu_length m ≡ iscsi_pdu_length request
  pub header : (i : ℕ) → 2 ≤ i → i < 48 → m i ≡ request i

write-ContinuePdu :
    (request m : Memory) (c : Connection)
    → AreBytes request
    → ContinuePdu request (continue_write request m c).0
unfolding continue_write iscsi_pdu_length iscsi_pdu_opcode iscsi_pdu_final
write-ContinuePdu request m c bytes = record {
  opcode = (opcode-set_opcode request Opcode.text_res 0 bytes (omega arith)).0;
  final = final-set_final request 1 bytes;
  size = refl;
  header = λ i lo hi. ground arith;
}

continue-KeepsBuffer : (request : Memory) → KeepsBuffer (continue_write request)
unfolding continue_write
continue-KeepsBuffer request m c = refl

continue_runs :
    (request : Memory) (c : Connection)
    → iscsi_pdu_text_continue request ≢ 0
    → iscsi_request_text_process request c
      ≡ (respond c 48 (continue_write request) >>= λ d. ok (48, d))
unfolding iscsi_request_text_process
continue_runs request c more = ground arith

-- A text request of bytes with the continue bit, given a response buffer at rest with room for a
-- header, is answered by 48 bytes behind those that wait: a text
-- response with the header of the request. So the length that the answer states is that of the
-- request, data segment included, though only the header is sent.
pub continue-Answers :
    (request : Memory) (c : Connection)
    → AreBytes request
    → iscsi_pdu_text_continue request ≢ 0
    → IsIdle c.response_buffer
    → c.response_buffer.length + 48 ≤ iscsi_buffer_size
    → let after = answered c 48 (continue_write request) in
      (iscsi_request_text_process request c ≡ ok (48, after))
      × Answers c after 48 (ContinuePdu request)
continue-Answers request c bytes more v h =
    let (sent, answers) =
      respond-Answers c 48 (continue_write request) (ContinuePdu request)
        (continue-KeepsBuffer request) (λ m d _ _ _. write-ContinuePdu request m d bytes) v h in
    (continue_runs request c more ∙ ap (λ r. r >>= λ d. ok (48, d)) sent, answers)

-- What the answer to SendTargets says.
pub record TargetsPdu (request m : Memory) : Type 0 where
  pub opcode : iscsi_pdu_opcode m ≡ Opcode.text_res
  pub final : iscsi_pdu_final m ≡ 1
  pub size : iscsi_pdu_length m ≡ iscsi_pdu_calc_size (request 4) text_length
  pub text : (i : ℕ) → i < text_length → m (48 + i) ≡ get_or response_text i 0

write-TargetsPdu :
    (request m : Memory) (c : Connection)
    → AreBytes request
    → TargetsPdu request (targets_write request m c).0
unfolding targets_write iscsi_pdu_length iscsi_pdu_opcode iscsi_pdu_final
write-TargetsPdu request m c bytes = record {
  opcode = (opcode-set_opcode request Opcode.text_res 0 bytes (omega arith)).0;
  final = final-set_final request 1 bytes;
  size = refl;
  text = λ i lt.
      let answer =
        iscsi_pdu_set_opcode (iscsi_pdu_generate_from_buffer m request) Opcode.text_res in
      let head = iscsi_pdu_set_data_segment_length (iscsi_pdu_set_final answer 1) text_length in
      pad0_below (memcpy head 48 (c_string response_text) text_length) (48 + text_length) (48 + i)
        (omega arith) (omega arith)
      ∙ memcpy-inside head 48 (c_string response_text) text_length i lt;
}

targets-KeepsBuffer : (request : Memory) → KeepsBuffer (targets_write request)
unfolding targets_write
targets-KeepsBuffer request m c = refl

-- The bytes that the answer takes.
abbrev pub targets_size : ℕ
targets_size = iscsi_pdu_padded_length (48 + text_length)

targets_runs :
    (request : Memory) (c : Connection) {place : ℕ}
    → iscsi_pdu_text_continue request ≡ 0
    → iscsi_parameter_get
        (iscsi_pdu_data request)
        (iscsi_pdu_data_segment_length request)
        (codes "SendTargets")
      ≡ some place
    → iscsi_request_text_process request c
      ≡ (respond c targets_size (targets_write request) >>= λ d. ok (targets_size, d))
unfolding iscsi_request_text_process
targets_runs request c last found = rw (last, found) refl

-- The last PDU of a text request of bytes that holds the key SendTargets, given a response buffer
-- at rest with room for the answer, is answered by one PDU behind those that wait: a text response
-- whose data is the name of the one target, with its NUL. The length that it states is that of the
-- bytes that it takes, if the request has no additional header.
pub targets-Answers :
    (request : Memory) (c : Connection) (place : ℕ)
    → AreBytes request
    → iscsi_pdu_text_continue request ≡ 0
    → iscsi_parameter_get
        (iscsi_pdu_data request)
        (iscsi_pdu_data_segment_length request)
        (codes "SendTargets")
      ≡ some place
    → IsIdle c.response_buffer
    → c.response_buffer.length + targets_size ≤ iscsi_buffer_size
    → let after = answered c targets_size (targets_write request) in
      (iscsi_request_text_process request c ≡ ok (targets_size, after))
      × Answers c after targets_size (TargetsPdu request)
      × (iscsi_pdu_calc_size 0 text_length ≡ targets_size)
unfolding iscsi_pdu_calc_size iscsi_pdu_padded_length
targets-Answers request c place bytes last found v h =
    let (sent, answers) =
      respond-Answers c targets_size (targets_write request) (TargetsPdu request)
        (targets-KeepsBuffer request) (λ m d _ _ _. write-TargetsPdu request m d bytes) v h in
    (
      targets_runs request c last found ∙ ap (λ r. r >>= λ d. ok (targets_size, d)) sent,
      answers,
      refl,
    )
