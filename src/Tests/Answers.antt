-- ===== src/Tests/Answers.antt =====
-- The answers at concrete requests.
use iscsi.Prelude.{ℕ, zero, suc, ◌+◌, ◌≡◌, ◌≢◌, refl, arith, [], ◌∷◌, List}
use iscsi.Prelude.Word.{add}
use iscsi.Prelude.Memory.{Memory, c_string}
use iscsi.Prelude.Text.{codes}
use iscsi.Prelude.Outcome.{ok}
use iscsi.Pdu.{iscsi_pdu_padded_length, iscsi_pdu_calc_size, iscsi_pdu_data_segment_length}
use iscsi.Byte.{iscsi_byte_byte2bit}
use iscsi.Response.Laws.{Answers, answered}
use iscsi.Request.R2t.{r2t_write, iscsi_request_r2t_send}
use iscsi.Request.R2t.Answer.{R2tPdu, r2t_send-Answers}
use iscsi.Request.Reject.{reject_write, iscsi_request_reject, protocol_error}
use iscsi.Request.Reject.Answer.{RejectPdu, reject-Answers}
use iscsi.Request.Logout.{logout_write, iscsi_request_logout_process}
use iscsi.Request.Logout.Answer.{LogoutResponsePdu, logout-Answers}
use iscsi.Request.Nop.{nop_write, iscsi_request_nop_out_process}
use iscsi.Request.Nop.Answer.{NopInPdu, nop-Answers}
use iscsi.Request.Text.{
  iscsi_pdu_text_continue, text_length, continue_write, targets_write, iscsi_request_text_process,
}
use iscsi.Request.Text.Answer.{
  ContinuePdu, TargetsPdu, targets_size, continue-Answers, targets-Answers,
}
use iscsi.Parameter.Lookup.{iscsi_parameter_get, get_loop}
use iscsi.State.{Connection}
use iscsi.Tests.Samples.{
  blank, empty_buffer, parameters, c_string-AreBytes, connection, empty-IsIdle,
}

r2t_send-Answers_example :
    let after = answered connection 48 (r2t_write 11 5 0 0 4096) in
    (iscsi_request_r2t_send connection 11 5 0 0 4096 ≡ ok after)
    × Answers connection after 48 (R2tPdu connection 11 5 0 0 4096)
    × (after.stat_sn ≡ add 7 1)
r2t_send-Answers_example =
    r2t_send-Answers connection 11 5 0 0 4096 (omega arith) (omega arith) empty-IsIdle (omega arith)

padded_51 : iscsi_pdu_padded_length (48 + 3) ≡ 52
unfolding iscsi_pdu_padded_length
padded_51 = refl

reject-Answers_example :
    let size = iscsi_pdu_padded_length (48 + 3) in
    let after = answered connection size (reject_write protocol_error blank 3) in
    (iscsi_request_reject connection protocol_error blank 3 ≡ ok (0, after))
    × Answers connection after size (RejectPdu connection protocol_error blank 3)
    × (after.stat_sn ≡ add 7 1)
reject-Answers_example =
    reject-Answers connection protocol_error blank 3 (omega arith) (omega arith) empty-IsIdle
      (omega (arith, padded_51))

logout-Answers_example :
    let after = answered connection 48 logout_write in
    (iscsi_request_logout_process (c_string (0x46 ∷ [])) connection ≡ ok (48, after))
    × Answers connection after 48 (LogoutResponsePdu connection)
    × (after.stat_sn ≡ add 7 1)
logout-Answers_example =
    logout-Answers (c_string (0x46 ∷ [])) connection refl (omega arith) empty-IsIdle (omega arith)

-- A NOP-Out with five bytes of data.
abbrev five_bytes : List ℕ
five_bytes = 0x40 ∷ 0x80 ∷ 0 ∷ 0 ∷ 0 ∷ 0 ∷ 0 ∷ 5 ∷ []

nop-Answers_example :
    let after = answered connection (48 + 5) (nop_write (c_string five_bytes) 5) in
    (iscsi_request_nop_out_process (c_string five_bytes) connection ≡ ok (48 + 5, after))
    × Answers connection after (48 + 5) (NopInPdu (c_string five_bytes) connection 5)
    × (after.stat_sn ≡ add 7 1)
unfolding iscsi_pdu_data_segment_length
nop-Answers_example =
    nop-Answers (c_string five_bytes) connection 5 refl (c_string-AreBytes five_bytes (omega arith))
      (omega arith) (omega arith) (omega arith) (omega arith) empty-IsIdle (omega arith)

-- 13 bytes of data, where the largest segment has 10, and a header waits.
abbrev thirteen : Memory
thirteen = c_string (0x40 ∷ 0x80 ∷ 1 ∷ 1 ∷ 0 ∷ 0 ∷ 0 ∷ 13 ∷ [])

abbrev behind_header : Connection
behind_header = record connection {
  response_buffer = record empty_buffer { length = 48 };
  parameter = record parameters { max_receive_data_segment_length = 10 };
}

-- A text request with the continue bit.
abbrev goes_on : List ℕ
goes_on = 0x44 ∷ 0 ∷ 0x40 ∷ []

goes_on_bit : iscsi_pdu_text_continue (c_string goes_on) ≢ 0
unfolding iscsi_pdu_text_continue iscsi_byte_byte2bit
goes_on_bit = omega arith

continue-Answers_example :
    let after = answered connection 48 (continue_write (c_string goes_on)) in
    (iscsi_request_text_process (c_string goes_on) connection ≡ ok (48, after))
    × Answers connection after 48 (ContinuePdu (c_string goes_on))
continue-Answers_example =
    continue-Answers (c_string goes_on) connection (c_string-AreBytes goes_on (omega arith))
      goes_on_bit empty-IsIdle (omega arith)

-- A text request that asks for the targets.
abbrev zeros : ℕ → List ℕ → List ℕ
zeros zero rest = rest
zeros (suc n) rest = 0 ∷ zeros n rest

abbrev asks : List ℕ
asks = 0x44 ∷ 0x80 ∷ zeros 5 (16 ∷ zeros 40 (codes "SendTargets=All"))

padded_targets : targets_size ≡ 104
unfolding iscsi_pdu_padded_length
padded_targets = refl

targets-Answers_example :
    let after = answered connection targets_size (targets_write (c_string asks)) in
    (iscsi_request_text_process (c_string asks) connection ≡ ok (targets_size, after))
    × Answers connection after targets_size (TargetsPdu (c_string asks))
    × (iscsi_pdu_calc_size 0 text_length ≡ targets_size)
unfolding iscsi_pdu_text_continue iscsi_byte_byte2bit iscsi_parameter_get get_loop
    iscsi_pdu_data_segment_length
targets-Answers_example =
    targets-Answers (c_string asks) connection 12 (c_string-AreBytes asks (omega arith)) refl refl
      empty-IsIdle (omega (arith, padded_targets))
