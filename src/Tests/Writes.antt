-- ===== src/Tests/Writes.antt =====
-- A write, from its command to its last data, at concrete requests.
use iscsi.Prelude.{ℕ, ◌≤◌, ◌≡◌, refl, arith, [], ◌∷◌, ◌++◌, List}
use iscsi.Prelude.Word.{add}
use iscsi.Prelude.Memory.{AreBytes, Memory, bytes, poke}
use iscsi.Prelude.Outcome.{ok}
use iscsi.Byte.{iscsi_byte_byte2bit, iscsi_byte_byte2int}
use iscsi.Pdu.{
  iscsi_pdu_data_segment_length, iscsi_pdu_target_transfer_tag, iscsi_pdu_padded_length,
}
use iscsi.State.{Process}
use iscsi.Response.Laws.{Answers, answered}
use iscsi.Request.Cmd.{
  response_write, iscsi_request_cmd_process, iscsi_request_cmd_send_response,
  iscsi_request_cmd_write, iscsi_request_cmd_exp_data_transfer,
}
use iscsi.Request.Cmd.Answer.{CmdPdu, send_response-Answers}
use iscsi.Request.Cmd.Write.{IsWrite, CanAsk, AsksFor, cmd-AsksFor}
use iscsi.Request.DataOut.{iscsi_request_data_out_buffer_offset}
use iscsi.Request.DataOut.Collect.{Carries, Burst, last, more}
use iscsi.Request.DataOut.Written.{ShortSense, data_out_all}
use iscsi.Request.DataOut.Transfer.{Executes, write-Executes}
use iscsi.Tests.Samples.{blank, connection, process, target, system, empty-IsIdle}

-- A command that writes eight bytes, without data of its own.
abbrev writes : Memory
writes = poke (poke (poke blank 0 1) 1 0x20) 23 8

writes-AreBytes : AreBytes writes
writes-AreBytes i = ground arith

writes-IsWrite : IsWrite writes
unfolding iscsi_request_cmd_write iscsi_byte_byte2bit iscsi_pdu_data_segment_length
    iscsi_request_cmd_exp_data_transfer iscsi_byte_byte2int
writes-IsWrite = record { are = writes-AreBytes; writes = omega arith; part = omega arith }

connection-CanAsk : CanAsk (iscsi_request_cmd_exp_data_transfer writes) connection
unfolding iscsi_request_cmd_exp_data_transfer iscsi_byte_byte2int
connection-CanAsk = record {
  in_turn = refl;
  positive = omega arith;
  small = omega arith;
  natural = omega arith;
  number = omega arith;
  idle = empty-IsIdle;
  room = omega arith;
}

send_response-Answers_example :
    let size = iscsi_pdu_padded_length 50 in
    let after = answered connection size (response_write target writes) in
    (iscsi_request_cmd_send_response connection target writes ≡ ok after)
    × Answers connection after size (CmdPdu target writes connection)
    × (after.stat_sn ≡ add connection.stat_sn 1)
unfolding iscsi_pdu_padded_length
send_response-Answers_example =
    send_response-Answers connection target writes writes-AreBytes (omega arith) (omega arith)
      empty-IsIdle (omega arith)

cmd-AsksFor_example :
    (q : Process) × (iscsi_request_cmd_process system writes process ≡ ok (0, q))
    × AsksFor writes process q
cmd-AsksFor_example = cmd-AsksFor system writes process writes-IsWrite connection-CanAsk

-- Its data come in two PDUs of four bytes.
abbrev front_half : Memory
front_half = poke (poke (poke blank 7 4) 23 1) 48 0x41

abbrev back_half : Memory
back_half = poke (poke (poke (poke blank 7 4) 23 1) 43 4) 48 0x42

back_half-AreBytes : AreBytes back_half
back_half-AreBytes i = ground arith

front-Carries : Carries 1 0 4 front_half
unfolding iscsi_pdu_target_transfer_tag iscsi_byte_byte2int iscsi_pdu_data_segment_length
    iscsi_request_data_out_buffer_offset
front-Carries = record { names = refl; at = refl; size = refl }

back-Carries : Carries 1 4 4 back_half
unfolding iscsi_pdu_target_transfer_tag iscsi_byte_byte2int iscsi_pdu_data_segment_length
    iscsi_request_data_out_buffer_offset
back-Carries = record { names = refl; at = refl; size = refl }

abbrev eight_bytes : List ℕ
eight_bytes = 0x41 ∷ 0 ∷ 0 ∷ 0 ∷ 0x42 ∷ 0 ∷ 0 ∷ 0 ∷ []

halves-Burst :
    Burst 1
      (iscsi_request_cmd_exp_data_transfer writes)
      (iscsi_pdu_data_segment_length writes)
      (front_half ∷ back_half ∷ [])
      back_half
      eight_bytes
unfolding iscsi_request_cmd_exp_data_transfer iscsi_byte_byte2int iscsi_pdu_data_segment_length
halves-Burst = more front_half front-Carries (omega arith) (last back_half back-Carries refl)

system-ShortSense : ShortSense system
system-ShortSense before command reply replies = ground arith

fits : iscsi_request_cmd_exp_data_transfer writes ≤ 4194304
unfolding iscsi_request_cmd_exp_data_transfer iscsi_byte_byte2int
fits = omega arith

write-Executes_example :
    (q r : Process) × (iscsi_request_cmd_process system writes process ≡ ok (0, q))
    × (data_out_all system (front_half ∷ back_half ∷ []) q ≡ ok r)
    × Executes writes
        (iscsi_request_cmd_exp_data_transfer writes)
        (bytes blank 0 (iscsi_pdu_data_segment_length writes) ++ eight_bytes)
        process
        r
write-Executes_example =
    write-Executes system writes (front_half ∷ back_half ∷ []) back_half eight_bytes process
      system-ShortSense writes-IsWrite fits connection-CanAsk refl (omega arith) refl refl
      halves-Burst back_half-AreBytes (omega arith)
