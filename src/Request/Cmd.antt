-- ===== src/Request/Cmd.antt =====
-- request/cmd.c: SCSI commands.
pub mod Answer
pub mod Rounds
pub mod Write
pub mod Read
pub mod Asked
use iscsi.Prelude.{◌^◌, ◌%◌, ℕ, zero, suc, ◌+◌, not, ◌&&◌, ◌==◌, if◌then◌else◌}
use iscsi.Prelude.Word.{add, sub, slt}
use iscsi.Prelude.Memory.{Memory, from, poke, memcpy}
use iscsi.Prelude.Outcome.{Outcome, ok, ◌>>=◌}
use iscsi.Byte.{iscsi_byte_byte2bit, iscsi_byte_byte2int, iscsi_byte_short2byte}
use iscsi.Utility.{min, divide_round_up}
use iscsi.Pdu.{
  basic_header_segment_length, iscsi_pdu_data_segment_length, iscsi_pdu_initiator_task_tag,
  iscsi_pdu_calc_size, iscsi_pdu_set_opcode, iscsi_pdu_set_final, iscsi_pdu_set_initiator_task_tag,
  iscsi_pdu_set_data_segment_length,
}
use iscsi.Pdu.Opcode
use iscsi.State.{
  Connection, Target, System, Process, iscsi_pdu_set_response_header,
  iscsi_connection_advance_expected_cmd_sn,
}
use iscsi.Session.{
  iscsi_session_next_transfer_tag, iscsi_transfer_entry_create, iscsi_session_execute_command,
  iscsi_target_memory_size,
}
use iscsi.Response.{Writer, respond}
use iscsi.Request.R2t.{iscsi_request_r2t_send}
use iscsi.Request.DataIn.{iscsi_request_data_in_send}

unfoldable pub iscsi_request_cmd_read : Memory → ℕ
iscsi_request_cmd_read request = iscsi_byte_byte2bit (request 1) 1

unfoldable pub iscsi_request_cmd_write : Memory → ℕ
iscsi_request_cmd_write request = iscsi_byte_byte2bit (request 1) 2

unfoldable pub iscsi_request_cmd_exp_data_transfer : Memory → ℕ
iscsi_request_cmd_exp_data_transfer request = iscsi_byte_byte2int (from request 20)

abbrev pub iscsi_request_cmd_cdb : Memory → Memory
iscsi_request_cmd_cdb request = from request 32

unfoldable pub iscsi_request_cmd_set_sense_buffer : Memory → Memory → ℕ → Memory
unfolding iscsi_pdu_set_data_segment_length iscsi_byte_short2byte
iscsi_request_cmd_set_sense_buffer buffer sense_buffer n =
    memcpy
      (iscsi_byte_short2byte (iscsi_pdu_set_data_segment_length buffer (add 2 n))
        basic_header_segment_length n)
      (basic_header_segment_length + 2) sense_buffer n

unfoldable pub response_write : Target → Memory → Writer
unfolding iscsi_request_cmd_set_sense_buffer iscsi_pdu_set_opcode iscsi_pdu_set_final
    iscsi_pdu_set_initiator_task_tag iscsi_pdu_set_response_header
response_write target request buffer c =
    let buffer = iscsi_pdu_set_opcode buffer Opcode.scsi_cmd_res in
    let buffer = iscsi_pdu_set_final buffer 1 in
    let buffer = poke buffer 2 (target.scsi_response % 2 ^ 8) in
    let buffer = poke buffer 3 (target.status % 2 ^ 8) in
    let buffer = iscsi_pdu_set_initiator_task_tag buffer (iscsi_pdu_initiator_task_tag request) in
    let buffer = iscsi_request_cmd_set_sense_buffer buffer target.sense_buffer target.sb_len_wr in
    iscsi_pdu_set_response_header buffer c

unfoldable pub iscsi_request_cmd_send_response : Connection → Target → Memory → Outcome Connection
iscsi_request_cmd_send_response c target request =
    respond c (iscsi_pdu_calc_size 0 (add 2 target.sb_len_wr)) (response_write target request)

-- The loop that asks for the data: `i` counts up, and the offset goes up by the largest segment.
unfoldable pub r2t_loop : ℕ → ℕ → ℕ → ℕ → ℕ → ℕ → ℕ → Connection → Outcome Connection
r2t_loop zero i initiator_task_tag transfer_tag max_receive exp_data_transfer next_offset c = ok c
r2t_loop (suc rounds) i initiator_task_tag transfer_tag max_receive exp_data_transfer next_offset
      c =
    iscsi_request_r2t_send c initiator_task_tag transfer_tag i next_offset
      (min max_receive (sub exp_data_transfer next_offset))
    >>= λ after.
        r2t_loop rounds (add i 1) initiator_task_tag transfer_tag max_receive exp_data_transfer
          (add next_offset max_receive) after

-- With InitialR2T=No the first burst is not asked for: how many bytes of it are still to come.
unfoldable pub first_data_pdu_length : Connection → ℕ → ℕ → ℕ
first_data_pdu_length c data_seg_length exp_data_transfer =
    if c.parameter.initial_r2t
    then 0
    else sub (min c.parameter.first_burst_length exp_data_transfer) data_seg_length

-- The branch for a write whose data has not all come with the command.
unfoldable pub cmd_ask : Memory → ℕ → Process → Outcome (ℕ × Process)
unfolding first_data_pdu_length
cmd_ask request transfer_tag p = do
  let c = p.connection
  let data_seg_length = iscsi_pdu_data_segment_length request
  let exp_data_transfer = iscsi_request_cmd_exp_data_transfer request
  let first = first_data_pdu_length c data_seg_length exp_data_transfer
  let byte_left = sub (sub exp_data_transfer data_seg_length) first
  let max_receive = c.parameter.max_receive_data_segment_length
  total_r2t ← divide_round_up byte_left max_receive
  let outgoing_r2t = min c.parameter.max_outstanding_r2t total_r2t
  let entry =
      iscsi_transfer_entry_create p.session.transfer_entry (iscsi_request_cmd_cdb request)
        exp_data_transfer transfer_tag
  c ←
      r2t_loop (if slt 0 outgoing_r2t then outgoing_r2t else 0) 0
        (iscsi_pdu_initiator_task_tag request) transfer_tag max_receive exp_data_transfer
        (add data_seg_length first) c
  ok (0, record p { connection = c; session = record p.session { transfer_entry = entry } })

module _ (system : System) where
  -- The branch for all other commands: the device is asked at once.
  unfoldable pub cmd_execute : Memory → Process → Outcome (ℕ × Process)
  cmd_execute request p = do
    p ← iscsi_session_execute_command system p (iscsi_request_cmd_cdb request)
    let expected =
        min (iscsi_request_cmd_exp_data_transfer request)
          (sub iscsi_target_memory_size p.target.resid)
    let answer =
        if iscsi_request_cmd_read request == 0
        then iscsi_request_cmd_send_response p.connection p.target request
        else iscsi_request_data_in_send p.connection (iscsi_pdu_initiator_task_tag request) expected
            p.target.buffer
    c ← answer
    ok (0, record p { connection = c })

  unfoldable pub iscsi_request_cmd_process : Memory → Process → Outcome (ℕ × Process)
  unfolding cmd_ask cmd_execute
  iscsi_request_cmd_process request p =
      let session = iscsi_session_next_transfer_tag p.session in
      let counted = record p {
        connection = iscsi_connection_advance_expected_cmd_sn p.connection;
        session = session;
      } in
      let data_seg_length = iscsi_pdu_data_segment_length request in
      if not (iscsi_request_cmd_write request == 0)
        && slt data_seg_length (iscsi_request_cmd_exp_data_transfer request)
      then cmd_ask request session.transfer_tag counted
      else cmd_execute request counted
