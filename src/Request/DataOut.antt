-- ===== src/Request/DataOut.antt =====
-- request/data_out.c: collecting the data of a write.
pub mod Collect
pub mod Written
pub mod Transfer
pub mod Bounds
use iscsi.Prelude.{ℕ, ◌+◌, ◌==◌, ltb, Option, none, some, if◌then◌else◌}
use iscsi.Prelude.Word.{add, sub, slt}
use iscsi.Prelude.Memory.{Memory, from, memcpy}
use iscsi.Prelude.Outcome.{Outcome, ok, fault, out_of_bounds, ◌>>=◌}
use iscsi.Byte.{iscsi_byte_byte2int}
use iscsi.Utility.{min}
use iscsi.Pdu.{
  default_target_transfer_tag, iscsi_pdu_data, iscsi_pdu_data_segment_length, iscsi_pdu_final,
  iscsi_pdu_initiator_task_tag, iscsi_pdu_target_transfer_tag,
}
use iscsi.State.{
  TransferEntry, System, Process, iscsi_transfer_entry_next_offset,
  iscsi_transfer_entry_increase_r2t_sn,
}
use iscsi.Session.{
  iscsi_session_get_transfer_entry, iscsi_session_execute_transfer_entry, iscsi_transfer_entry_size,
}
use iscsi.Request.R2t.{iscsi_request_r2t_send}
use iscsi.Request.Cmd.{iscsi_request_cmd_send_response}

unfoldable pub iscsi_request_data_out_buffer_offset : Memory → ℕ
iscsi_request_data_out_buffer_offset request = iscsi_byte_byte2int (from request 40)

-- The entry that the tag names; the default tag names none.
unfoldable pub data_out_entry : Memory → Process → Option TransferEntry
data_out_entry request p =
    let tag = iscsi_pdu_target_transfer_tag request in
    if tag == default_target_transfer_tag
    then none
    else iscsi_session_get_transfer_entry p.session tag

-- The `memcpy` into the entry has no test: an offset that is negative, or beyond the array together
-- with the length, writes out of bounds.
unfoldable pub data_out_store : Memory → TransferEntry → Outcome TransferEntry
data_out_store request entry =
    let offset = iscsi_request_data_out_buffer_offset request in
    let data_length = iscsi_pdu_data_segment_length request in
    if ltb iscsi_transfer_entry_size (offset + data_length)
    then fault out_of_bounds
    else ok (record entry {
      contents = memcpy entry.contents offset (iscsi_pdu_data request) data_length;
    })

-- The branch that asks for more data.
unfoldable pub data_out_more : Memory → TransferEntry → Process → Outcome Process
data_out_more request entry p =
    let max_receive = p.connection.parameter.max_receive_data_segment_length in
    let next_offset = iscsi_transfer_entry_next_offset entry in
    let sent =
      iscsi_request_r2t_send p.connection (iscsi_pdu_initiator_task_tag request)
        (iscsi_pdu_target_transfer_tag request) entry.r2t_sn next_offset
        (min max_receive (sub entry.total_length next_offset)) in
    let counted = record p.session {
      transfer_entry = iscsi_transfer_entry_increase_r2t_sn entry;
    } in
    if slt entry.r2t_sn entry.total_r2t_sn
    then (sent >>= λ c. ok (record p { connection = c; session = counted }))
    else ok p

module _ (system : System) where
  -- The branch for the last data: the command goes to the device, and its status to the initiator.
  unfoldable pub data_out_finish : Memory → Process → Outcome Process
  data_out_finish request p = do
    p ← iscsi_session_execute_transfer_entry system p
    c ← iscsi_request_cmd_send_response p.connection p.target request
    ok (record p { connection = c })

  unfoldable pub data_out_found : Memory → TransferEntry → Process → Outcome (ℕ × Process)
  unfolding data_out_store data_out_more data_out_finish
  data_out_found request found p = do
    let offset = iscsi_request_data_out_buffer_offset request
    let data_length = iscsi_pdu_data_segment_length request
    entry ← data_out_store request found
    let stored = record p { session = record p.session { transfer_entry = entry } }
    let next =
        if add offset data_length == entry.total_length
        then data_out_finish request stored
        else if iscsi_pdu_final request == 0
        then ok stored
        else data_out_more request entry stored
    p ← next
    ok (0, p)

  unfoldable pub iscsi_request_data_out_process : Memory → Process → Outcome (ℕ × Process)
  unfolding data_out_entry data_out_found
  iscsi_request_data_out_process request p = elim (data_out_entry request p) [
    | none ↦ ok (0, p)
    | some entry ↦ data_out_found request entry p
  ]
