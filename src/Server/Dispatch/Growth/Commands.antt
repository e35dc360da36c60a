-- ===== src/Server/Dispatch/Growth/Commands.antt =====
-- request/cmd.c and request/data_out.c: what commands and their data do to the two buffers.
use mathlib.Core.Path.{subst}
use iscsi.Prelude.{ℕ, sym, ap, ◌==◌, ◌≡◌, arith, if◌then◌else◌}
use iscsi.Prelude.Memory.{Memory}
use iscsi.Prelude.Word.{add, sub, slt}
use iscsi.Prelude.Outcome.{ok, Always, Always-bind, Always-Unit, ◌>>=◌}
use iscsi.Buffer.Contents.{contents, IsIdle}
use iscsi.Utility.{min, divide_round_up}
use iscsi.Pdu.{
  iscsi_pdu_final, iscsi_pdu_data_segment_length, iscsi_pdu_initiator_task_tag,
  iscsi_pdu_target_transfer_tag,
}
use iscsi.State.{
  Connection, System, Process, TransferEntry, iscsi_connection_advance_expected_cmd_sn,
  iscsi_transfer_entry_next_offset,
}
use iscsi.Session.{
  iscsi_session_next_transfer_tag, iscsi_session_execute_command,
  iscsi_session_execute_transfer_entry, iscsi_target_memory_size,
}
use iscsi.Response.Extends.{Extends, Extends-start}
use iscsi.Request.Extends.{r2t_send-Sends, send_response-Sends, data_in_send-Sends, r2t_loop-Sends}
use iscsi.Request.Cmd.{
  iscsi_request_cmd_process, cmd_ask, cmd_execute, iscsi_request_cmd_exp_data_transfer,
  first_data_pdu_length, iscsi_request_cmd_cdb, iscsi_request_cmd_read,
  iscsi_request_cmd_send_response, r2t_loop,
}
use iscsi.Request.DataIn.{iscsi_request_data_in_send}
use iscsi.Request.DataOut.{
  data_out_found, data_out_finish, data_out_more, data_out_store,
  iscsi_request_data_out_buffer_offset,
}
use iscsi.Server.Dispatch.Growth.{Grown, Serves, Serves-from}

-- The device does not see the connection.
execute-keeps :
    (system : System) (p : Process) (cdb : Memory)
    → Always (λ q. q.connection ≡ p.connection) (iscsi_session_execute_command system p cdb)
unfolding iscsi_session_execute_command
execute-keeps system p cdb = ground arith

transfer-keeps :
    (system : System) (p : Process)
    → Always (λ q. q.connection ≡ p.connection) (iscsi_session_execute_transfer_entry system p)
unfolding iscsi_session_execute_transfer_entry iscsi_session_execute_command
transfer-keeps system p = ground arith

-- What follows the device's work on a command that is executed at once.
executed-Serves :
    (request : Memory) (p : Process)
    → IsIdle p.connection.response_buffer
    → let expected =
        min
          (iscsi_request_cmd_exp_data_transfer request)
          (sub iscsi_target_memory_size p.target.resid) in
      let answer =
        if iscsi_request_cmd_read request == 0
        then iscsi_request_cmd_send_response p.connection p.target request
        else iscsi_request_data_in_send p.connection
            (iscsi_pdu_initiator_task_tag request)
            expected
            p.target.buffer in
      Serves p (answer >>= λ c. ok (0, record p { connection = c }))
executed-Serves request p v =
    let expected =
      min (iscsi_request_cmd_exp_data_transfer request)
        (sub iscsi_target_memory_size p.target.resid) in
    ground (
      arith,
      send_response-Sends p.connection v p.target request,
      data_in_send-Sends p.connection (iscsi_pdu_initiator_task_tag request) expected
          p.target.buffer v,
    )

finished-Serves :
    (request : Memory) (p : Process)
    → IsIdle p.connection.response_buffer
    → Always
        (λ q. Grown p q.connection)
        (iscsi_request_cmd_send_response p.connection p.target request >>= λ c.
          ok (record p { connection = c }))
finished-Serves request p v = ground (arith, send_response-Sends p.connection v p.target request)

module _ (system : System) (request : Memory) where
  execute-Serves :
      (p : Process) → IsIdle p.connection.response_buffer → Serves p (cmd_execute system request p)
  unfolding cmd_execute
  execute-Serves p v =
      Always-bind (λ q. q.connection ≡ p.connection) (λ r. Grown p r.1.connection)
        (iscsi_session_execute_command system p (iscsi_request_cmd_cdb request)) _
        (execute-keeps system p (iscsi_request_cmd_cdb request))
        λ q same.
          Serves-from p q _ (ap (λ (c : Connection). c.response_buffer) same)
            (ap (λ (c : Connection). c.receive_buffer) same)
            (executed-Serves request q
              (subst (λ (c : Connection). IsIdle c.response_buffer) (sym same) v))

  finish-Serves :
      (p : Process)
      → IsIdle p.connection.response_buffer
      → Always (λ q. Grown p q.connection) (data_out_finish system request p)
  unfolding data_out_finish
  finish-Serves p v =
      Always-bind (λ q. q.connection ≡ p.connection) (λ q. Grown p q.connection)
        (iscsi_session_execute_transfer_entry system p) _ (transfer-keeps system p)
        λ q same.
          subst
            (λ (c : Connection).
              Always
                (λ (r : Process).
                  Extends (contents c.response_buffer) c.receive_buffer r.connection)
                (iscsi_request_cmd_send_response q.connection q.target request >>= λ d.
                  ok (record q { connection = d })))
            same
            (finished-Serves request q
              (subst (λ (c : Connection). IsIdle c.response_buffer) (sym same) v))

ask-Serves :
    (request : Memory) (tag : ℕ) (p : Process)
    → IsIdle p.connection.response_buffer
    → Serves p (cmd_ask request tag p)
unfolding cmd_ask
ask-Serves request tag p v =
    let c = p.connection in
    let data_seg_length = iscsi_pdu_data_segment_length request in
    let expected = iscsi_request_cmd_exp_data_transfer request in
    let first = first_data_pdu_length c data_seg_length expected in
    let largest = c.parameter.max_receive_data_segment_length in
    let count = divide_round_up (sub (sub expected data_seg_length) first) largest in
    let rounds = λ (total : ℕ).
      let outgoing = min c.parameter.max_outstanding_r2t total in
      if slt 0 outgoing then outgoing else 0 in
    let loop = λ (total : ℕ).
      r2t_loop (rounds total) 0 (iscsi_pdu_initiator_task_tag request) tag largest expected
        (add data_seg_length first) c in
    Always-bind (λ _. Unit {0}) (λ r. Grown p r.1.connection) count _ (Always-Unit count)
      λ total _.
        Always-bind (Grown p) (λ r. Grown p r.1.connection) (loop total) _
          (r2t_loop-Sends (rounds total) 0 (iscsi_pdu_initiator_task_tag request) tag largest
            expected (add data_seg_length first) c v)
          λ d h. h

more-Serves :
    (request : Memory) (entry : TransferEntry) (p : Process)
    → IsIdle p.connection.response_buffer
    → Always (λ q. Grown p q.connection) (data_out_more request entry p)
unfolding data_out_more
more-Serves request entry p v =
    let largest = p.connection.parameter.max_receive_data_segment_length in
    let offset = iscsi_transfer_entry_next_offset entry in
    ground (
      arith,
      Extends-start p.connection v,
      r2t_send-Sends p.connection v (iscsi_pdu_initiator_task_tag request)
          (iscsi_pdu_target_transfer_tag request) entry.r2t_sn offset
          (min largest (sub entry.total_length offset)),
    )

module _ (system : System) (request : Memory) where
  pub command-Serves :
      (p : Process)
      → IsIdle p.connection.response_buffer
      → Serves p (iscsi_request_cmd_process system request p)
  unfolding iscsi_request_cmd_process iscsi_session_next_transfer_tag
      iscsi_connection_advance_expected_cmd_sn
  command-Serves p v =
      let tag = add p.session.transfer_tag 1 in
      let counted = record p {
        connection = record p.connection { expected_cmd_sn = add p.connection.expected_cmd_sn 1 };
        session = record p.session { transfer_tag = tag };
      } in
      ground (arith, ask-Serves request tag counted v, execute-Serves system request counted v)

  pub found-Serves :
      (entry : TransferEntry) (p : Process)
      → IsIdle p.connection.response_buffer
      → Serves p (data_out_found system request entry p)
  unfolding data_out_found
  found-Serves entry p v =
      let offset = iscsi_request_data_out_buffer_offset request in
      let data_length = iscsi_pdu_data_segment_length request in
      let stored = λ (entry : TransferEntry). record p {
        session = record p.session { transfer_entry = entry };
      } in
      let next = λ (entry : TransferEntry).
        if add offset data_length == entry.total_length
        then data_out_finish system request (stored entry)
        else if iscsi_pdu_final request == 0
        then ok (stored entry)
        else data_out_more request entry (stored entry) in
      Always-bind (λ _. Unit {0}) (λ r. Grown p r.1.connection) (data_out_store request entry) _
        (Always-Unit (data_out_store request entry))
        λ entry _.
          Always-bind (λ q. Grown p q.connection) (λ r. Grown p r.1.connection) (next entry) _
            (ground (
              arith,
              Extends-start p.connection v,
              finish-Serves system request (stored entry) v,
              more-Serves request entry (stored entry) v,
            ))
            λ q h. h
