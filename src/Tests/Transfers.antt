-- ===== src/Tests/Transfers.antt =====
-- Reads and writes at concrete requests.
use iscsi.Prelude.{ℕ, true, false, ◌==◌, ◌+◌, ◌≤◌, ◌<◌, ◌≡◌, ◌≢◌, refl, arith, [], ◌∷◌, ◌++◌, List}
use iscsi.Prelude.Memory.{Memory, c_string}
use iscsi.Prelude.Text.{codes}
use iscsi.Prelude.Outcome.{ok, Always, fault, out_of_bounds}
use iscsi.Buffer.Contents.{contents, IsIdle}
use iscsi.Byte.{iscsi_byte_byte2int}
use iscsi.Pdu.{
  iscsi_pdu_target_transfer_tag, iscsi_pdu_data_segment_length, iscsi_pdu_padded_length,
}
use iscsi.State.{Connection, Process}
use iscsi.Utility.{min}
use iscsi.Request.DataIn.{iscsi_request_data_in_send}
use iscsi.Request.DataIn.Stream.{Stream, room_needed, send-Stream}
use iscsi.Request.DataOut.{iscsi_request_data_out_process, iscsi_request_data_out_buffer_offset}
use iscsi.Server.Dispatch.{iscsi_server_process}
use iscsi.Server.Dispatch.Transfers.{Uncounted, process-Uncounted}
use iscsi.Request.DataOut.Bounds.{Names, NamesNone, data_out_bounds}
use iscsi.Request.DataOut.Collect.{with_data}
use iscsi.Session.{iscsi_transfer_entry_size}
use iscsi.Tests.Samples.{connection, session, process, system, parameters, empty-IsIdle}

-- A connection on which a segment has at most four bytes.
abbrev narrow : Connection
narrow = record connection { parameter = record parameters { max_receive_data_segment_length = 4 } }

abbrev ten_bytes : Memory
ten_bytes = c_string (codes "0123456789")

three_pdus : room_needed 11 10 4 0 ≡ 156
unfolding room_needed min iscsi_pdu_padded_length
three_pdus = refl

send-Stream_example :
    (after : Connection) × (sent : List ℕ) × (iscsi_request_data_in_send narrow 9 10 ten_bytes
      ≡ ok after)
    × IsIdle after.response_buffer
    × (contents after.response_buffer ≡ contents narrow.response_buffer ++ sent)
    × Stream 9 ten_bytes 10 4 0 0 sent
send-Stream_example =
    send-Stream narrow 9 10 ten_bytes (omega arith) (omega arith) (omega arith) (omega arith)
      empty-IsIdle (omega (arith, three_pdus))

-- Data of four bytes, the first of a write of eight.
abbrev carries : Memory
carries = c_string (0x05 ∷ 0x80 ∷ 0 ∷ 0 ∷ 0 ∷ 0 ∷ 0 ∷ 4 ∷ [])

abbrev writing : Process
writing = record process {
  session = record session {
    is_full_feature_phase = true;
    transfer_entry = record session.transfer_entry { total_length = 8 };
  };
}

process-Uncounted_example :
    Always (λ r. Uncounted r.1) (iscsi_server_process system carries writing)
process-Uncounted_example = process-Uncounted system carries writing (refl, refl)

not_last : iscsi_request_data_out_buffer_offset carries + iscsi_pdu_data_segment_length carries ≢ 8
unfolding iscsi_request_data_out_buffer_offset iscsi_byte_byte2int iscsi_pdu_data_segment_length
not_last = omega arith

data_out_bounds_example :
    (NamesNone carries writing
      → iscsi_request_data_out_process system carries writing ≡ ok (0, writing))
    × (Names carries writing
        → iscsi_request_data_out_buffer_offset carries + iscsi_pdu_data_segment_length carries
          ≤ iscsi_transfer_entry_size
        → iscsi_request_data_out_process system carries writing
          ≡ ok (
            0,
            with_data writing
                (iscsi_request_data_out_buffer_offset carries)
                carries
                (iscsi_pdu_data_segment_length carries),
          ))
    × (Names carries writing
        → iscsi_transfer_entry_size
          < iscsi_request_data_out_buffer_offset carries + iscsi_pdu_data_segment_length carries
        → iscsi_request_data_out_process system carries writing ≡ fault out_of_bounds)
data_out_bounds_example = data_out_bounds system carries writing refl refl not_last

-- The tag is that of the transfer, and the offset one behind the largest.
abbrev far : Memory
far i = elim (i == 41) [ true ↦ 0x40 | false ↦ carries i ]

far-Names : Names far writing
unfolding iscsi_pdu_target_transfer_tag iscsi_byte_byte2int
far-Names = (omega arith, refl)

too_far :
    iscsi_transfer_entry_size
    < iscsi_request_data_out_buffer_offset far + iscsi_pdu_data_segment_length far
unfolding iscsi_request_data_out_buffer_offset iscsi_byte_byte2int iscsi_pdu_data_segment_length
too_far = omega arith

far_not_last : iscsi_request_data_out_buffer_offset far + iscsi_pdu_data_segment_length far ≢ 8
unfolding iscsi_request_data_out_buffer_offset iscsi_byte_byte2int iscsi_pdu_data_segment_length
far_not_last = omega arith

heap_overflow : iscsi_request_data_out_process system far writing ≡ fault out_of_bounds
heap_overflow = (data_out_bounds system far writing refl refl far_not_last).2 far-Names too_far
