-- ===== src/Tests/Reads.antt =====
-- A read at a concrete request, on a device that leaves four bytes.
use iscsi.Prelude.{◌≡◌, ◌-◌, ◌^◌, refl, arith, some}
use iscsi.Prelude.Memory.{AreBytes, Memory, c_string, poke}
use iscsi.Prelude.Text.{codes}
use iscsi.Prelude.Outcome.{ok}
use iscsi.Byte.{iscsi_byte_byte2bit, iscsi_byte_byte2int}
use iscsi.Pdu.{iscsi_pdu_padded_length}
use iscsi.State.{Process, ScsiReply, System}
use iscsi.Utility.{min}
use iscsi.Request.Cmd.{
  iscsi_request_cmd_process, iscsi_request_cmd_read, iscsi_request_cmd_write,
  iscsi_request_cmd_exp_data_transfer,
}
use iscsi.Request.Cmd.Read.{Delivers, IsRead, read-Delivers, returned}
use iscsi.Request.DataIn.Stream.{room_needed}
use iscsi.Tests.Samples.{blank, process, empty-IsIdle}

-- A command that reads eight bytes.
abbrev reads : Memory
reads = poke (poke (poke blank 0 1) 1 0x40) 23 8

reads-AreBytes : AreBytes reads
reads-AreBytes i = ground arith

reads-IsRead : IsRead reads
unfolding iscsi_request_cmd_read iscsi_request_cmd_write iscsi_byte_byte2bit
reads-IsRead = record { are = reads-AreBytes; reads = omega arith; writes_not = refl }

abbrev four_bytes : ScsiReply
four_bytes = record {
  status = 0;
  sb_len_wr = 0;
  resid = 2 ^ 22 - 4;
  buffer = c_string (codes "disk");
  sense_buffer = blank;
}

abbrev device : System
device = record { open_device = some 5; sg_io = λ before command. some four_bytes }

eight : iscsi_request_cmd_exp_data_transfer reads ≡ 8
unfolding iscsi_request_cmd_exp_data_transfer iscsi_byte_byte2int
eight = refl

four : returned reads four_bytes ≡ 4
unfolding min iscsi_request_cmd_exp_data_transfer iscsi_byte_byte2int
four = refl

one_pdu : room_needed 5 4 4096 0 ≡ 52
unfolding room_needed min iscsi_pdu_padded_length
one_pdu = refl

read-Delivers_example :
    (q : Process) × (iscsi_request_cmd_process device reads process ≡ ok (0, q))
    × Delivers reads four_bytes process q
read-Delivers_example =
    read-Delivers device reads process four_bytes reads-IsRead (omega (arith, eight)) refl refl
      (omega arith) (omega arith) (omega arith) empty-IsIdle (rw four (omega (arith, one_pdu)))
