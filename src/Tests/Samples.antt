-- ===== src/Tests/Samples.antt =====
-- A connection with nothing in its buffers, and texts as memory.
use iscsi.Prelude.{ℕ, zero, suc, refl, arith, true, false, List, [], ◌∷◌, none, some}
use iscsi.Prelude.Word.{IsByte}
use iscsi.Prelude.Memory.{Memory, AreBytes, c_string}
use iscsi.Buffer.{Buffer}
use iscsi.Buffer.Contents.{IsIdle}
use iscsi.State.{static, Parameter, Connection, Session, Target, Process, System}

abbrev pub blank : Memory
blank i = 0

abbrev AllBytes : List ℕ → Type 0
AllBytes [] = Unit {0}
AllBytes (b ∷ s) = IsByte b × AllBytes s

pub c_string-AreBytes : (s : List ℕ) → AllBytes s → AreBytes (c_string s)
c_string-AreBytes [] h i = omega arith
c_string-AreBytes (b ∷ s) h zero = h.0
c_string-AreBytes (b ∷ s) h (suc i) = c_string-AreBytes s h.1 i

abbrev pub empty_buffer : Buffer
empty_buffer = record { length = 0; lock = 1; contents = blank }

pub empty-IsIdle : IsIdle empty_buffer
empty-IsIdle = record { free = refl; fits = omega arith }

abbrev pub parameters : Parameter
parameters = record {
  buffer = blank;
  length = 0;
  max_receive_data_segment_length = 4096;
  max_connections = 1;
  initial_r2t = true;
  immediate_data = true;
  max_burst_length = 8192;
  first_burst_length = 8192;
  data_pdu_in_order = true;
  data_sequence_in_order = true;
  default_time_2_wait = 10;
  default_time_2_retain = 10;
  max_outstanding_r2t = 10;
}

abbrev pub connection : Connection
connection = record {
  session_reference = static;
  receive_buffer = empty_buffer;
  response_buffer = empty_buffer;
  parameter = parameters;
  socket_fd = 4;
  so_far_in_order = true;
  connection_id = 0;
  current_timeout = 0;
  stat_sn = 7;
  expected_cmd_sn = 3;
  max_cmd_sn = 0xffff_ffff;
  perform_connection_cleanup = false;
}

abbrev pub session : Session
session = record {
  num_connections = 0;
  max_connections = 4;
  tsih = 1;
  exp_cmd_sn = 3;
  command_numbering_start = false;
  is_full_feature_phase = false;
  is_discovery = false;
  error_recovery_level = 0;
  transfer_tag = 0;
  target = static;
  transfer_entry = record {
    contents = blank;
    cdb = blank;
    total_length = 0;
    offset = 0;
    r2t_sn = 0;
    total_r2t_sn = 0;
    transfer_tag = 0;
  };
}

abbrev pub target : Target
target = record {
  fd = 5;
  scsi_response = 0;
  status = 0;
  sb_len_wr = 0;
  resid = 0;
  buffer = blank;
  sense_buffer = blank;
  issued = [];
}

abbrev pub process : Process
process = record { connection = connection; session = session; target = target }

-- A device that opens, and fails every command.
abbrev pub system : System
system = record { open_device = some 5; sg_io = λ issued command. none }
