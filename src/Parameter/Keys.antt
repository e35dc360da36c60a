-- ===== src/Parameter/Keys.antt =====
-- iscsi_connection_parameter.c: the keys, their comparison, and the defaults of iscsi_define.h.
use iscsi.Prelude.{ℕ, ◌^◌, Bool, true, false, List, [], ◌∷◌, ◌==◌, if◌then◌else◌}
use iscsi.Prelude.Memory.{Memory, from, c_string}
use iscsi.Prelude.Text.{codes}
use iscsi.State.{Parameter}

abbrev pub max_receive_data_segment : List ℕ
max_receive_data_segment = codes "MaxRecvDataSegmentLength"

abbrev pub max_connections : List ℕ
max_connections = codes "MaxConnections"

abbrev pub initial_r2t : List ℕ
initial_r2t = codes "InitialR2T"

abbrev pub immediate_data : List ℕ
immediate_data = codes "ImmediateData"

abbrev pub max_burst_length : List ℕ
max_burst_length = codes "MaxBurstLength"

abbrev pub first_burst_length : List ℕ
first_burst_length = codes "FirstBurstLength"

abbrev pub data_pdu_in_order : List ℕ
data_pdu_in_order = codes "DataPDUInOrder"

abbrev pub data_sequence_in_order : List ℕ
data_sequence_in_order = codes "DataSequenceInOrder"

abbrev pub default_time_2_wait : List ℕ
default_time_2_wait = codes "DefaultTime2Wait"

abbrev pub default_time_2_retain : List ℕ
default_time_2_retain = codes "DefaultTime2Retain"

abbrev pub max_outstanding_r2t : List ℕ
max_outstanding_r2t = codes "MaxOutstandingR2T"

abbrev pub parameter_buffer_size : ℕ
parameter_buffer_size = 2 ^ 20

-- The loop runs over the length of `prop`, so it asks whether `key` begins with `prop`.
unfoldable pub key_equal : Memory → List ℕ → Bool
key_equal key [] = true
key_equal key (c ∷ prop) = if key 0 == c then key_equal (from key 1) prop else false

unfoldable pub bool_to_string : Bool → Memory
bool_to_string b = if b then c_string (codes "YES") else c_string (codes "NO")

unfoldable pub set_default_parameter : Parameter → Parameter
set_default_parameter p = record p {
  max_receive_data_segment_length = parameter_buffer_size;
  max_connections = 1;
  initial_r2t = true;
  immediate_data = true;
  max_burst_length = 8192;
  first_burst_length = 8192;
  data_pdu_in_order = true;
  data_sequence_in_order = true;
  default_time_2_wait = 10;
  default_time_2_retain = 10;
  max_outstanding_r2t = 10;
}
