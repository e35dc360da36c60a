-- ===== src/Tests/Parameters.antt =====
-- The parameters at concrete inputs.
use iscsi.Prelude.{ℕ, zero, suc, ◌<◌, ◌≡◌, refl, arith, some, List, [], ◌∷◌, ◌++◌, get_or}
use iscsi.Prelude.Memory.{Memory, c_string, bytes}
use iscsi.Prelude.Text.{codes}
use iscsi.Prelude.Outcome.{Always, ok}
use iscsi.Parameter.Lookup.{iscsi_parameter_get, get_loop, IsPlain, get_prefix}
use iscsi.Utility.{int_to_string, count_digits, write_digits}
use iscsi.State.{Parameter}
use iscsi.Parameter.Keys
use iscsi.Parameter.Update.{
  iscsi_connection_parameter_create, iscsi_connection_parameter_generate_operational_data,
}
use iscsi.Parameter.Entry.{Entry}
use iscsi.Parameter.Printed.{number, texts}
use iscsi.Parameter.Settled.{IsSettled}
use iscsi.Parameter.Read.{read_all, total_length}
use iscsi.Parameter.Read.Create.{fresh, create-read_all}
use iscsi.Parameter.Read.Texts.{texts-AllStand}
use iscsi.Parameter.Read.RoundTrip.{Agrees, number-IsReadable, generate-create}
use iscsi.Parameter.Negotiated.{IsNegotiated, create-IsNegotiated}
use iscsi.Tests.Samples.{parameters}

abbrev send_targets : List ℕ
send_targets = codes "SendTargets"

abbrev request_text : Memory
request_text = c_string (codes "MaxBurstLength=262144")

create-IsNegotiated_example :
    Always IsNegotiated (iscsi_connection_parameter_create parameters request_text 22)
create-IsNegotiated_example = create-IsNegotiated parameters request_text 22

-- Only the first letter of the key is there.
abbrev short_text : Memory
short_text = c_string (codes "S=All")

finds_prefix : iscsi_parameter_get short_text 6 send_targets ≡ some 2
finds_prefix = get_prefix short_text 6 send_targets 1 (omega arith) first_letter refl
  where
    first_letter :
        (k : ℕ) → k < 1 → (short_text k ≡ get_or send_targets k 0) × IsPlain (short_text k)
    first_letter zero h = (refl, omega arith)
    first_letter (suc k) h = absurd (omega arith)

finds_key : iscsi_parameter_get (c_string (codes "A=b,SendTargets=All")) 19 send_targets ≡ some 16
unfolding iscsi_parameter_get get_loop
finds_key = refl

abbrev burst_entries : List Entry
burst_entries = number Keys.max_burst_length 512 ∷ number Keys.max_connections 1 ∷ []

abbrev burst_text : Memory
burst_text = c_string (codes "MaxBurstLength=512" ++ (0 ∷ (codes "MaxConnections=1" ++ (0 ∷ []))))

burst_spelled : bytes burst_text 0 36 ≡ texts burst_entries
unfolding int_to_string count_digits write_digits
burst_spelled = refl

burst_length : 36 ≡ total_length burst_entries
unfolding int_to_string count_digits
burst_length = refl

create-read_all_example :
    iscsi_connection_parameter_create parameters burst_text 36
    ≡ read_all burst_entries (fresh parameters burst_text 36)
create-read_all_example =
    create-read_all parameters burst_text 36 (number Keys.max_burst_length 512)
      (number Keys.max_connections 1 ∷ [])
      (
        number-IsReadable Keys.max_burst_length 512 (omega arith) refl refl,
        (number-IsReadable Keys.max_connections 1 (omega arith) refl refl, tt),
      )
      (texts-AllStand burst_entries burst_text 0 36 burst_spelled) burst_length (omega arith)

parameters-IsSettled : IsSettled parameters
parameters-IsSettled = record {
  connections = omega arith;
  in_turn = refl;
  immediate = refl;
  burst = omega arith;
  first_burst = omega arith;
  pdu_order = refl;
  sequence_order = refl;
  wait = omega arith;
  retain = omega arith;
  outstanding = omega arith;
}

generate-create_example :
    (q : Parameter) × (iscsi_connection_parameter_generate_operational_data parameters ≡ ok q)
    × ((r : Parameter)
        → (after : Parameter) × (iscsi_connection_parameter_create r q.buffer q.length ≡ ok after)
          × Agrees parameters after)
generate-create_example = generate-create parameters parameters-IsSettled
