-- ===== src/Parameter/Generated.antt =====
-- iscsi_connection_parameter.c: what `iscsi_connection_parameter_generate_operational_data` leaves.
use iscsi.Prelude.{Bool, ℕ, ◌+◌, ◌≤◌, ◌<◌, ◌≡◌, refl, ap, ◌∙◌, arith, true, List, length}
use iscsi.Prelude.Memory.{c_string}
use iscsi.Prelude.Outcome.{ok}
use iscsi.Utility.Digits.{text_length-le}
use iscsi.State.{Parameter}
use iscsi.Parameter.Keys
use iscsi.Parameter.Keys.{bool_to_string}
use iscsi.Parameter.Update.{
  text_size, digits, update_information, iscsi_connection_parameter_update,
  iscsi_connection_parameter_generate_operational_data,
}
use iscsi.Parameter.Entry.{ended, update-eq, text_of}
use iscsi.Parameter.Same.{no_nul}
use iscsi.Parameter.Settled.{
  IsSettled, max_connections-sets, initial_r2t-keeps, immediate_data-keeps, max_burst_length-sets,
  first_burst_length-sets, data_pdu_in_order-keeps, data_sequence_in_order-keeps,
  default_time_2_wait-sets, default_time_2_retain-sets, max_outstanding_r2t-sets,
}
use iscsi.Parameter.Printed.{
  number, flag, entries, with_entries, texts, text_of-with_entries, number-IsEntry, flag-IsEntry,
  c_string-IsText,
}

-- The entries one after the other.
generate_chain :
    (p q1 q2 q3 q4 q5 q6 q7 q8 q9 q10 : Parameter)
    → iscsi_connection_parameter_update
        (record p { length = 0 })
        (c_string Keys.max_connections)
        (digits p.max_connections)
      ≡ ok q1
    → iscsi_connection_parameter_update q1
        (c_string Keys.initial_r2t)
        (bool_to_string q1.initial_r2t)
      ≡ ok q2
    → iscsi_connection_parameter_update q2
        (c_string Keys.immediate_data)
        (bool_to_string q2.immediate_data)
      ≡ ok q3
    → iscsi_connection_parameter_update q3
        (c_string Keys.max_burst_length)
        (digits q3.max_burst_length)
      ≡ ok q4
    → iscsi_connection_parameter_update q4
        (c_string Keys.first_burst_length)
        (digits q4.first_burst_length)
      ≡ ok q5
    → iscsi_connection_parameter_update q5
        (c_string Keys.data_pdu_in_order)
        (bool_to_string q5.data_pdu_in_order)
      ≡ ok q6
    → iscsi_connection_parameter_update q6
        (c_string Keys.data_sequence_in_order)
        (bool_to_string q6.data_sequence_in_order)
      ≡ ok q7
    → iscsi_connection_parameter_update q7
        (c_string Keys.default_time_2_wait)
        (digits q7.default_time_2_wait)
      ≡ ok q8
    → iscsi_connection_parameter_update q8
        (c_string Keys.default_time_2_retain)
        (digits q8.default_time_2_retain)
      ≡ ok q9
    → iscsi_connection_parameter_update q9
        (c_string Keys.max_outstanding_r2t)
        (digits q9.max_outstanding_r2t)
      ≡ ok q10
    → iscsi_connection_parameter_generate_operational_data p ≡ ok q10
unfolding iscsi_connection_parameter_generate_operational_data
generate_chain p q1 q2 q3 q4 q5 q6 q7 q8 q9 q10 e1 e2 e3 e4 e5 e6 e7 e8 e9 e10 =
    rw (e1, e2, e3, e4, e5, e6, e7, e8, e9, e10) refl

module _ (q : Parameter) (key : List ℕ) (plain : no_nul key ≡ true) where
  -- Writing a number and reading it back, where this keeps the parameters.
  number_step :
      (v : ℕ)
      → q.length + length key + 12 < text_size
      → update_information (ended q (number key v)) (c_string key) (digits v)
        ≡ ok (ended q (number key v))
      → iscsi_connection_parameter_update q (c_string key) (digits v) ≡ ok (ended q (number key v))
  number_step v room keeps =
      let small = text_length-le v in
      update-eq q (number key v) (number-IsEntry key v (c_string-IsText key plain)) (omega arith)
      ∙ keeps

  flag_step :
      (b : Bool)
      → b ≡ true
      → q.length + length key + 5 < text_size
      → update_information (ended q (flag key)) (c_string key) (bool_to_string true)
        ≡ ok (ended q (flag key))
      → iscsi_connection_parameter_update q (c_string key) (bool_to_string b)
        ≡ ok (ended q (flag key))
  flag_step b set room keeps =
      ap (λ c. iscsi_connection_parameter_update q (c_string key) (bool_to_string c)) set
      ∙ update-eq q (flag key) (flag-IsEntry key (c_string-IsText key plain)) (omega arith)
      ∙ keeps

generate-eq :
    (p : Parameter)
    → IsSettled p
    → iscsi_connection_parameter_generate_operational_data p
      ≡ ok (with_entries (record p { length = 0 }) (entries p))
generate-eq p s =
    let q0 = record p { length = 0 } in
    let l_max_connections = text_length-le p.max_connections in
    let l_max_burst_length = text_length-le p.max_burst_length in
    let l_first_burst_length = text_length-le p.first_burst_length in
    let l_default_time_2_wait = text_length-le p.default_time_2_wait in
    let l_default_time_2_retain = text_length-le p.default_time_2_retain in
    let l_max_outstanding_r2t = text_length-le p.max_outstanding_r2t in
    let q1 = ended q0 (number Keys.max_connections p.max_connections) in
    let q2 = ended q1 (flag Keys.initial_r2t) in
    let q3 = ended q2 (flag Keys.immediate_data) in
    let q4 = ended q3 (number Keys.max_burst_length p.max_burst_length) in
    let q5 = ended q4 (number Keys.first_burst_length p.first_burst_length) in
    let q6 = ended q5 (flag Keys.data_pdu_in_order) in
    let q7 = ended q6 (flag Keys.data_sequence_in_order) in
    let q8 = ended q7 (number Keys.default_time_2_wait p.default_time_2_wait) in
    let q9 = ended q8 (number Keys.default_time_2_retain p.default_time_2_retain) in
    let q10 = ended q9 (number Keys.max_outstanding_r2t p.max_outstanding_r2t) in
    generate_chain p q1 q2 q3 q4 q5 q6 q7 q8 q9 q10
      (number_step q0 Keys.max_connections refl p.max_connections (omega arith)
        (max_connections-sets q1 p.max_connections s.connections))
      (flag_step q1 Keys.initial_r2t refl p.initial_r2t s.in_turn (omega arith)
        (initial_r2t-keeps q2 (bool_to_string true) s.in_turn))
      (flag_step q2 Keys.immediate_data refl p.immediate_data s.immediate (omega arith)
        (immediate_data-keeps q3 (bool_to_string true) s.immediate))
      (number_step q3 Keys.max_burst_length refl p.max_burst_length (omega arith)
        (max_burst_length-sets q4 p.max_burst_length s.burst))
      (number_step q4 Keys.first_burst_length refl p.first_burst_length (omega arith)
        (first_burst_length-sets q5 p.first_burst_length s.first_burst))
      (flag_step q5 Keys.data_pdu_in_order refl p.data_pdu_in_order s.pdu_order (omega arith)
        (data_pdu_in_order-keeps q6 (bool_to_string true) s.pdu_order))
      (flag_step q6 Keys.data_sequence_in_order refl p.data_sequence_in_order s.sequence_order
        (omega arith) (data_sequence_in_order-keeps q7 (bool_to_string true) s.sequence_order))
      (number_step q7 Keys.default_time_2_wait refl p.default_time_2_wait (omega arith)
        (default_time_2_wait-sets q8 p.default_time_2_wait s.wait.0 s.wait.1))
      (number_step q8 Keys.default_time_2_retain refl p.default_time_2_retain (omega arith)
        (default_time_2_retain-sets q9 p.default_time_2_retain s.retain.0 s.retain.1))
      (number_step q9 Keys.max_outstanding_r2t refl p.max_outstanding_r2t (omega arith)
        (max_outstanding_r2t-sets q10 p.max_outstanding_r2t s.outstanding))

-- The text has at most 512 characters.
generate-bound : (p : Parameter) → (with_entries (record p { length = 0 }) (entries p)).length ≤ 512
generate-bound p =
    let a = text_length-le p.max_connections in
    let b = text_length-le p.max_burst_length in
    let c = text_length-le p.first_burst_length in
    let d = text_length-le p.default_time_2_wait in
    let e = text_length-le p.default_time_2_retain in
    let f = text_length-le p.max_outstanding_r2t in omega arith

-- The parameters with a text of theirs: nothing but the text is changed, and it is the entries.
pub record Prints (p q : Parameter) : Type 0 where
  pub same : q ≡ record p { buffer = q.buffer; length = q.length }
  pub spelled : text_of q ≡ texts (entries p)
  pub short : q.length ≤ 512

-- For parameters within the limits, which are natural numbers,
-- `iscsi_connection_parameter_generate_operational_data` returns: the text is then, whatever stood
-- there before, one entry key=value for each of ten keys in their order, with the decimal digits of
-- the number or with YES, each ended by a NUL, in all at most 512 characters; and the parameters
-- are as before, though each entry is read back while it is written.
pub generate-Prints :
    (p : Parameter)
    → IsSettled p
    → (q : Parameter) × (iscsi_connection_parameter_generate_operational_data p ≡ ok q) × Prints p q
generate-Prints p s = (
  with_entries (record p { length = 0 }) (entries p),
  generate-eq p s,
  record {
    same = refl;
    spelled = text_of-with_entries (record p { length = 0 }) (entries p);
    short = generate-bound p;
  },
)
