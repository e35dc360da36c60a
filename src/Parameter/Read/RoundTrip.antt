-- ===== src/Parameter/Read/RoundTrip.antt =====
-- iscsi_connection_parameter.c: the parameters that are printed are read back.
use iscsi.Prelude.{
  ℕ, ◌<◌, ◌≡◌, ◌≢◌, refl, sym, ap, ◌∙◌, arith, Bool, true, not, ◌&&◌, List, [], ◌∷◌, ◌==◌, length,
  zero, suc,
}
use iscsi.Prelude.Memory.{c_string, length-bytes}
use iscsi.Prelude.Outcome.{ok}
use iscsi.Utility.Digits.{digits_inside}
use iscsi.State.{Parameter}
use iscsi.Parameter.Keys
use iscsi.Parameter.Keys.{bool_to_string}
use iscsi.Parameter.Update.{
  iscsi_connection_parameter_create, iscsi_connection_parameter_generate_operational_data,
  update_information,
}
use iscsi.Parameter.Entry.{Entry}
use iscsi.Parameter.Settled.{
  IsSettled, max_connections-sets, initial_r2t-sets, immediate_data-sets, max_burst_length-sets,
  first_burst_length-sets, data_pdu_in_order-sets, data_sequence_in_order-sets,
  default_time_2_wait-sets, default_time_2_retain-sets, max_outstanding_r2t-sets,
}
use iscsi.Parameter.Same.{no_nul}
use iscsi.Parameter.Generated.{Prints, generate-Prints}
use iscsi.Parameter.Printed.{number, flag, entries, number-IsEntry, flag-IsEntry, c_string-IsText}
use iscsi.Parameter.Read.{IsReadable, AreReadable, total_length, read_all}
use iscsi.Parameter.Read.Create.{fresh, create-read_all}
use iscsi.Parameter.Read.Texts.{texts-AllStand, length-texts}

-- Whether no character is =.
abbrev no_equals : List ℕ → Bool
no_equals [] = true
no_equals (c ∷ s) = not (c == b'=') && no_equals s

key_plain : (s : List ℕ) → no_equals s ≡ true → (j : ℕ) → j < length s → c_string s j ≢ b'='
key_plain [] h j lt = absurd (omega arith)
key_plain (c ∷ s) h zero lt = ground (arith, h)
key_plain (c ∷ s) h (suc j) lt = key_plain s (ground (arith, h)) j (omega arith)

pub number-IsReadable :
    (key : List ℕ) (v : ℕ)
    → 0 < length key
    → no_nul key ≡ true
    → no_equals key ≡ true
    → IsReadable (number key v)
number-IsReadable key v named full plain = record {
  entry = number-IsEntry key v (c_string-IsText key full);
  named = named;
  key_plain = key_plain key plain;
  value_plain = λ j lt. let digit = digits_inside (λ _. 0) v j lt in omega arith;
}

flag-IsReadable :
    (key : List ℕ)
    → 0 < length key
    → no_nul key ≡ true
    → no_equals key ≡ true
    → IsReadable (flag key)
unfolding bool_to_string
flag-IsReadable key named full plain = record {
  entry = flag-IsEntry key (c_string-IsText key full);
  named = named;
  key_plain = key_plain key plain;
  value_plain = λ j lt. ground arith;
}

entries-AreReadable : (p : Parameter) → AreReadable (entries p)
entries-AreReadable p = (
  number-IsReadable Keys.max_connections p.max_connections (omega arith) refl refl,
  (
    flag-IsReadable Keys.initial_r2t (omega arith) refl refl,
    (
      flag-IsReadable Keys.immediate_data (omega arith) refl refl,
      (
        number-IsReadable Keys.max_burst_length p.max_burst_length (omega arith) refl refl,
        (
          number-IsReadable Keys.first_burst_length p.first_burst_length (omega arith) refl refl,
          (
            flag-IsReadable Keys.data_pdu_in_order (omega arith) refl refl,
            (
              flag-IsReadable Keys.data_sequence_in_order (omega arith) refl refl,
              (
                number-IsReadable Keys.default_time_2_wait p.default_time_2_wait (omega arith) refl
                    refl,
                (
                  number-IsReadable Keys.default_time_2_retain p.default_time_2_retain (omega arith)
                      refl refl,
                  (
                    number-IsReadable Keys.max_outstanding_r2t p.max_outstanding_r2t (omega arith)
                        refl refl,
                    (tt),
                  ),
                ),
              ),
            ),
          ),
        ),
      ),
    ),
  ),
)

-- What a text negotiates: everything but the largest segment.
pub record Agrees (p q : Parameter) : Type 0 where
  pub connections : q.max_connections ≡ p.max_connections
  pub r2t : q.initial_r2t ≡ p.initial_r2t
  pub immediate : q.immediate_data ≡ p.immediate_data
  pub burst : q.max_burst_length ≡ p.max_burst_length
  pub first_burst : q.first_burst_length ≡ p.first_burst_length
  pub pdu_order : q.data_pdu_in_order ≡ p.data_pdu_in_order
  pub sequence_order : q.data_sequence_in_order ≡ p.data_sequence_in_order
  pub wait : q.default_time_2_wait ≡ p.default_time_2_wait
  pub retain : q.default_time_2_retain ≡ p.default_time_2_retain
  pub outstanding : q.max_outstanding_r2t ≡ p.max_outstanding_r2t

-- The parameters with what the entries say.
abbrev with_settings : Parameter → Parameter → Parameter
with_settings p r = record r {
  max_connections = p.max_connections;
  initial_r2t = true;
  immediate_data = true;
  max_burst_length = p.max_burst_length;
  first_burst_length = p.first_burst_length;
  data_pdu_in_order = true;
  data_sequence_in_order = true;
  default_time_2_wait = p.default_time_2_wait;
  default_time_2_retain = p.default_time_2_retain;
  max_outstanding_r2t = p.max_outstanding_r2t;
}

read_one :
    (e : Entry) (es : List Entry) (q next last : Parameter)
    → update_information q (c_string e.key) e.value ≡ ok next
    → read_all es next ≡ ok last
    → read_all (e ∷ es) q ≡ ok last
unfolding read_all
read_one e es q next last h k = rw h k

read_none : (q : Parameter) → read_all [] q ≡ ok q
unfolding read_all
read_none q = refl

read-entries : (p r : Parameter) → IsSettled p → read_all (entries p) r ≡ ok (with_settings p r)
read-entries p r s =
    let q1 = record r { max_connections = p.max_connections } in
    let q2 = record q1 { initial_r2t = true } in
    let q3 = record q2 { immediate_data = true } in
    let q4 = record q3 { max_burst_length = p.max_burst_length } in
    let q5 = record q4 { first_burst_length = p.first_burst_length } in
    let q6 = record q5 { data_pdu_in_order = true } in
    let q7 = record q6 { data_sequence_in_order = true } in
    let q8 = record q7 { default_time_2_wait = p.default_time_2_wait } in
    let q9 = record q8 { default_time_2_retain = p.default_time_2_retain } in
    let q10 = record q9 { max_outstanding_r2t = p.max_outstanding_r2t } in
    read_one _ _ r q1 q10 (max_connections-sets r p.max_connections s.connections) (
      read_one _ _ q1 q2 q10 (initial_r2t-sets q1 (bool_to_string true)) (
        read_one _ _ q2 q3 q10 (immediate_data-sets q2 (bool_to_string true)) (
          read_one _ _ q3 q4 q10 (max_burst_length-sets q3 p.max_burst_length s.burst) (
            read_one _ _ q4 q5 q10 (first_burst_length-sets q4 p.first_burst_length s.first_burst) (
              read_one _ _ q5 q6 q10 (data_pdu_in_order-sets q5 (bool_to_string true)) (
                read_one _ _ q6 q7 q10 (data_sequence_in_order-sets q6 (bool_to_string true)) (
                  read_one _ _ q7 q8 q10
                    (default_time_2_wait-sets q7 p.default_time_2_wait s.wait.0 s.wait.1)
                    (read_one _ _ q8 q9 q10
                      (default_time_2_retain-sets q8 p.default_time_2_retain s.retain.0 s.retain.1)
                      (read_one _ _ q9 q10 q10
                        (max_outstanding_r2t-sets q9 p.max_outstanding_r2t s.outstanding)
                        (read_none q10))))))))))

settings-Agrees : (p r : Parameter) → IsSettled p → Agrees p (with_settings p r)
settings-Agrees p r s = record {
  connections = refl;
  r2t = sym s.in_turn;
  immediate = sym s.immediate;
  burst = refl;
  first_burst = refl;
  pdu_order = sym s.pdu_order;
  sequence_order = sym s.sequence_order;
  wait = refl;
  retain = refl;
  outstanding = refl;
}

printed-read :
    (p q r : Parameter)
    → IsSettled p
    → Prints p q
    → (after : Parameter) × (iscsi_connection_parameter_create r q.buffer q.length ≡ ok after)
      × Agrees p after
printed-read p q r s h =
    let short = h.short in
    let size : q.length ≡ total_length (entries p) =
      sym (length-bytes q.buffer 0 q.length) ∙ ap length h.spelled ∙ length-texts (entries p) in
    (
      with_settings p (fresh r q.buffer q.length),
      create-read_all r q.buffer q.length _ _ (entries-AreReadable p)
            (texts-AllStand (entries p) q.buffer 0 q.length h.spelled) size (omega arith)
          ∙ read-entries p (fresh r q.buffer q.length) s,
      settings-Agrees p (fresh r q.buffer q.length) s,
    )

-- Parameters within the limits are read back from the text that they are printed as:
-- `iscsi_connection_parameter_generate_operational_data` returns, and for what it leaves in the
-- buffer `iscsi_connection_parameter_create` returns too, whatever parameters it starts from, with
-- the ten settings that were printed.
pub generate-create :
    (p : Parameter)
    → IsSettled p
    → (q : Parameter) × (iscsi_connection_parameter_generate_operational_data p ≡ ok q)
      × ((r : Parameter)
          → (after : Parameter) × (iscsi_connection_parameter_create r q.buffer q.length ≡ ok after)
            × Agrees p after)
generate-create p s =
    let (q, prints, is) = generate-Prints p s in (q, prints, λ r. printed-read p q r s is)
