-- ===== src/Parameter/Settled.antt =====
-- iscsi_connection_parameter.c: reading a printed value within the limits of its key.
use iscsi.Prelude.{sym, ◌∙◌, ℕ, ◌^◌, ◌≤◌, ◌<◌, ◌≡◌, refl, ap, arith, Bool, true, false, ◌||◌}
use iscsi.Prelude.Word.{IsPositive}
use iscsi.Prelude.Memory.{Memory, c_string}
use iscsi.Prelude.Outcome.{ok}
use iscsi.Utility.{min, max, string_to_int}
use iscsi.Utility.Decimal.{string_to_int-int_to_string}
use iscsi.State.{Parameter}
use iscsi.Parameter.Keys
use iscsi.Parameter.Keys.{key_equal, bool_to_string}
use iscsi.Parameter.Update.{text_size, digits, update_information, set_number, set_boolean}

-- Parameters within the limits, which are natural numbers.
pub record IsSettled (p : Parameter) : Type 0 where
  pub connections : p.max_connections ≤ 1
  pub in_turn : p.initial_r2t ≡ true
  pub immediate : p.immediate_data ≡ true
  pub burst : p.max_burst_length ≤ 8192
  pub first_burst : p.first_burst_length ≤ 8192
  pub pdu_order : p.data_pdu_in_order ≡ true
  pub sequence_order : p.data_sequence_in_order ≡ true
  pub wait : (10 ≤ p.default_time_2_wait) × IsPositive p.default_time_2_wait
  pub retain : (10 ≤ p.default_time_2_retain) × IsPositive p.default_time_2_retain
  pub outstanding : p.max_outstanding_r2t ≤ 10

read-digits : (v : ℕ) → IsPositive v → string_to_int text_size (digits v) ≡ ok v
read-digits v small = string_to_int-int_to_string (λ _. 0) v text_size small (omega arith)

or_true : (b : Bool) → (b || true) ≡ true
or_true false = refl
or_true true = refl

min-same : (v limit : ℕ) → v ≤ limit → limit < 2 ^ 31 → min v limit ≡ v
unfolding min
min-same v limit h small = ground arith

max-same : (v limit : ℕ) → limit ≤ v → IsPositive v → max v limit ≡ v
unfolding max
max-same v limit h small = ground arith

pub max_connections-sets :
    (p : Parameter) (v : ℕ)
    → v ≤ 1
    → update_information p (c_string Keys.max_connections) (digits v)
      ≡ ok (record p { max_connections = v })
unfolding update_information set_number set_boolean key_equal
max_connections-sets p v h =
    rw (read-digits v (omega arith))
      (ap (λ n. ok (record p { max_connections = n })) (min-same v 1 h (omega arith)))

pub max_burst_length-sets :
    (p : Parameter) (v : ℕ)
    → v ≤ 8192
    → update_information p (c_string Keys.max_burst_length) (digits v)
      ≡ ok (record p { max_burst_length = v })
unfolding update_information set_number set_boolean key_equal
max_burst_length-sets p v h =
    rw (read-digits v (omega arith))
      (ap (λ n. ok (record p { max_burst_length = n })) (min-same v 8192 h (omega arith)))

pub first_burst_length-sets :
    (p : Parameter) (v : ℕ)
    → v ≤ 8192
    → update_information p (c_string Keys.first_burst_length) (digits v)
      ≡ ok (record p { first_burst_length = v })
unfolding update_information set_number set_boolean key_equal
first_burst_length-sets p v h =
    rw (read-digits v (omega arith))
      (ap (λ n. ok (record p { first_burst_length = n })) (min-same v 8192 h (omega arith)))

pub max_outstanding_r2t-sets :
    (p : Parameter) (v : ℕ)
    → v ≤ 10
    → update_information p (c_string Keys.max_outstanding_r2t) (digits v)
      ≡ ok (record p { max_outstanding_r2t = v })
unfolding update_information set_number set_boolean key_equal
max_outstanding_r2t-sets p v h =
    rw (read-digits v (omega arith))
      (ap (λ n. ok (record p { max_outstanding_r2t = n })) (min-same v 10 h (omega arith)))

pub default_time_2_wait-sets :
    (p : Parameter) (v : ℕ)
    → 10 ≤ v
    → IsPositive v
    → update_information p (c_string Keys.default_time_2_wait) (digits v)
      ≡ ok (record p { default_time_2_wait = v })
unfolding update_information set_number set_boolean key_equal
default_time_2_wait-sets p v h small =
    rw (read-digits v small)
      (ap (λ n. ok (record p { default_time_2_wait = n })) (max-same v 10 h small))

pub default_time_2_retain-sets :
    (p : Parameter) (v : ℕ)
    → 10 ≤ v
    → IsPositive v
    → update_information p (c_string Keys.default_time_2_retain) (digits v)
      ≡ ok (record p { default_time_2_retain = v })
unfolding update_information set_number set_boolean key_equal
default_time_2_retain-sets p v h small =
    rw (read-digits v small)
      (ap (λ n. ok (record p { default_time_2_retain = n })) (max-same v 10 h small))

pub initial_r2t-sets :
    (p : Parameter) (value : Memory)
    → update_information p (c_string Keys.initial_r2t) value ≡ ok (record p { initial_r2t = true })
unfolding update_information set_number set_boolean key_equal
initial_r2t-sets p value = ap (λ b. ok (record p { initial_r2t = b })) (or_true _)

pub immediate_data-sets :
    (p : Parameter) (value : Memory)
    → update_information p (c_string Keys.immediate_data) value
      ≡ ok (record p { immediate_data = true })
unfolding update_information set_number set_boolean key_equal
immediate_data-sets p value = ap (λ b. ok (record p { immediate_data = b })) (or_true _)

pub data_pdu_in_order-sets :
    (p : Parameter) (value : Memory)
    → update_information p (c_string Keys.data_pdu_in_order) value
      ≡ ok (record p { data_pdu_in_order = true })
unfolding update_information set_number set_boolean key_equal
data_pdu_in_order-sets p value = ap (λ b. ok (record p { data_pdu_in_order = b })) (or_true _)

pub data_sequence_in_order-sets :
    (p : Parameter) (value : Memory)
    → update_information p (c_string Keys.data_sequence_in_order) value
      ≡ ok (record p { data_sequence_in_order = true })
unfolding update_information set_number set_boolean key_equal
data_sequence_in_order-sets p value =
    ap (λ b. ok (record p { data_sequence_in_order = b })) (or_true _)

pub initial_r2t-keeps :
    (p : Parameter) (value : Memory)
    → p.initial_r2t ≡ true
    → update_information p (c_string Keys.initial_r2t) value ≡ ok p
initial_r2t-keeps p value h =
    initial_r2t-sets p value ∙ ap (λ b. ok (record p { initial_r2t = b })) (sym h)

pub immediate_data-keeps :
    (p : Parameter) (value : Memory)
    → p.immediate_data ≡ true
    → update_information p (c_string Keys.immediate_data) value ≡ ok p
immediate_data-keeps p value h =
    immediate_data-sets p value ∙ ap (λ b. ok (record p { immediate_data = b })) (sym h)

pub data_pdu_in_order-keeps :
    (p : Parameter) (value : Memory)
    → p.data_pdu_in_order ≡ true
    → update_information p (c_string Keys.data_pdu_in_order) value ≡ ok p
data_pdu_in_order-keeps p value h =
    data_pdu_in_order-sets p value ∙ ap (λ b. ok (record p { data_pdu_in_order = b })) (sym h)

pub data_sequence_in_order-keeps :
    (p : Parameter) (value : Memory)
    → p.data_sequence_in_order ≡ true
    → update_information p (c_string Keys.data_sequence_in_order) value ≡ ok p
data_sequence_in_order-keeps p value h =
    data_sequence_in_order-sets p value
    ∙ ap (λ b. ok (record p { data_sequence_in_order = b })) (sym h)
