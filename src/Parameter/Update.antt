-- ===== src/Parameter/Update.antt =====
-- iscsi_connection_parameter.c: the operations that read a text into the parameters and write the
-- parameters out as a text.
use iscsi.Prelude.{ℕ, zero, suc, ◌+◌, ◌-◌, Bool, true, ◌||◌, List, ◌==◌, if◌then◌else◌}
use iscsi.Prelude.Word.{add, slt}
use iscsi.Prelude.Memory.{Memory, from, poke, memcpy, c_string}
use iscsi.Prelude.Text.{codes}
use iscsi.Prelude.Outcome.{Outcome, ok, fault, out_of_bounds, ◌>>=◌}
use iscsi.Utility.{min, max, string_to_int, int_to_string}
use iscsi.Buffer.{iscsi_buffer_size}
use iscsi.State.{Parameter}
use iscsi.Parameter.Keys
use iscsi.Parameter.Keys.{key_equal, bool_to_string, set_default_parameter, parameter_buffer_size}

-- A value stands in the receive buffer or in a text of the program; no array is larger.
abbrev pub text_size : ℕ
text_size = iscsi_buffer_size

-- `if (key_equal(key, KEY)) parameter->field = choose(string_to_int(value), limit)`
unfoldable pub set_number :
    Memory → Memory → List ℕ → (ℕ → Parameter → Parameter) → Parameter → Outcome Parameter
set_number key value name assign p =
    if key_equal key name then (string_to_int text_size value >>= λ v. ok (assign v p)) else ok p

-- `if (key_equal(key, KEY)) parameter->field = key_equal(value, "Yes") || limit`
unfoldable pub set_boolean :
    Memory → Memory → List ℕ → (Bool → Parameter → Parameter) → Parameter → Parameter
set_boolean key value name assign p =
    if key_equal key name then assign (key_equal value (codes "Yes")) p else p

unfoldable pub update_information : Parameter → Memory → Memory → Outcome Parameter
update_information p key value = do
  p ←
      set_number key value Keys.max_receive_data_segment
        (λ v q. record q { max_receive_data_segment_length = min v (parameter_buffer_size - 1000) })
        p
  p ← set_number key value Keys.max_connections (λ v q. record q { max_connections = min v 1 }) p
  let p = set_boolean key value Keys.initial_r2t (λ yes q. record q { initial_r2t = yes || true }) p
  let p =
      set_boolean key value Keys.immediate_data (λ yes q. record q { immediate_data = yes || true })
        p
  p ←
      set_number key value Keys.max_burst_length (λ v q. record q { max_burst_length = min v 8192 })
        p
  p ←
      set_number key value Keys.first_burst_length
        (λ v q. record q { first_burst_length = min v 8192 }) p
  let p =
      set_boolean key value Keys.data_pdu_in_order
        (λ yes q. record q { data_pdu_in_order = yes || true }) p
  let p =
      set_boolean key value Keys.data_sequence_in_order
        (λ yes q. record q { data_sequence_in_order = yes || true }) p
  p ←
      set_number key value Keys.default_time_2_wait
        (λ v q. record q { default_time_2_wait = max v 10 }) p
  p ←
      set_number key value Keys.default_time_2_retain
        (λ v q. record q { default_time_2_retain = max v 10 }) p
  set_number key value Keys.max_outstanding_r2t (λ v q. record q { max_outstanding_r2t = min v 10 })
      p

-- `strlen`: a text with no NUL runs off the end of its array.
unfoldable pub strlen : ℕ → Memory → ℕ → Outcome ℕ
strlen zero s i = fault out_of_bounds
strlen (suc fuel) s i = let rest = strlen fuel s (suc i) in if s i == 0 then ok i else rest

unfoldable pub iscsi_connection_parameter_write : Parameter → Memory → Outcome Parameter
iscsi_connection_parameter_write p source = do
  n ← strlen text_size source 0
  ok (record p { buffer = memcpy p.buffer p.length source n; length = add p.length n })

unfoldable pub iscsi_connection_parameter_update : Parameter → Memory → Memory → Outcome Parameter
iscsi_connection_parameter_update p key value = do
  p ← iscsi_connection_parameter_write p key
  p ← iscsi_connection_parameter_write p (c_string (codes "="))
  p ← iscsi_connection_parameter_write p value
  let ended = record p { buffer = poke p.buffer p.length 0; length = add p.length 1 }
  update_information ended key value

-- The static array of `int_to_string`. What it held does not matter (Utility.Decimal).
abbrev pub digits : ℕ → Memory
digits = int_to_string (λ _. 0)

unfoldable pub iscsi_connection_parameter_generate_operational_data : Parameter → Outcome Parameter
iscsi_connection_parameter_generate_operational_data p = do
  let update = λ (q : Parameter) (key : List ℕ) (value : Memory).
      iscsi_connection_parameter_update q (c_string key) value
  p ← update (record p { length = 0 }) Keys.max_connections (digits p.max_connections)
  p ← update p Keys.initial_r2t (bool_to_string p.initial_r2t)
  p ← update p Keys.immediate_data (bool_to_string p.immediate_data)
  p ← update p Keys.max_burst_length (digits p.max_burst_length)
  p ← update p Keys.first_burst_length (digits p.first_burst_length)
  p ← update p Keys.data_pdu_in_order (bool_to_string p.data_pdu_in_order)
  p ← update p Keys.data_sequence_in_order (bool_to_string p.data_sequence_in_order)
  p ← update p Keys.default_time_2_wait (digits p.default_time_2_wait)
  p ← update p Keys.default_time_2_retain (digits p.default_time_2_retain)
  update p Keys.max_outstanding_r2t (digits p.max_outstanding_r2t)

-- `for (i = 1; i < length; ++i)`, from `i` on with the rounds that are left. `text` is `data`, and
-- `data[i]` is 0 only while `update_information` runs.
unfoldable pub create_loop : ℕ → ℕ → ℕ → Memory → Parameter → Outcome Parameter
create_loop zero i key text p = ok p
create_loop (suc rounds) i key text p =
    let key = if text (i - 1) == 0 then i else key in
    let next =
      if text i == b'='
      then update_information p (from (poke text i 0) key) (from (poke text i 0) (i + 1))
      else ok p in
    next >>= λ q. create_loop rounds (suc i) key text q

unfoldable pub iscsi_connection_parameter_create : Parameter → Memory → ℕ → Outcome Parameter
iscsi_connection_parameter_create p text n =
    let used = if slt parameter_buffer_size n then parameter_buffer_size else n in
    let copied = record p { buffer = memcpy p.buffer 0 text used; length = used } in
    create_loop (used - 1) 1 0 text (set_default_parameter copied)
