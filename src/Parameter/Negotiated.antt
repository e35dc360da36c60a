-- ===== src/Parameter/Negotiated.antt =====
-- iscsi_connection_parameter.c: whatever a login sends, the parameters stay within the limits of
-- iscsi_define.h.
use iscsi.Prelude.{
  ℕ, zero, suc, ◌+◌, ◌-◌, ◌≡◌, arith, Bool, true, false, ◌||◌, List, if◌then◌else◌, Bool-cases, inl,
  inr, ◌==◌,
}
use iscsi.Prelude.Word.{slt}
use iscsi.Prelude.Memory.{Memory, from, poke}
use iscsi.Prelude.Outcome.{Outcome, ok, Always, Always-bind, Always-Unit, ◌>>=◌}
use iscsi.Utility.{min, max, string_to_int}
use iscsi.State.{Parameter}
use iscsi.Parameter.Keys
use iscsi.Parameter.Keys.{key_equal, set_default_parameter, parameter_buffer_size}
use iscsi.Parameter.Update.{
  text_size, set_number, set_boolean, update_information, create_loop,
  iscsi_connection_parameter_create,
}

-- a ≤ b on signed numbers
abbrev pub AtMost : ℕ → ℕ → Type 0
AtMost a b = slt b a ≡ false

pub record IsNegotiated (p : Parameter) : Type 0 where
  pub receive : AtMost p.max_receive_data_segment_length parameter_buffer_size
  pub connections : AtMost p.max_connections 1
  pub r2t : p.initial_r2t ≡ true
  pub immediate : p.immediate_data ≡ true
  pub burst : AtMost p.max_burst_length 8192
  pub first_burst : AtMost p.first_burst_length 8192
  pub pdu_order : p.data_pdu_in_order ≡ true
  pub sequence_order : p.data_sequence_in_order ≡ true
  pub wait : AtMost 10 p.default_time_2_wait
  pub retain : AtMost 10 p.default_time_2_retain
  pub outstanding : AtMost p.max_outstanding_r2t 10

min-AtMost : (a b : ℕ) → AtMost (min a b) b
unfolding min
min-AtMost a b = elim (Bool-cases (slt a b)) [
  | inl h ↦ rw h (ground arith)
  | inr h ↦ rw h (ground arith)
]

max-AtMost : (a b : ℕ) → AtMost b (max a b)
unfolding max
max-AtMost a b = elim (Bool-cases (slt b a)) [
  | inl h ↦ rw h (ground arith)
  | inr h ↦ rw h (ground arith)
]

module _ {ℓ} (P : Parameter → Type ℓ) (key value : Memory) (name : List ℕ) (p : Parameter) where
  set_number-Always :
      (assign : ℕ → Parameter → Parameter)
      → ((v : ℕ) → P (assign v p))
      → P p
      → Always P (set_number key value name assign p)
  unfolding set_number
  set_number-Always assign keeps h = elim (Bool-cases (key_equal key name)) [
    | inl e ↦ rw e (
        Always-bind (λ _. Unit {0}) P (string_to_int text_size value) (λ v. ok (assign v p))
          (Always-Unit (string_to_int text_size value)) λ v _. keeps v)
    | inr e ↦ rw e h
  ]

  set_boolean-keeps :
      (assign : Bool → Parameter → Parameter)
      → ((yes : Bool) → P (assign yes p))
      → P p
      → P (set_boolean key value name assign p)
  unfolding set_boolean
  set_boolean-keeps assign keeps h = elim (Bool-cases (key_equal key name)) [
    | inl e ↦ rw e (keeps _)
    | inr e ↦ rw e h
  ]

-- What each field is given keeps the limits.
module _ {q : Parameter} (h : IsNegotiated q) (v : ℕ) (yes : Bool) where
  keeps_receive :
      IsNegotiated
        (record q { max_receive_data_segment_length = min v (parameter_buffer_size - 1000) })
  keeps_receive = ground (arith, min-AtMost v (parameter_buffer_size - 1000))

  keeps_connections : IsNegotiated (record q { max_connections = min v 1 })
  keeps_connections = ground (arith, min-AtMost v 1)

  keeps_burst : IsNegotiated (record q { max_burst_length = min v 8192 })
  keeps_burst = ground (arith, min-AtMost v 8192)

  keeps_first_burst : IsNegotiated (record q { first_burst_length = min v 8192 })
  keeps_first_burst = ground (arith, min-AtMost v 8192)

  keeps_wait : IsNegotiated (record q { default_time_2_wait = max v 10 })
  keeps_wait = ground (arith, max-AtMost v 10)

  keeps_retain : IsNegotiated (record q { default_time_2_retain = max v 10 })
  keeps_retain = ground (arith, max-AtMost v 10)

  keeps_outstanding : IsNegotiated (record q { max_outstanding_r2t = min v 10 })
  keeps_outstanding = ground (arith, min-AtMost v 10)

  keeps_r2t : IsNegotiated (record q { initial_r2t = yes || true })
  keeps_r2t = ground arith

  keeps_immediate : IsNegotiated (record q { immediate_data = yes || true })
  keeps_immediate = ground arith

  keeps_pdu_order : IsNegotiated (record q { data_pdu_in_order = yes || true })
  keeps_pdu_order = ground arith

  keeps_sequence_order : IsNegotiated (record q { data_sequence_in_order = yes || true })
  keeps_sequence_order = ground arith

-- One key of `update_information` and the keys behind it.
module _ (key value : Memory) (name : List ℕ) {p : Parameter} (h : IsNegotiated p) where
  number_step :
      (assign : ℕ → Parameter → Parameter) (k : Parameter → Outcome Parameter)
      → ((v : ℕ) → IsNegotiated (assign v p))
      → ((q : Parameter) → IsNegotiated q → Always IsNegotiated (k q))
      → Always IsNegotiated (set_number key value name assign p >>= k)
  number_step assign k keeps rest =
      Always-bind IsNegotiated IsNegotiated (set_number key value name assign p) k
        (set_number-Always IsNegotiated key value name p assign keeps h) rest

  boolean_step :
      (assign : Bool → Parameter → Parameter)
      → ((yes : Bool) → IsNegotiated (assign yes p))
      → IsNegotiated (set_boolean key value name assign p)
  boolean_step assign keeps = set_boolean-keeps IsNegotiated key value name p assign keeps h

-- One `key=value` of any bytes keeps the parameters within the limits.
pub update_information-IsNegotiated :
    (p : Parameter) (key value : Memory)
    → IsNegotiated p
    → Always IsNegotiated (update_information p key value)
unfolding update_information
update_information-IsNegotiated p key value h =
    number_step key value _ h _ _ (λ v. keeps_receive h v true)
      λ a ha.
        number_step key value _ ha _ _ (λ v. keeps_connections ha v true)
          λ b hb.
            let hc = boolean_step key value Keys.initial_r2t hb _ (keeps_r2t hb 0) in
            let hd = boolean_step key value Keys.immediate_data hc _ (keeps_immediate hc 0) in
            number_step key value _ hd _ _ (λ v. keeps_burst hd v true)
              λ e he.
                number_step key value _ he _ _ (λ v. keeps_first_burst he v true)
                  λ f hf.
                    let hg =
                      boolean_step key value Keys.data_pdu_in_order hf _ (keeps_pdu_order hf 0) in
                    let hi =
                      boolean_step key value Keys.data_sequence_in_order hg _
                        (keeps_sequence_order hg 0) in
                    number_step key value _ hi _ _ (λ v. keeps_wait hi v true)
                      λ j hj.
                        number_step key value _ hj _ _ (λ v. keeps_retain hj v true)
                          λ k hk.
                            set_number-Always IsNegotiated key value Keys.max_outstanding_r2t k _
                              (λ v. keeps_outstanding hk v true) hk

defaults-IsNegotiated : (p : Parameter) → IsNegotiated (set_default_parameter p)
unfolding set_default_parameter
defaults-IsNegotiated p = ground arith

create_loop-IsNegotiated :
    (rounds i key : ℕ) (text : Memory) (p : Parameter)
    → IsNegotiated p
    → Always IsNegotiated (create_loop rounds i key text p)
unfolding create_loop
create_loop-IsNegotiated zero i key text p h = h
create_loop-IsNegotiated (suc rounds) i key text p h =
    let key' = if text (i - 1) == 0 then i else key in
    let rest = λ (q : Parameter) (hq : IsNegotiated q).
      create_loop-IsNegotiated rounds (suc i) key' text q hq in
    elim (Bool-cases (text i == b'=')) [
      | inl e ↦ rw e (
          Always-bind IsNegotiated IsNegotiated
            (update_information p (from (poke text i 0) key') (from (poke text i 0) (i + 1))) _
            (update_information-IsNegotiated p _ _ h) rest)
      | inr e ↦ rw e (rest p h)
    ]

-- Whatever bytes a login carries, and whatever the parameters were, those that
-- `iscsi_connection_parameter_create` leaves are within the limits of iscsi_define.h: the numbers
-- that may only go down are at most their default, the two times at least, and the four booleans
-- are all set.
pub create-IsNegotiated :
    (p : Parameter) (text : Memory) (n : ℕ)
    → Always IsNegotiated (iscsi_connection_parameter_create p text n)
unfolding iscsi_connection_parameter_create
create-IsNegotiated p text n = create_loop-IsNegotiated _ 1 0 text _ (defaults-IsNegotiated _)
