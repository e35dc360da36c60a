-- ===== src/Parameter/Same.antt =====
-- iscsi_connection_parameter.c and iscsi_utility.c: what is read from a text depends on the
-- characters up to its NUL only.
use iscsi.Prelude.{
  ℕ, zero, suc, ◌+◌, ◌≤◌, ◌≡◌, refl, ap, ◌∙◌, arith, Bool, true, not, ◌&&◌, List, [], ◌∷◌, ◌==◌,
}
use iscsi.Prelude.Word.{add, sub, mul}
use iscsi.Prelude.Memory.{Memory, from}
use iscsi.Prelude.Text.{codes}
use iscsi.Utility.{scan, string_to_int}
use iscsi.State.{Parameter}
use iscsi.Parameter.Keys
use iscsi.Parameter.Keys.{key_equal}
use iscsi.Parameter.Update.{text_size, set_number, set_boolean, update_information}

-- Whether no character is NUL.
abbrev pub no_nul : List ℕ → Bool
no_nul [] = true
no_nul (c ∷ s) = not (c == 0) && no_nul s

-- The two texts have the same `n` characters and then NUL.
pub record SameText (m k : Memory) (n : ℕ) : Type 0 where
  pub agree : (i : ℕ) → i ≤ n → m i ≡ k i
  pub ends : k n ≡ 0

key_equal-Same :
    (prop : List ℕ) (m k : Memory) (n : ℕ)
    → no_nul prop ≡ true
    → SameText m k n
    → key_equal m prop ≡ key_equal k prop
unfolding key_equal
key_equal-Same [] m k n plain same = refl
key_equal-Same (c ∷ prop) m k zero plain same =
    let first = same.agree 0 (omega arith) in let ends = same.ends in ground (arith, plain)
key_equal-Same (c ∷ prop) m k (suc n) plain same =
    let first = same.agree 0 (omega arith) in
    let place : 1 + n ≡ suc n = omega arith in
    let rest = key_equal-Same prop (from m 1) (from k 1) n (ground (arith, plain)) (record {
      agree = λ i le. same.agree (1 + i) (omega arith);
      ends = ap k place ∙ same.ends;
    }) in
    rw (first, rest) refl

scan-Same :
    (fuel : ℕ) (m k : Memory) (n i v : ℕ)
    → SameText m k n
    → i ≤ n
    → scan fuel m i v ≡ scan fuel k i v
unfolding scan
scan-Same zero m k n i v same le = refl
scan-Same (suc fuel) m k n i v same le =
    let here = same.agree i le in
    let ends = same.ends in
    ground (arith, scan-Same fuel m k n (suc i) (sub (add (mul 10 v) (m i)) b'0') same)

pub update_information-Same :
    (p : Parameter) (key key' value value' : Memory) (n size : ℕ)
    → SameText key key' n
    → SameText value value' size
    → update_information p key value ≡ update_information p key' value'
unfolding update_information set_number set_boolean string_to_int
update_information-Same p key key' value value' n size same_key same_value =
    let at = λ (prop : List ℕ) (plain : no_nul prop ≡ true).
      key_equal-Same prop key key' n plain same_key in
    rw
      (
        at Keys.max_receive_data_segment refl,
        at Keys.max_connections refl,
        at Keys.initial_r2t refl,
        at Keys.immediate_data refl,
        at Keys.max_burst_length refl,
        at Keys.first_burst_length refl,
        at Keys.data_pdu_in_order refl,
        at Keys.data_sequence_in_order refl,
        at Keys.default_time_2_wait refl,
        at Keys.default_time_2_retain refl,
        at Keys.max_outstanding_r2t refl,
        key_equal-Same (codes "Yes") value value' size refl same_value,
        scan-Same text_size value value' size 0 0 same_value (omega arith),
      )
      refl
