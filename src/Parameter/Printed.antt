-- ===== src/Parameter/Printed.antt =====
-- iscsi_connection_parameter.c: the entries that `iscsi_connection_parameter_generate_operational_data`
-- writes, and their text.
use iscsi.Prelude.{
  ℕ, ◌<◌, ◌≡◌, ◌≢◌, refl, sym, ap, ◌∙◌, arith, true, List, [], ◌∷◌, ◌++◌, length, append_assoc,
  zero, suc,
}
use mathlib.Core.List.{append-nil}
use iscsi.Prelude.Memory.{c_string}
use iscsi.Utility.Digits.{IsText, text_length, digits-IsText}
use iscsi.State.{Parameter}
use iscsi.Parameter.Keys
use iscsi.Parameter.Keys.{bool_to_string}
use iscsi.Parameter.Update.{digits}
use iscsi.Parameter.Entry.{Entry, IsEntry, ended, text_of, text_of-ended, entry_text}
use iscsi.Parameter.Same.{no_nul}

-- A number, as its decimal digits.
abbrev pub number : List ℕ → ℕ → Entry
number key v = record { key = key; value = digits v; size = text_length v }

-- A flag that is set.
abbrev pub flag : List ℕ → Entry
flag key = record { key = key; value = bool_to_string true; size = 3 }

-- The entries that are written, in their order.
abbrev pub entries : Parameter → List Entry
entries p =
    number Keys.max_connections p.max_connections
    ∷ flag Keys.initial_r2t
    ∷ flag Keys.immediate_data
    ∷ number Keys.max_burst_length p.max_burst_length
    ∷ number Keys.first_burst_length p.first_burst_length
    ∷ flag Keys.data_pdu_in_order
    ∷ flag Keys.data_sequence_in_order
    ∷ number Keys.default_time_2_wait p.default_time_2_wait
    ∷ number Keys.default_time_2_retain p.default_time_2_retain
    ∷ number Keys.max_outstanding_r2t p.max_outstanding_r2t
    ∷ []

-- The parameters with entries behind their text.
abbrev pub with_entries : Parameter → List Entry → Parameter
with_entries p [] = p
with_entries p (e ∷ es) = with_entries (ended p e) es

abbrev pub texts : List Entry → List ℕ
texts [] = []
texts (e ∷ es) = entry_text e ++ texts es

pub text_of-with_entries :
    (p : Parameter) (es : List Entry) → text_of (with_entries p es) ≡ text_of p ++ texts es
text_of-with_entries p [] = sym (append-nil (text_of p))
text_of-with_entries p (e ∷ es) =
    text_of-with_entries (ended p e) es
    ∙ ap (λ s. s ++ texts es) (text_of-ended p e)
    ∙ append_assoc (text_of p) (entry_text e) (texts es)

pub number-IsEntry :
    (key : List ℕ) (v : ℕ) → IsText (c_string key) (length key) → IsEntry (number key v)
number-IsEntry key v h = record { key_text = h; value_text = digits-IsText (λ _. 0) v }

pub flag-IsEntry : (key : List ℕ) → IsText (c_string key) (length key) → IsEntry (flag key)
unfolding bool_to_string
flag-IsEntry key h = record {
  key_text = h;
  value_text = record { ends = refl; inside = λ i lt. ground arith };
}

pub c_string-IsText : (s : List ℕ) → no_nul s ≡ true → IsText (c_string s) (length s)
c_string-IsText [] h = record { ends = refl; inside = λ i lt. ground arith }
c_string-IsText (c ∷ s) h =
    let rest = c_string-IsText s (ground (arith, h)) in
    record { ends = rest.ends; inside = inside rest }
  where
    inside : IsText (c_string s) (length s) → (i : ℕ) → i < suc (length s) → c_string (c ∷ s) i ≢ 0
    inside rest zero lt = ground (arith, h)
    inside rest (suc i) lt = rest.inside i (omega arith)
