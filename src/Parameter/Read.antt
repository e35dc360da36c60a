-- ===== src/Parameter/Read.antt =====
-- iscsi_connection_parameter.c: `iscsi_connection_parameter_create` on a text of keys and values.
pub mod Loop
pub mod Create
pub mod Texts
pub mod RoundTrip
use iscsi.Prelude.{
  ℕ, zero, suc, ◌+◌, ◌-◌, ◌≤◌, ◌<◌, ◌≡◌, ◌≢◌, refl, sym, ap, ◌∙◌, arith, Bool, true, false, List,
  [], ◌∷◌, ◌==◌, if◌then◌else◌, length, get_or,
}
use mathlib.Core.Path.{fun_ext, subst}
use iscsi.Prelude.Memory.{Memory, from, poke, c_string}
use iscsi.Prelude.Outcome.{Outcome, ok, ◌>>=◌}
use iscsi.Utility.Digits.{IsText}
use iscsi.State.{Parameter}
use iscsi.Parameter.Update.{update_information, create_loop}
use iscsi.Parameter.Entry.{Entry, IsEntry}
use iscsi.Parameter.Same.{SameText, update_information-Same}

-- A key of at least one character and its value, both without NUL and =.
pub record IsReadable (e : Entry) : Type 0 where
  pub entry : IsEntry e
  pub named : 0 < length e.key
  pub key_plain : (j : ℕ) → j < length e.key → c_string e.key j ≢ b'='
  pub value_plain : (j : ℕ) → j < e.size → e.value j ≢ b'='

abbrev pub AreReadable : List Entry → Type 0
AreReadable [] = Unit {0}
AreReadable (e ∷ es) = IsReadable e × AreReadable es

-- At `o` of the text stands key=value, and NUL.
pub record Stands (text : Memory) (o : ℕ) (e : Entry) : Type 0 where
  pub key : (j : ℕ) → j < length e.key → text (o + j) ≡ c_string e.key j
  pub equals : text (o + length e.key) ≡ b'='
  pub value : (j : ℕ) → j < e.size → text (o + length e.key + 1 + j) ≡ e.value j
  pub ends : text (o + length e.key + 1 + e.size) ≡ 0

abbrev pub entry_length : Entry → ℕ
entry_length e = length e.key + e.size + 2

abbrev pub total_length : List Entry → ℕ
total_length [] = 0
total_length (e ∷ es) = entry_length e + total_length es

abbrev pub AllStand : Memory → ℕ → List Entry → Type 0
AllStand text o [] = Unit {0}
AllStand text o (e ∷ es) = Stands text o e × AllStand text (o + entry_length e) es

-- The updates that the entries make, in their order.
unfoldable pub read_all : List Entry → Parameter → Outcome Parameter
read_all [] p = ok p
read_all (e ∷ es) p = update_information p (c_string e.key) e.value >>= λ q. read_all es q

-- The `n` characters behind `b` have no =, and neither `b` nor the ones in front of the last of
-- them are NUL.
pub record IsPlain (text : Memory) (b n : ℕ) : Type 0 where
  pub full : (k : ℕ) → b ≤ k → k < b + n → text k ≢ 0
  pub plain : (k : ℕ) → b < k → k ≤ b + n → text k ≢ b'='

pub skip :
    (n rounds b key : ℕ) (text : Memory) (p : Parameter)
    → IsPlain text b n
    → create_loop (n + rounds) (suc b) key text p ≡ create_loop rounds (suc (b + n)) key text p
unfolding create_loop
skip zero rounds b key text p plain =
    let here : b + 0 ≡ b = omega arith in
    let same : 0 + rounds ≡ rounds = omega arith in rw (here, same) refl
skip (suc n) rounds b key text p plain =
    let there : suc b + n ≡ b + suc n = omega arith in
    let more : suc n + rounds ≡ suc (n + rounds) = omega arith in
    let back : suc b - 1 ≡ b = omega arith in
    let full = plain.full b (omega arith) (omega arith) in
    let first = plain.plain (suc b) (omega arith) (omega arith) in
    let before : (text b == 0) ≡ false = ground arith in
    let here : (text (suc b) == b'=') ≡ false = ground arith in
    rw (more, ← there, back, before, here)
      (skip n rounds (suc b) key text p (record {
        full = λ k le lt. plain.full k (omega arith) (omega arith);
        plain = λ k lt le. plain.plain k (omega arith) (omega arith);
      }))

-- What holds of the characters at `o + j` holds of those from `o` on.
at_offset :
    (P : ℕ → Type 0) (text : Memory) (o n k : ℕ)
    → ((j : ℕ) → j < n → P (text (o + j)))
    → o ≤ k
    → k < o + n
    → P (text k)
at_offset P text o n k h le lt =
    let place : o + (k - o) ≡ k = omega arith in
    subst (λ i. P (text i)) place (h (k - o) (omega arith))

module _ (text : Memory) (o : ℕ) (e : Entry) (readable : IsReadable e)
    (stands : Stands text o e) where
  abbrev eq : ℕ
  eq = o + length e.key

  pub key_char : (k : ℕ) → o ≤ k → k < eq → (text k ≢ 0) × (text k ≢ b'=')
  key_char k le lt =
      at_offset (λ c. (c ≢ 0) × (c ≢ b'=')) text o (length e.key) k
        (λ j less.
          let same = stands.key j less in
          let full = readable.entry.key_text.inside j less in
          let plain = readable.key_plain j less in (omega arith, omega arith))
        le lt

  value_char : (k : ℕ) → eq < k → k < eq + 1 + e.size → (text k ≢ 0) × (text k ≢ b'=')
  value_char k le lt =
      at_offset (λ c. (c ≢ 0) × (c ≢ b'=')) text (eq + 1) e.size k
        (λ j less.
          let same = stands.value j less in
          let full = readable.entry.value_text.inside j less in
          let plain = readable.value_plain j less in (omega arith, omega arith))
        (omega arith) (omega arith)

  pub in_key : IsPlain text o (length e.key - 1)
  in_key = record {
    full = λ k le lt. let named = readable.named in (key_char k le (omega arith)).0;
    plain = λ k lt le. let named = readable.named in (key_char k (omega arith) (omega arith)).1;
  }

  pub in_value : IsPlain text eq (e.size + 1)
  in_value = record {
    full = λ k le lt. let equals = stands.equals in grind (arith, value_char k);
    plain = λ k lt le. let ends = stands.ends in grind (arith, value_char k);
  }

  -- The texts that `update_information` is given.
  pub same_key : SameText (from (poke text eq 0) o) (c_string e.key) (length e.key)
  same_key = record {
    agree = λ i le. let ends = readable.entry.key_text.ends in grind (arith, stands.key i);
    ends = readable.entry.key_text.ends;
  }

  pub same_value : SameText (from (poke text eq 0) (eq + 1)) e.value e.size
  same_value = record {
    agree = λ i le. let ends = readable.entry.value_text.ends in grind (arith, stands.value i);
    ends = readable.entry.value_text.ends;
  }
