-- ===== src/Utility/Digits.antt =====
-- iscsi_utility.c: what `int_to_string` prints is a text of at most ten characters.
use iscsi.Prelude.{
  ℕ, zero, suc, ◌+◌, ◌-◌, ◌/◌, ◌%◌, ◌≤◌, ◌<◌, ◌≡◌, ◌≢◌, refl, ◌∙◌, arith, Bool-cases, ◌==◌, inl,
  inr, ltb, if◌then◌else◌,
}
use mathlib.Core.Path.{subst}
use iscsi.Prelude.Word.{slt}
use iscsi.Prelude.Memory.{Memory, poke}
use iscsi.Utility.{max_digits, count_digits, write_digits, int_to_string}
use iscsi.Utility.Decimal.{write_digits_above, count_digits-le}

-- The `n` characters in front of the NUL.
pub record IsText (m : Memory) (n : ℕ) : Type 0 where
  pub ends : m n ≡ 0
  pub inside : (i : ℕ) → i < n → m i ≢ 0

-- The characters 0 to 9.
abbrev pub IsDigit : ℕ → Type 0
IsDigit c = (b'0' ≤ c) × (c ≤ b'9')

-- In front of the last digit, or the last digit.
IsDigit-before :
    (written : Memory) (len k digit : ℕ)
    → k < suc len
    → digit < 10
    → (k < len → IsDigit (written k))
    → written len ≡ digit + b'0'
    → IsDigit (written k)
IsDigit-before written len k digit h small rest last = elim (Bool-cases (ltb k len)) [
  | inl before ↦ rest (ground (arith, before))
  | inr end ↦
      let same : len ≡ k = ground arith in
      subst (λ j. IsDigit (written j)) same (omega (arith, last))
]

write_digits_inside :
    (fuel i : ℕ) (m : Memory) (k : ℕ)
    → k < count_digits fuel i
    → IsDigit (write_digits fuel i (count_digits fuel i) m k)
unfolding write_digits count_digits
write_digits_inside zero i m k h = absurd (omega arith)
write_digits_inside (suc fuel) i m k h = elim (Bool-cases (slt 0 i)) [
  | inl more ↦
      let len = count_digits fuel (i / 10) in
      let before = poke m len (i % 10 + b'0') in
      let back : suc len - 1 ≡ len = omega arith in
      let within : k < suc len = ground (arith, more, h) in
      let last : write_digits fuel (i / 10) len before len ≡ i % 10 + b'0' =
        write_digits_above fuel (i / 10) len before len (omega arith) (omega arith)
        ∙ ground arith in
      rw (more, back)
        (IsDigit-before (write_digits fuel (i / 10) len before) len k (i % 10) within (omega arith)
          (write_digits_inside fuel (i / 10) before k) last)
  | inr none ↦
      let empty : count_digits (suc fuel) i ≡ 0 = rw none refl in absurd (omega (arith, h, empty))
]

-- The length of the text.
abbrev pub text_length : ℕ → ℕ
text_length s = if s == 0 then 1 else count_digits max_digits s

pub digits_inside :
    (buffer : Memory) (s k : ℕ) → k < text_length s → IsDigit (int_to_string buffer s k)
unfolding int_to_string
digits_inside buffer s k = elim (Bool-cases (s == 0)) [
  | inl nil ↦ rw nil λ lt. ground arith
  | inr more ↦
      let len = count_digits max_digits s in
      rw more λ lt. write_digits_inside max_digits s (poke buffer len 0) k lt
]

digits_end : (buffer : Memory) (s : ℕ) → int_to_string buffer s (text_length s) ≡ 0
unfolding int_to_string
digits_end buffer s = elim (Bool-cases (s == 0)) [
  | inl nil ↦ rw nil refl
  | inr more ↦
      let len = count_digits max_digits s in
      rw more (
        write_digits_above max_digits s len (poke buffer len 0) len (omega arith) (omega arith)
        ∙ ground arith)
]

pub digits-IsText : (buffer : Memory) (s : ℕ) → IsText (int_to_string buffer s) (text_length s)
digits-IsText buffer s = record {
  ends = digits_end buffer s;
  inside = λ i lt. let digit = digits_inside buffer s i lt in omega arith;
}

pub text_length-le : (s : ℕ) → text_length s ≤ max_digits
text_length-le s = ground (arith, count_digits-le max_digits s)
