-- ===== src/Utility/Decimal.antt =====
-- iscsi_utility.c: a number printed by `int_to_string` is read back by `string_to_int`.
use iscsi.Prelude.{
  ℕ, zero, suc, ◌+◌, ◌-◌, ◌/◌, ◌%◌, ◌^◌, ◌≤◌, ◌<◌, ◌≡◌, refl, ◌∙◌, arith, Bool-cases, ◌==◌, ==_iff,
  inl, inr,
}
use iscsi.Prelude.Word.{add, sub, mul, slt, IsPositive}
use iscsi.Prelude.Memory.{Memory, poke}
use iscsi.Prelude.Outcome.{ok}
use iscsi.Utility.{scan, string_to_int, max_digits, count_digits, write_digits, int_to_string}

-- The digits go below `len`.
pub write_digits_above :
    (fuel i len : ℕ) (m : Memory) (k : ℕ)
    → count_digits fuel i ≤ len
    → len ≤ k
    → write_digits fuel i len m k ≡ m k
unfolding write_digits count_digits
write_digits_above zero i len m k c h = refl
write_digits_above (suc fuel) i len m k c h =
    ground (arith, write_digits_above fuel (i / 10) (len - 1) (poke m (len - 1) (i % 10 + b'0')) k)

pub count_digits-le : (fuel i : ℕ) → count_digits fuel i ≤ fuel
unfolding count_digits
count_digits-le zero i = omega arith
count_digits-le (suc fuel) i = ground (arith, count_digits-le fuel (i / 10))

-- Reading one decimal digit.
scan_digit :
    (fuel : ℕ) (m : Memory) (at i : ℕ)
    → IsPositive i
    → m at ≡ i % 10 + b'0'
    → scan (suc fuel) m at (i / 10) ≡ scan fuel m (suc at) i
unfolding scan
scan_digit fuel m at i h e =
    let value : sub (add (mul 10 (i / 10)) (m at)) b'0' ≡ i = omega arith in
    rw (value, e) (ground arith)

-- The digits before the last are read first, then the last.
scan-write_step :
    (fuel i f : ℕ) (m : Memory)
    → IsPositive i
    → let len = count_digits fuel (i / 10) in
      let written = write_digits fuel (i / 10) len (poke m len (i % 10 + b'0')) in
      scan (len + suc f) written 0 0 ≡ scan (suc f) written len (i / 10)
      → scan (suc len + f) written 0 0 ≡ scan f written (suc len) i
scan-write_step fuel i f m h ih =
    let len = count_digits fuel (i / 10) in
    let before = poke m len (i % 10 + b'0') in
    let written = write_digits fuel (i / 10) len before in
    let rounds : suc len + f ≡ len + suc f = omega arith in
    let last : written len ≡ i % 10 + b'0' =
      write_digits_above fuel (i / 10) len before len (omega arith) (omega arith) ∙ ground arith in
    rw rounds (ih ∙ scan_digit f written len i h last)

-- Reading over the digits that were written gives the number.
scan-write_digits :
    (fuel i f : ℕ) (m : Memory)
    → IsPositive i
    → i < 10 ^ fuel
    → let len = count_digits fuel i in
      let written = write_digits fuel i len m in scan (len + f) written 0 0 ≡ scan f written len i
unfolding count_digits write_digits
scan-write_digits zero i f m h b = ground arith
scan-write_digits (suc fuel) i f m h b = elim (Bool-cases (slt 0 i)) [
  | inl more ↦
      let len = count_digits fuel (i / 10) in
      let last : suc len - 1 ≡ len = omega arith in
      rw (more, last)
        (scan-write_step fuel i f m h (
          scan-write_digits fuel (i / 10) (suc f) (poke m len (i % 10 + b'0')) (omega arith)
            (omega arith)))
  | inr done ↦ let nil : i ≡ 0 = ground arith in rw (done, nil) (ground arith)
]

scan_end : (fuel : ℕ) (m : Memory) (at val : ℕ) → m at ≡ 0 → scan (suc fuel) m at val ≡ ok val
unfolding scan
scan_end fuel m at val e = ground arith

-- What the loops of `int_to_string` leave in the array is read back.
scan_printed :
    (fuel i size : ℕ) (buffer : Memory)
    → IsPositive i
    → i < 10 ^ fuel
    → fuel < size
    → let len = count_digits fuel i in
      scan size (write_digits fuel i len (poke buffer len 0)) 0 0 ≡ ok i
scan_printed fuel i size buffer h b fits =
    let len = count_digits fuel i in
    let before = poke buffer len 0 in
    let written = write_digits fuel i len before in
    let f : ℕ = size - len - 1 in
    let rounds : size ≡ len + suc f = omega (arith, count_digits-le fuel i) in
    let end : written len ≡ 0 =
      write_digits_above fuel i len before len (omega arith) (omega arith) ∙ ground arith in
    rw rounds (scan-write_digits fuel i (suc f) before h b ∙ scan_end f written len i end)

scan_zero :
    (size : ℕ) (buffer : Memory) → 1 < size → scan size (poke (poke buffer 0 b'0') 1 0) 0 0 ≡ ok 0
unfolding scan
scan_zero zero buffer h = absurd (omega arith)
scan_zero (suc zero) buffer h = absurd (omega arith)
scan_zero (suc (suc n)) buffer h = refl

-- Whatever the static array held, every `int` from 0 on that `int_to_string` prints is read back by
-- `string_to_int`, if the array is longer than the ten digits that an `int` can have.
pub string_to_int-int_to_string :
    (buffer : Memory) (s size : ℕ)
    → IsPositive s
    → max_digits < size
    → string_to_int size (int_to_string buffer s) ≡ ok s
unfolding string_to_int int_to_string
string_to_int-int_to_string buffer s size h fits = elim (Bool-cases (s == 0)) [
  | inl nil ↦ rw (nil, (==_iff s 0).0 nil) (scan_zero size buffer (omega arith))
  | inr more ↦ rw more (scan_printed max_digits s size buffer h (omega arith) fits)
]
