-- ===== src/Utility.antt =====
-- iscsi_utility.c: arithmetic on `int`, and numbers in decimal. An `int` is its bit pattern.
pub mod Decimal
pub mod Digits
use iscsi.Prelude.{
  ℕ, zero, suc, ◌+◌, ◌-◌, ◌*◌, ◌/◌, ◌%◌, ◌^◌, Bool, true, false, ◌==◌, if◌then◌else◌,
}
use iscsi.Prelude.Word.{add, sub, mul, slt, sdiv}
use iscsi.Prelude.Memory.{Memory, poke}
use iscsi.Prelude.Outcome.{Outcome, ok, fault, division_by_zero, out_of_bounds}

unfoldable pub divide_round_up : ℕ → ℕ → Outcome ℕ
divide_round_up a b = if b == 0 then fault division_by_zero else ok (sdiv (sub (add a b) 1) b)

unfoldable pub min : ℕ → ℕ → ℕ
min a b = if slt a b then a else b

unfoldable pub max : ℕ → ℕ → ℕ
max a b = if slt b a then a else b

-- The loop of `string_to_int` at `s + i`. The fuel is the size of the array that `s` points into:
-- a text with no NUL runs off its end.
unfoldable pub scan : ℕ → Memory → ℕ → ℕ → Outcome ℕ
scan zero s i val = fault out_of_bounds
scan (suc fuel) s i val =
    let rest = scan fuel s (suc i) (sub (add (mul 10 val) (s i)) b'0') in
    if s i == 0 then ok val else rest

unfoldable pub string_to_int : ℕ → Memory → Outcome ℕ
string_to_int size s = scan size s 0 0

-- An `int` has ten digits at most.
abbrev pub max_digits : ℕ
max_digits = 10

-- `for (i = s; i > 0; i /= 10) ++len`
unfoldable pub count_digits : ℕ → ℕ → ℕ
count_digits zero i = 0
count_digits (suc fuel) i = if slt 0 i then suc (count_digits fuel (i / 10)) else 0

-- `for (i = s; i > 0; i /= 10) buffer[--len] = i % 10 + '0'`
unfoldable pub write_digits : ℕ → ℕ → ℕ → Memory → Memory
write_digits zero i len buffer = buffer
write_digits (suc fuel) i len buffer =
    let rest = write_digits fuel (i / 10) (len - 1) (poke buffer (len - 1) (i % 10 + b'0')) in
    if slt 0 i then rest else buffer

-- `buffer` is the static array, with what an earlier call left there.
unfoldable pub int_to_string : Memory → ℕ → Memory
int_to_string buffer s =
    let len = count_digits max_digits s in
    if s == 0
    then poke (poke buffer 0 b'0') 1 0
    else write_digits max_digits s len (poke buffer len 0)
