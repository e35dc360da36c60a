-- ===== src/Prelude/Word.antt =====
-- The C type `int`: 32 bits, kept as the bit pattern, a number below 2 ^ 32. Sums and products wrap
-- round; an order reads the pattern as a signed number.
use Prim.Native.Nat.{ℕ, ◌+◌, ◌-◌, ◌*◌, ◌/◌, ◌%◌, ◌^◌, ◌<◌}
use mathlib.Core.Bool.{Bool}
use iscsi.Prelude.Tests.{ltb, if◌then◌else◌}

abbrev pub IsInt : ℕ → Type 0
IsInt a = a < 2 ^ 32

-- A pattern that stands for a number which is not negative.
abbrev pub IsPositive : ℕ → Type 0
IsPositive a = a < 2 ^ 31

abbrev pub IsByte : ℕ → Type 0
IsByte b = b < 256

abbrev pub add : ℕ → ℕ → ℕ
add a b = (a + b) % 2 ^ 32

abbrev pub sub : ℕ → ℕ → ℕ
sub a b = (a + 2 ^ 32 - b) % 2 ^ 32

abbrev pub mul : ℕ → ℕ → ℕ
mul a b = a * b % 2 ^ 32

-- a < b on signed numbers.
abbrev pub slt : ℕ → ℕ → Bool
slt a b = ltb ((a + 2 ^ 31) % 2 ^ 32) ((b + 2 ^ 31) % 2 ^ 32)

abbrev pub is_negative : ℕ → Bool
is_negative a = ltb (2 ^ 31 - 1) a

abbrev pub magnitude : ℕ → ℕ
magnitude a = if is_negative a then 2 ^ 32 - a else a

-- a / b on signed numbers, towards zero, for b not 0.
abbrev pub sdiv : ℕ → ℕ → ℕ
sdiv a b =
    let q = magnitude a / magnitude b in
    if is_negative a
    then (if is_negative b then q % 2 ^ 32 else (2 ^ 32 - q) % 2 ^ 32)
    else (if is_negative b then (2 ^ 32 - q) % 2 ^ 32 else q)
