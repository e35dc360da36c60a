-- ===== src/Byte/Laws.antt =====
-- iscsi_byte.h: what is written is read back, and nothing else changes.
use iscsi.Prelude.{
  ℕ, ◌+◌, ◌%◌, ◌≤◌, ◌<◌, ◌⊎◌, ◌≡◌, refl, arith, Bool, true, ◌==◌, ==_iff, ◌&&◌, if◌then◌else◌,
  all_below, all_below_sound,
}
use iscsi.Prelude.Word.{IsByte, IsInt}
use iscsi.Prelude.Memory.{Memory, AreBytes, from}
use iscsi.Byte.{
  iscsi_byte_byte2bit, iscsi_byte_bit2byte, with_bit, iscsi_byte_byte2int, iscsi_byte_int2byte,
}

-- Reading bit `q` of a byte in which bit `p` was set to `v`.
abbrev bit_holds : ℕ → ℕ → ℕ → ℕ → Bool
bit_holds b p q v =
    iscsi_byte_byte2bit (with_bit b p v) q == (if p == q then v else iscsi_byte_byte2bit b q)

bit_table :
    all_below 256 (λ b. all_below 8 λ p. all_below 8 λ q. all_below 2 λ v. bit_holds b p q v) ≡ true
unfolding all_below iscsi_byte_byte2bit with_bit
bit_table = refl

with_bit-mod : (b p v : ℕ) → with_bit b p v ≡ with_bit b p (v % 2)
unfolding with_bit
with_bit-mod b p v = grind arith

-- Setting a bit of a byte and reading any bit of it.
pub byte2bit-with_bit :
    (b p q v : ℕ)
    → IsByte b
    → p < 8
    → q < 8
    → iscsi_byte_byte2bit (with_bit b p v) q ≡ (if p == q then v % 2 else iscsi_byte_byte2bit b q)
byte2bit-with_bit b p q v hb hp hq = rw (with_bit-mod b p v) (
    (==_iff _ _).0 (
      all_below_sound 2 _ (v % 2)
        (all_below_sound 8 _ q (all_below_sound 8 _ p (all_below_sound 256 _ b bit_table hb) hp) hq)
        (omega arith)))

-- For bytes and bits from 0 to 7: after `iscsi_byte_bit2byte` wrote bit `p` of the byte at `at`,
-- that bit is the lowest bit of the value, the other bits of the byte are as before, and so is
-- every other byte.
pub byte2bit-bit2byte :
    (m : Memory) (at p v q i : ℕ)
    → AreBytes m
    → p < 8
    → q < 8
    → iscsi_byte_byte2bit (iscsi_byte_bit2byte m at p v i) q
      ≡ (if (at == i) && (p == q) then v % 2 else iscsi_byte_byte2bit (m i) q)
unfolding iscsi_byte_bit2byte
byte2bit-bit2byte m at p v q i hm hp hq =
    ground (arith, byte2bit-with_bit (m at) p q v (hm at) hp hq)

-- An integer written in network byte order is read back.
pub byte2int-int2byte :
    (m : Memory) (p v : ℕ) → IsInt v → iscsi_byte_byte2int (from (iscsi_byte_int2byte m p v) p) ≡ v
unfolding iscsi_byte_byte2int iscsi_byte_int2byte
byte2int-int2byte m p v h = ground arith

-- For an `int`, `iscsi_byte_int2byte` writes four bytes, most significant first: reading the
-- integer there gives the value back, and every byte outside the four is as before.
pub int2byte-frame :
    (m : Memory) (p v i : ℕ)
    → IsInt v
    → (iscsi_byte_byte2int (from (iscsi_byte_int2byte m p v) p) ≡ v)
      × ((i < p) ⊎ (p + 4 ≤ i) → iscsi_byte_int2byte m p v i ≡ m i)
unfolding iscsi_byte_int2byte
int2byte-frame m p v i h = (byte2int-int2byte m p v h, ground arith)

pub byte2int-IsInt : (m : Memory) → AreBytes m → IsInt (iscsi_byte_byte2int m)
unfolding iscsi_byte_byte2int
byte2int-IsInt m h = omega (arith, h 0, h 1, h 2, h 3)
