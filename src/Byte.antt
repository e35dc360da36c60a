-- ===== src/Byte.antt =====
-- iscsi_byte.h and iscsi_type.h: bits of a byte, and integers in network byte order. A read takes
-- the memory from the pointer on; a write takes the memory and the pointer as a position in it.
pub mod Laws
use iscsi.Prelude.{ℕ, ◌+◌, ◌-◌, ◌*◌, ◌/◌, ◌%◌, ◌^◌, bit_and, bit_or}
use iscsi.Prelude.Memory.{Memory, poke}

-- `(b >> (7-p)) & 0x01`
unfoldable pub iscsi_byte_byte2bit : ℕ → ℕ → ℕ
iscsi_byte_byte2bit b p = b / 2 ^ (7 - p) % 2

-- `((val & 0x01) << p) | (b & ~(0x01 << p))` at `7 - p`, cut to a byte.
unfoldable pub with_bit : ℕ → ℕ → ℕ → ℕ
with_bit b p val = bit_or (val % 2 * 2 ^ (7 - p)) (bit_and b (255 - 2 ^ (7 - p)))

unfoldable pub iscsi_byte_bit2byte : Memory → ℕ → ℕ → ℕ → Memory
unfolding with_bit
iscsi_byte_bit2byte buffer at p val = poke buffer at (with_bit (buffer at) p val)

-- The four shifted bytes do not overlap, so `|` is a sum.
unfoldable pub iscsi_byte_byte2int : Memory → ℕ
iscsi_byte_byte2int buffer = buffer 0 * 2 ^ 24 + buffer 1 * 2 ^ 16 + buffer 2 * 2 ^ 8 + buffer 3

-- `(value >> k) & 0xFF` is `value / 2 ^ k % 256`.
unfoldable pub iscsi_byte_int2byte : Memory → ℕ → ℕ → Memory
iscsi_byte_int2byte buffer at value =
    poke
      (poke (poke (poke buffer at (value / 2 ^ 24 % 256)) (at + 1) (value / 2 ^ 16 % 256)) (at + 2)
        (value / 2 ^ 8 % 256))
      (at + 3) (value % 256)

unfoldable pub iscsi_byte_short2byte : Memory → ℕ → ℕ → Memory
iscsi_byte_short2byte buffer at value =
    poke (poke buffer at (value / 2 ^ 8 % 256)) (at + 1) (value % 256)
