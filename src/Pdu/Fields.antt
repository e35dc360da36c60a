-- ===== src/Pdu/Fields.antt =====
-- iscsi_pdu.h: a field that was set is read back, and the other fields are left alone.
use iscsi.Prelude.{
  ℕ, ◌*◌, ◌/◌, ◌%◌, ◌^◌, ◌<◌, ◌≡◌, refl, arith, Bool, true, ◌==◌, ◌&&◌, all_below, all_below_sound,
  bit_and, bit_or, ◌≢◌,
}
use iscsi.Prelude.Memory.{Memory, AreBytes}
use iscsi.Byte.{iscsi_byte_byte2bit}
use iscsi.Byte.Laws.{byte2bit-with_bit}
use iscsi.Pdu.{
  iscsi_pdu_immediate, iscsi_pdu_opcode, iscsi_pdu_final, iscsi_pdu_data_segment_length,
  iscsi_pdu_set_immediate, iscsi_pdu_set_opcode, iscsi_pdu_set_final,
  iscsi_pdu_set_data_segment_length,
}

-- The first byte after `iscsi_pdu_set_opcode`.
abbrev opcode_byte : ℕ → ℕ → ℕ
opcode_byte b opcode = bit_or (bit_and opcode 0x3f) (bit_and b 0xc0)

abbrev opcode_holds : ℕ → ℕ → Bool
opcode_holds b opcode =
    (bit_and (opcode_byte b opcode) 0x3f == opcode) && (opcode_byte b opcode / 64 == b / 64)

opcode_table : all_below 256 (λ b. all_below 64 λ opcode. opcode_holds b opcode) ≡ true
unfolding all_below
opcode_table = refl

-- For bytes and an opcode below 64, `iscsi_pdu_set_opcode` sets the opcode that `iscsi_pdu_opcode`
-- reads, and keeps the two highest bits of the first byte and all other bytes.
pub opcode-set_opcode :
    (m : Memory) (opcode i : ℕ)
    → AreBytes m
    → opcode < 64
    → (iscsi_pdu_opcode (iscsi_pdu_set_opcode m opcode) ≡ opcode)
      × (iscsi_pdu_set_opcode m opcode 0 / 64 ≡ m 0 / 64)
      × (i ≢ 0 → iscsi_pdu_set_opcode m opcode i ≡ m i)
unfolding iscsi_pdu_opcode iscsi_pdu_set_opcode
opcode-set_opcode m opcode i h small =
    let both : opcode_holds (m 0) opcode ≡ true =
      all_below_sound 64 _ opcode (all_below_sound 256 _ (m 0) opcode_table (h 0)) small in
    (ground arith, ground arith, ground arith)

abbrev immediate_holds : ℕ → ℕ → Bool
immediate_holds b i =
    let set = bit_or (i * 2 ^ 6) (bit_and b 0xbf) in
    (iscsi_byte_byte2bit set 0 == iscsi_byte_byte2bit b 0) && (set / 64 % 2 == i)

immediate_table : all_below 256 (λ b. all_below 2 λ i. immediate_holds b i) ≡ true
unfolding all_below iscsi_byte_byte2bit
immediate_table = refl

-- For bytes, `iscsi_pdu_set_immediate` sets bit 6 of the first byte, and what `iscsi_pdu_immediate`
-- reads, bit 7, is as before: the reader does not see the flag that the writer sets.
pub immediate-set_immediate :
    (m : Memory) (i : ℕ)
    → AreBytes m
    → (iscsi_pdu_immediate (iscsi_pdu_set_immediate m i) ≡ iscsi_pdu_immediate m)
      × (iscsi_pdu_set_immediate m i 0 / 64 % 2 ≡ i % 2)
unfolding iscsi_pdu_immediate iscsi_pdu_set_immediate
immediate-set_immediate m i h =
    let both : immediate_holds (m 0) (i % 2) ≡ true =
      all_below_sound 2 _ (i % 2) (all_below_sound 256 _ (m 0) immediate_table (h 0))
        (omega arith) in
    (ground arith, ground arith)

pub final-set_final :
    (m : Memory) (f : ℕ) → AreBytes m → iscsi_pdu_final (iscsi_pdu_set_final m f) ≡ f % 2
unfolding iscsi_pdu_final iscsi_pdu_set_final
final-set_final m f h = byte2bit-with_bit (m 1) 0 0 f (h 1) (omega arith) (omega arith)

-- A length of 24 bits that is set is read back.
pub length-set_length :
    (m : Memory) (n : ℕ)
    → n < 2 ^ 24
    → iscsi_pdu_data_segment_length (iscsi_pdu_set_data_segment_length m n) ≡ n
unfolding iscsi_pdu_data_segment_length iscsi_pdu_set_data_segment_length
length-set_length m n h = omega arith
