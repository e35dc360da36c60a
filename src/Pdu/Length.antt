-- ===== src/Pdu/Length.antt =====
-- iscsi_pdu.h and iscsi_pdu.c: the length of a PDU, its padding, and the test that a PDU is whole.
use iscsi.Prelude.{
  ℕ, ◌+◌, ◌*◌, ◌%◌, ◌^◌, ◌≤◌, ◌<◌, ◌≡◌, ◌↔◌, ◌⊎◌, inl, arith, true, List, [], ◌∷◌, ◌++◌,
}
use iscsi.Prelude.Memory.{Memory, AreBytes, bytes}
use iscsi.Pdu.{iscsi_pdu_padded_length, iscsi_pdu_length, iscsi_pdu_valid, iscsi_pdu_pad0}

-- The padded length is the least multiple of four from the length on.
pub padded_length_lem :
    (n : ℕ)
    → n < 2 ^ 31
    → (n ≤ iscsi_pdu_padded_length n)
      × (iscsi_pdu_padded_length n < n + 4)
      × (iscsi_pdu_padded_length n % 4 ≡ 0)
unfolding iscsi_pdu_padded_length
padded_length_lem n h = omega arith

-- The length of a PDU, whatever its bytes: at least a header, a multiple of four, and at most
-- 2 ^ 24 + 304.
pub length_bounds :
    (m : Memory)
    → AreBytes m
    → (48 ≤ iscsi_pdu_length m) × (iscsi_pdu_length m % 4 ≡ 0) × (iscsi_pdu_length m ≤ 2 ^ 24 + 304)
unfolding iscsi_pdu_length
length_bounds m h = omega (arith, h 4, h 5, h 6, h 7)

-- For bytes, and a number of them that is not a negative `int`, `iscsi_pdu_valid` holds exactly
-- when the bytes received are at least the length of the PDU.
pub valid_iff :
    (m : Memory) (n : ℕ)
    → AreBytes m
    → n < 2 ^ 31
    → (iscsi_pdu_valid m n ≡ true) ↔ (iscsi_pdu_length m ≤ n)
unfolding iscsi_pdu_valid
valid_iff m n h small = ground (arith, length_bounds m h)

-- For bytes, the length of a PDU is the least multiple of four that holds the header, as many bytes
-- as byte 4 says, and as many as bytes 5 to 7 say, the highest first; and for a number of received
-- bytes that is not a negative `int`, `iscsi_pdu_valid` holds exactly when it is at least that.
pub length_lem :
    (m : Memory)
    → AreBytes m
    → let n = 48 + m 4 + (m 5 * 2 ^ 16 + m 6 * 2 ^ 8 + m 7) in
      (n ≤ iscsi_pdu_length m)
      × (iscsi_pdu_length m < n + 4)
      × (iscsi_pdu_length m % 4 ≡ 0)
      × ((received : ℕ)
          → received < 2 ^ 31
          → (iscsi_pdu_valid m received ≡ true) ↔ (iscsi_pdu_length m ≤ received))
unfolding iscsi_pdu_length
length_lem m h = (
  omega (arith, h 4, h 5, h 6, h 7),
  omega (arith, h 4, h 5, h 6, h 7),
  omega (arith, h 4, h 5, h 6, h 7),
  λ received small. valid_iff m received h small,
)

-- For a length that is not a negative `int`, `iscsi_pdu_pad0` writes zeros from the length up to
-- the padded length, and nothing else.
pub pad0_lem :
    (m : Memory) (n i : ℕ)
    → n < 2 ^ 31
    → (n ≤ i → i < iscsi_pdu_padded_length n → iscsi_pdu_pad0 m n i ≡ 0)
      × ((i < n) ⊎ (iscsi_pdu_padded_length n ≤ i) → iscsi_pdu_pad0 m n i ≡ m i)
unfolding iscsi_pdu_pad0 iscsi_pdu_padded_length
pad0_lem m n i h = (ground arith, ground arith)

-- The bytes in front of the padding stay.
pub pad0_below : (m : Memory) (n i : ℕ) → n < 2 ^ 31 → i < n → iscsi_pdu_pad0 m n i ≡ m i
pad0_below m n i h lt = (pad0_lem m n i h).1 (inl lt)

-- The bytes of one PDU, by the length in its own header.
abbrev pub IsPdu : List ℕ → Type 0
IsPdu s = (m : Memory) × AreBytes m × (s ≡ bytes m 0 (iscsi_pdu_length m))

abbrev pub ArePdus : List (List ℕ) → Type 0
ArePdus [] = Unit {0}
ArePdus (s ∷ pdus) = IsPdu s × ArePdus pdus

pub ArePdus-append : (s t : List (List ℕ)) → ArePdus s → ArePdus t → ArePdus (s ++ t)
ArePdus-append [] t hs ht = ht
ArePdus-append (pdu ∷ s) t hs ht = (hs.0, ArePdus-append s t hs.1 ht)
