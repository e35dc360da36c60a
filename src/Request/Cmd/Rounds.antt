-- ===== src/Request/Cmd/Rounds.antt =====
-- request/cmd.c: how many R2Ts a write command is answered with.
use iscsi.Prelude.{
  ℕ, ◌+◌, ◌-◌, ◌*◌, ◌/◌, ◌^◌, ◌≤◌, ◌<◌, ◌≡◌, ◌⊎◌, inl, inr, ap, ◌∙◌, arith, if◌then◌else◌,
}
use native.Mathlib.Omega.{div_any}
use native.Mathlib.Nat.{mul-le-mul_left, div-le_self}
use iscsi.Prelude.Word.{add, sub, slt, sdiv}
use iscsi.Prelude.Outcome.{ok}
use iscsi.Utility.{min, divide_round_up}

-- The number of segments that the data take.
abbrev pub segments : ℕ → ℕ → ℕ
segments left largest = (left + largest - 1) / largest

-- The number of R2Ts that are sent at once.
abbrev pub at_once : ℕ → ℕ → ℕ
at_once outstanding count = let sent = min outstanding count in if slt 0 sent then sent else 0

at_once_cases :
    (outstanding count : ℕ)
    → outstanding < 2 ^ 31
    → count < 2 ^ 31
    → ((at_once outstanding count ≡ outstanding) × (outstanding ≤ count))
      ⊎ ((at_once outstanding count ≡ count) × (count ≤ outstanding))
unfolding min
at_once_cases outstanding count natural small = ground arith

sdiv-eq : (a b : ℕ) → a < 2 ^ 31 → b < 2 ^ 31 → sdiv a b ≡ a / b
sdiv-eq a b small little = ground arith

pub divide-eq :
    (left largest : ℕ)
    → 0 < largest
    → left + largest < 2 ^ 31
    → divide_round_up left largest ≡ ok (segments left largest)
unfolding divide_round_up
divide-eq left largest positive small =
    let sum : sub (add left largest) 1 ≡ left + largest - 1 = omega arith in
    let whole : sdiv (sub (add left largest) 1) largest ≡ segments left largest =
      ap (λ a. sdiv a largest) sum
      ∙ sdiv-eq (left + largest - 1) largest (omega arith) (omega arith) in
    ground (arith, whole)

segments-covers :
    (left largest : ℕ)
    → 0 < largest
    → (left ≤ largest * segments left largest) × (largest * segments left largest < left + largest)
segments-covers left largest positive =
    let total = div_any (left + largest - 1) largest in (omega arith, omega arith)

-- No more rounds than may be outstanding, and none for data beyond the end; as many as may be
-- outstanding, or enough for all data.
pub rounds_lem :
    (outstanding left largest : ℕ)
    → outstanding < 2 ^ 31
    → 0 < largest
    → left + largest < 2 ^ 31
    → let rounds = at_once outstanding (segments left largest) in
      (rounds ≤ outstanding)
      × (largest * rounds < left + largest)
      × ((rounds ≡ outstanding) ⊎ (left ≤ largest * rounds))
rounds_lem outstanding left largest natural positive small =
    let count = segments left largest in
    let (enough, fits) = segments-covers left largest positive in
    let few : count < 2 ^ 31 =
      (let no_more = div-le_self (left + largest - 1) largest in omega arith) in
    let rounds = at_once outstanding count in
    elim (at_once_cases outstanding count natural few) [
      | inl (same, below) ↦
          let less = mul-le-mul_left largest below in
          let product : largest * rounds ≡ largest * outstanding = ap (λ k. largest * k) same in
          (omega arith, omega arith, inl same)
      | inr (same, below) ↦
          let product : largest * rounds ≡ largest * count = ap (λ k. largest * k) same in
          (omega arith, omega arith, inr (omega arith))
    ]
