-- ===== src/Request/Cmd/Asked.antt =====
-- request/cmd.c: the R2Ts that ask for the data of a write.
use iscsi.Prelude.{
  ℕ, zero, suc, ◌+◌, ◌*◌, ◌^◌, ◌≤◌, ◌<◌, ◌≡◌, ◌⊎◌, refl, sym, ap, ◌∙◌, arith, List, [], ◌++◌,
  append_assoc, length, length-append,
}
use mathlib.Core.Path.{subst}
use mathlib.Core.List.{append-nil}
use iscsi.Prelude.Word.{IsInt, add, sub}
use iscsi.Prelude.Memory.{Memory, bytes, length-bytes}
use iscsi.Prelude.Outcome.{ok}
use iscsi.Buffer.{iscsi_buffer_size}
use iscsi.Buffer.Contents.{contents, IsIdle}
use iscsi.Utility.{min}
use iscsi.State.{Connection}
use iscsi.Response.Laws.{HasInts, answered, newest}
use iscsi.Request.R2t.{r2t_write, iscsi_request_r2t_send}
use iscsi.Request.R2t.Answer.{R2tPdu, r2t_send-Answers, r2t-keeps}
use iscsi.Request.Cmd.{r2t_loop}

-- The bytes of that many R2Ts, numbered from `sn` on, which ask for the data from `offset` on: each
-- for those behind the data of the one before it, for the largest segment or up to the end.
pub data Asked (tag transfer_tag total largest : ℕ) : ℕ → ℕ → ℕ → List ℕ → Type 0 where
  none : {sn offset : ℕ} → Asked tag transfer_tag total largest 0 sn offset []
  ask :
      {rounds sn offset desired : ℕ} {c : Connection} {rest : List ℕ} (m : Memory)
      → R2tPdu c tag transfer_tag sn offset desired m
      → 0 < desired
      → offset + desired ≤ total
      → (desired ≡ largest) ⊎ (offset + desired ≡ total)
      → Asked tag transfer_tag total largest rounds (sn + 1) (offset + largest) rest
      → Asked tag transfer_tag total largest (suc rounds) sn offset (bytes m 0 48 ++ rest)

pub length-Asked :
    {tag transfer_tag total largest rounds sn offset : ℕ} {asked : List ℕ}
    → Asked tag transfer_tag total largest rounds sn offset asked
    → length asked ≡ 48 * rounds
length-Asked none = refl
length-Asked (ask {rounds = rounds} {rest = rest} m pdu some_asked within part all) =
    let front = length-append (bytes m 0 48) rest in
    let whole = length-bytes m 0 48 in let behind = length-Asked all in omega arith

-- How much a round asks for.
abbrev pub desired_length : ℕ → ℕ → ℕ → ℕ
desired_length total largest offset = min largest (sub total offset)

desired_lem :
    (total largest offset : ℕ)
    → 0 < largest
    → largest < 2 ^ 31
    → total < 2 ^ 31
    → offset < total
    → let desired = desired_length total largest offset in
      (0 < desired)
      × (offset + desired ≤ total)
      × ((desired ≡ largest) ⊎ (offset + desired ≡ total))
      × IsInt desired
unfolding min
desired_lem total largest offset positive small short inside =
    (ground arith, ground arith, ground arith, ground arith)

-- The connection behind the R2Ts, and their bytes.
unfoldable pub Asks : (tag transfer_tag total largest rounds i offset : ℕ) → Connection → Type 0
Asks tag transfer_tag total largest rounds i offset c =
    (after : Connection) × (asked : List ℕ) × (r2t_loop rounds i tag transfer_tag largest total
        offset c
      ≡ ok after)
    × HasInts after
    × IsIdle after.response_buffer
    × (contents after.response_buffer ≡ contents c.response_buffer ++ asked)
    × Asked tag transfer_tag total largest rounds i offset asked

loop_step :
    (rounds i tag transfer_tag largest total offset : ℕ) (c after : Connection)
    → iscsi_request_r2t_send c tag transfer_tag i offset (desired_length total largest offset)
      ≡ ok after
    → add i 1 ≡ i + 1
    → add offset largest ≡ offset + largest
    → r2t_loop (suc rounds) i tag transfer_tag largest total offset c
      ≡ r2t_loop rounds (i + 1) tag transfer_tag largest total (offset + largest) after
unfolding r2t_loop
loop_step rounds i tag transfer_tag largest total offset c after sends next further =
    rw (sends, next, further) refl

module _ (tag transfer_tag total largest : ℕ) (positive : 0 < largest) (small : largest < 2 ^ 31)
    (short : total < 2 ^ 31) (tag_int : IsInt tag) (transfer_int : IsInt transfer_tag) where
  pub r2t_loop-Asked :
      (rounds i offset : ℕ) (c : Connection)
      → offset + largest * rounds < total + largest
      → i + rounds < 2 ^ 31
      → HasInts c
      → IsIdle c.response_buffer
      → c.response_buffer.length + 48 * rounds ≤ iscsi_buffer_size
      → Asks tag transfer_tag total largest rounds i offset c
  unfolding Asks r2t_loop
  r2t_loop-Asked zero i offset c inside count numbers v room =
      (c, [], refl, numbers, v, sym (append-nil (contents c.response_buffer)), none)
  r2t_loop-Asked (suc rounds) i offset c inside count numbers v room =
      let product : largest * suc rounds ≡ largest + largest * rounds = omega arith in
      let before_end : offset < total = omega arith in
      let desired = desired_length total largest offset in
      let (some_asked, within, part, desired_int) =
        desired_lem total largest offset positive small short before_end in
      let after = answered c 48 (r2t_write tag transfer_tag i offset desired) in
      let (sends, answers, counted) =
        r2t_send-Answers c tag transfer_tag i offset desired numbers
          (tag_int, transfer_int, omega arith, omega arith, desired_int) v (omega arith) in
      let numbers_after : HasInts after = (
        omega arith,
        subst IsInt (sym (r2t-keeps c tag transfer_tag i offset desired)) numbers.1,
      ) in
      let (end, asked, runs, ints, idle, holds, all) =
        r2t_loop-Asked rounds (i + 1) (offset + largest) after (omega arith) (omega arith)
          numbers_after answers.idle (omega arith) in
      let pdu = bytes (newest c after) 0 48 in
      (
        end,
        pdu ++ asked,
        loop_step rounds i tag transfer_tag largest total offset c after sends (omega arith)
              (omega arith)
            ∙ runs,
        ints,
        idle,
        holds
            ∙ ap (λ s. s ++ asked) answers.holds
            ∙ append_assoc (contents c.response_buffer) pdu asked,
        ask (newest c after) answers.fields some_asked within part all,
      )
