-- ===== src/Request/DataIn/Stream.antt =====
-- request/data_in.c: the PDUs of all rounds.
use iscsi.Prelude.{
  ℕ, zero, suc, ◌+◌, ◌≤◌, ◌<◌, ◌≡◌, inl, inr, refl, ap, ◌∙◌, arith, ◌^◌, ltb, if◌then◌else◌, true,
  false, List, ◌++◌, Bool-cases, append_assoc, lt→ltb,
}
use mathlib.Core.Path.{subst, ap₂}
use iscsi.Prelude.Word.{IsInt, add, slt}
use iscsi.Prelude.Memory.{Memory, bytes}
use iscsi.Prelude.Outcome.{ok}
use iscsi.Buffer.{iscsi_buffer_size}
use iscsi.Buffer.Contents.{contents, IsIdle}
use iscsi.Utility.{divide_round_up}
use iscsi.Pdu.{iscsi_pdu_padded_length}
use iscsi.Pdu.Length.{padded_length_lem}
use iscsi.State.{Connection}
use iscsi.Response.Laws.{answered, newest}
use iscsi.Request.DataIn.{data_in_write, data_in_round, data_in_loop, iscsi_request_data_in_send}
use iscsi.Request.DataIn.Pieces.{DataInPdu, piece, final_of, piece_lem, round-Answers}

-- The bytes of the PDUs that carry `source` from `offset` up to `expected`: their numbers count up,
-- each carries the bytes behind those of the one before it, none more than `largest`, and the last
-- one alone has the final bit.
pub data Stream (tag : ℕ) (source : Memory) (expected largest : ℕ) : ℕ → ℕ → List ℕ → Type 0 where
  last :
      {sn offset n : ℕ} (m : Memory)
      → offset + n ≡ expected
      → n ≤ largest
      → DataInPdu tag source sn offset n 1 m
      → Stream tag source expected largest sn offset (bytes m 0 (iscsi_pdu_padded_length (48 + n)))
  more :
      {sn offset n : ℕ} {rest : List ℕ} (m : Memory)
      → offset + n < expected
      → n ≤ largest
      → DataInPdu tag source sn offset n 0 m
      → Stream tag source expected largest (sn + 1) (offset + n) rest
      → Stream tag source expected largest sn offset
          (bytes m 0 (iscsi_pdu_padded_length (48 + n)) ++ rest)

-- How many bytes the PDUs from `offset` on take.
unfoldable pub room_needed : ℕ → ℕ → ℕ → ℕ → ℕ
room_needed zero expected largest offset = 0
room_needed (suc fuel) expected largest offset =
    let n = piece expected largest offset in
    let rest = room_needed fuel expected largest (offset + n) in
    iscsi_pdu_padded_length (48 + n) + (if ltb (offset + n) expected then rest else 0)

send_runs :
    (c : Connection) (tag expected : ℕ) (source : Memory)
    → let largest = c.parameter.max_receive_data_segment_length in
      0 < largest
      → iscsi_request_data_in_send c tag expected source
        ≡ data_in_loop (suc expected) tag expected largest source 0 0 c
unfolding iscsi_request_data_in_send divide_round_up
send_runs c tag expected source positive = ground arith

-- The connection behind an answer of the loop, and the bytes of it.
Sent : (tag : ℕ) (source : Memory) (expected largest fuel i offset : ℕ) → Connection → Type 0
Sent tag source expected largest fuel i offset c =
    (after : Connection) × (sent : List ℕ) × (data_in_loop fuel tag expected largest source i offset
        c
      ≡ ok after)
    × IsIdle after.response_buffer
    × (contents after.response_buffer ≡ contents c.response_buffer ++ sent)
    × Stream tag source expected largest i offset sent

loop_more :
    (fuel tag expected largest : ℕ) (source : Memory) (i offset : ℕ) (c after : Connection)
    → data_in_round tag expected largest source i offset c ≡ ok after
    → slt (add offset (piece expected largest offset)) expected ≡ true
    → data_in_loop (suc fuel) tag expected largest source i offset c
      ≡ data_in_loop fuel tag expected largest source
          (add i 1)
          (add offset (piece expected largest offset))
          after
unfolding data_in_loop
loop_more fuel tag expected largest source i offset c after round goes_on = rw (round, goes_on) refl

loop_last :
    (fuel tag expected largest : ℕ) (source : Memory) (i offset : ℕ) (c after : Connection)
    → data_in_round tag expected largest source i offset c ≡ ok after
    → slt (add offset (piece expected largest offset)) expected ≡ false
    → data_in_loop (suc fuel) tag expected largest source i offset c ≡ ok after
unfolding data_in_loop
loop_last fuel tag expected largest source i offset c after round ends_here =
    rw (round, ends_here) refl

module _ (tag expected largest : ℕ) (source : Memory) (positive : 0 < largest)
    (small : largest < 2 ^ 31) (short : expected ≤ 2 ^ 22) (tag_int : IsInt tag) where
  data_in_loop-Stream :
      (fuel i offset : ℕ) (c : Connection)
      → offset ≤ expected
      → expected < offset + fuel
      → i ≤ offset
      → IsIdle c.response_buffer
      → c.response_buffer.length + room_needed fuel expected largest offset ≤ iscsi_buffer_size
      → Sent tag source expected largest fuel i offset c
  unfolding room_needed Sent
  data_in_loop-Stream zero i offset c inside enough count v room = absurd (omega arith)
  data_in_loop-Stream (suc fuel) i offset c inside enough count v room =
      let n = piece expected largest offset in
      let size = iscsi_pdu_padded_length (48 + n) in
      let final = final_of expected offset n in
      let after = answered c size (data_in_write tag source i offset n final) in
      let (at_most, within, ends, sum, natural) =
        piece_lem expected largest offset positive small (omega arith) inside in
      let (above, below, multiple) = padded_length_lem (48 + n) (omega arith) in
      let (round, answers) =
        round-Answers tag expected largest source i offset n c refl sum natural tag_int
          (omega arith) (omega arith) v (omega arith) (omega arith) in
      let pdu = newest c after in
      elim (Bool-cases (slt (add offset n) expected)) [
        | inl goes_on ↦
            let further : offset + n < expected = ground arith in
            let larger : 0 < n = ground arith in
            let not_last : final ≡ 0 = ground arith in
            let next : add i 1 ≡ i + 1 = omega arith in
            let room_left : room_needed (suc fuel) expected largest offset
                ≡ size + room_needed fuel expected largest (offset + n) =
              rw (lt→ltb (offset + n) expected further) refl in
            let (end, sent, runs, idle, holds, stream) =
              data_in_loop-Stream fuel (i + 1) (offset + n) after within (omega arith) (omega arith)
                answers.idle (omega (arith, room, room_left)) in
            (
              end,
              bytes pdu 0 size ++ sent,
              loop_more fuel tag expected largest source i offset c after round goes_on
                  ∙ ap₂ (λ j k. data_in_loop fuel tag expected largest source j k after) next sum
                  ∙ runs,
              idle,
              holds
                  ∙ ap (λ s. s ++ sent) answers.holds
                  ∙ append_assoc (contents c.response_buffer) (bytes pdu 0 size) sent,
              more pdu further at_most
                  (subst (λ f. DataInPdu tag source i offset n f pdu) not_last answers.fields)
                  stream,
            )
        | inr ends_here ↦
            let reached : offset + n ≡ expected = ground arith in
            let is_last : final ≡ 1 = ground arith in
            (
              after,
              bytes pdu 0 size,
              loop_last fuel tag expected largest source i offset c after round ends_here,
              answers.idle,
              answers.holds,
              last pdu reached at_most
                  (subst (λ f. DataInPdu tag source i offset n f pdu) is_last answers.fields),
            )
      ]

-- With a positive largest segment below 2 ^ 31, data of at most 2 ^ 22 bytes, a tag that is an int,
-- and a response buffer at rest that has room for the PDUs, `iscsi_request_data_in_send` returns:
-- its loop ends. Behind the bytes that waited there are then the PDUs that carry the data from the
-- first byte to the last, without gap or overlap, with numbers from 0 up and the final bit on the
-- last alone; the buffer is at rest.
pub send-Stream :
    (c : Connection) (tag expected : ℕ) (source : Memory)
    → let largest = c.parameter.max_receive_data_segment_length in
      0 < largest
      → largest < 2 ^ 31
      → expected ≤ 2 ^ 22
      → IsInt tag
      → IsIdle c.response_buffer
      → c.response_buffer.length + room_needed (suc expected) expected largest 0 ≤ iscsi_buffer_size
      → (after : Connection) × (sent : List ℕ) × (iscsi_request_data_in_send c tag expected source
          ≡ ok after)
        × IsIdle after.response_buffer
        × (contents after.response_buffer ≡ contents c.response_buffer ++ sent)
        × Stream tag source expected largest 0 0 sent
unfolding Sent
send-Stream c tag expected source positive small short tag_int v room =
    let (after, sent, runs, idle, holds, stream) =
      data_in_loop-Stream tag expected c.parameter.max_receive_data_segment_length source positive
        small short tag_int (suc expected) 0 0 c (omega arith) (omega arith) (omega arith) v room in
    (after, sent, send_runs c tag expected source positive ∙ runs, idle, holds, stream)
