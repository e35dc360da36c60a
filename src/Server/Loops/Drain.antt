-- ===== src/Server/Loops/Drain.antt =====
-- main.c: the loop of `start_transmit` sends all that waits.
use iscsi.Prelude.{
  ℕ, Bool, ◌+◌, ◌-◌, ◌≤◌, ◌<◌, ◌≡◌, refl, sym, ap, ◌∙◌, arith, true, [], ◌∷◌, List, ◌++◌, length,
  concat, get_or, length-append, append_cancel, get_or-append,
}
use mathlib.Core.Path.{subst}
use iscsi.Prelude.Memory.{Memory, AreBytes, bytes, length-bytes, get_or-bytes}
use iscsi.Prelude.Outcome.{ok}
use iscsi.Buffer.{Buffer}
use iscsi.Buffer.Contents.{contents, IsIdle}
use iscsi.Buffer.Flush.{flushed, bytes-flushed, flushed-IsIdle, shift_down-AreBytes}
use iscsi.Pdu.{iscsi_pdu_length}
use iscsi.Pdu.Length.{ArePdus, length_bounds}
use iscsi.Server.Loops.{start_transmit, transmit_round}
use iscsi.Server.Loops.Transmit.{transmit-eq}

-- A send that succeeds, for each PDU.
abbrev pub all_sent : List (List ℕ) → List Bool
all_sent [] = []
all_sent (pdu ∷ pdus) = true ∷ all_sent pdus

-- The length in a header is that of any memory with the same first bytes.
length-same :
    (m k : Memory) → ((i : ℕ) → i < 48 → m i ≡ k i) → iscsi_pdu_length m ≡ iscsi_pdu_length k
unfolding iscsi_pdu_length
length-same m k same =
    ground (
      arith,
      same 4 (omega arith),
      same 5 (omega arith),
      same 6 (omega arith),
      same 7 (omega arith),
    )

front-length :
    (b : Buffer) (m : Memory) (rest : List ℕ)
    → AreBytes m
    → contents b ≡ bytes m 0 (iscsi_pdu_length m) ++ rest
    → (iscsi_pdu_length b.contents ≡ iscsi_pdu_length m) × (iscsi_pdu_length m ≤ b.length)
front-length b m rest are holds =
    let n = iscsi_pdu_length m in
    let (header, multiple, largest) = length_bounds m are in
    let size : length (bytes m 0 n ++ rest) ≡ n + length rest =
      length-append (bytes m 0 n) rest ∙ ap (λ k. k + length rest) (length-bytes m 0 n) in
    let whole : b.length ≡ n + length rest =
      sym (length-bytes b.contents 0 b.length) ∙ ap length holds ∙ size in
    let same = λ (i : ℕ) (h : i < 48).
      let inside : i < length (bytes m 0 n) = omega (arith, length-bytes m 0 n) in
      let here : 0 + i ≡ i = omega arith in
      subst (λ j. b.contents j ≡ m j) here
        (sym (get_or-bytes b.contents 0 b.length i (omega arith))
          ∙ ap (λ s. get_or s i 0) holds
          ∙ get_or-append (bytes m 0 n) rest i 0 inside
          ∙ get_or-bytes m 0 n i (omega arith)) in
    (length-same b.contents m same, omega arith)

-- A round that sends, in front of the rounds that follow.
drain_step :
    (rounds : List Bool) (b rest after : Buffer) (pdu : List ℕ) (pdus : List (List ℕ))
    → transmit_round true b ≡ ok (pdu, true, rest)
    → start_transmit rounds rest ≡ ok (pdus, after)
    → start_transmit (true ∷ rounds) b ≡ ok (pdu ∷ pdus, after)
unfolding start_transmit
drain_step rounds b rest after pdu pdus sends runs = rw (sends, runs) refl

-- The round that sends the first `n` bytes, when these are the PDU.
front-round :
    (b : Buffer) (n : ℕ) (pdu : List ℕ)
    → IsIdle b
    → AreBytes b.contents
    → iscsi_pdu_length b.contents ≡ n
    → n ≤ b.length
    → bytes b.contents 0 n ≡ pdu
    → transmit_round true b ≡ ok (pdu, true, flushed b n)
front-round b n pdu v are same inside sent =
    subst (λ k. transmit_round true b ≡ ok (bytes b.contents 0 k, true, flushed b k)) same
      (transmit-eq b v are (omega arith))
    ∙ ap (λ s. ok (s, true, flushed b n)) sent

-- When the response buffer, at rest and of bytes, holds PDUs one behind the other, as many rounds
-- of `start_transmit` as there are PDUs, whose sends succeed, send these PDUs, one in each round
-- and in their order, and leave the buffer empty and at rest.
pub transmit_drains :
    (pdus : List (List ℕ)) (b : Buffer)
    → IsIdle b
    → AreBytes b.contents
    → ArePdus pdus
    → contents b ≡ concat pdus
    → (after : Buffer) × (start_transmit (all_sent pdus) b ≡ ok (pdus, after))
      × (contents after ≡ [])
      × IsIdle after
unfolding start_transmit
transmit_drains [] b v are whole holds = (b, refl, holds, v)
transmit_drains (pdu ∷ pdus) b v are ((m, m_bytes, is_pdu), whole) holds =
    let n = iscsi_pdu_length m in
    let (same, inside) =
      front-length b m (concat pdus) m_bytes (holds ∙ ap (λ s. s ++ concat pdus) is_pdu) in
    let front = bytes b.contents 0 n in
    let (sent, rest) =
      append_cancel front pdu (contents (flushed b n)) (concat pdus)
        (length-bytes b.contents 0 n ∙ sym (ap length is_pdu ∙ length-bytes m 0 n))
        (bytes-flushed b n inside ∙ holds) in
    let (after, runs, empty, idle) =
      transmit_drains pdus (flushed b n) (flushed-IsIdle b n v)
        (shift_down-AreBytes (b.length - n) 0 n b.contents are) whole rest in
    (
      after,
      drain_step (all_sent pdus) b (flushed b n) after pdu pdus
          (front-round b n pdu v are same inside sent) runs,
      empty,
      idle,
    )
