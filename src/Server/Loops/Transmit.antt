-- ===== src/Server/Loops/Transmit.antt =====
-- main.c: what a round of `start_transmit` sends.
use iscsi.Prelude.{ℕ, ◌+◌, ◌-◌, ◌≤◌, ◌<◌, ◌≡◌, ap, ◌∙◌, arith, true, [], List, ◌++◌, length}
use iscsi.Prelude.Memory.{AreBytes, bytes, length-bytes}
use mathlib.Core.Path.{ap₂}
use iscsi.Prelude.Word.{add}
use iscsi.Prelude.Outcome.{ok, ◌>>=◌}
use iscsi.Buffer.{Buffer, iscsi_buffer_acquire_lock, iscsi_buffer_release_lock, iscsi_buffer_flush}
use iscsi.Buffer.Contents.{contents, IsIdle}
use iscsi.Buffer.Flush.{flushed, flush-eq, bytes-flushed}
use iscsi.Pdu.{iscsi_pdu_length}
use iscsi.Pdu.Length.{valid_iff}
use iscsi.Server.Loops.{send_front, transmit_round}

-- Taking the lock and giving it back with nothing written changes nothing.
relock : (b : Buffer) → IsIdle b → iscsi_buffer_release_lock (record b { lock = b.lock - 1 }) 0 ≡ b
unfolding iscsi_buffer_release_lock
relock b v =
    let free = v.free in
    let small = v.fits in
    let same : add b.length 0 ≡ b.length = omega arith in
    let back : b.lock - 1 + 1 ≡ b.lock = omega arith in
    ap₂ (λ n k. record b { length = n; lock = k }) same back

send_front-eq :
    (b : Buffer) (n : ℕ)
    → IsIdle b
    → n ≤ b.length
    → send_front true b n ≡ ok (bytes b.contents 0 n, true, flushed b n)
unfolding send_front iscsi_buffer_acquire_lock
send_front-eq b n v h =
    let pdu = bytes b.contents 0 n in
    let taken : iscsi_buffer_acquire_lock b ≡ ok (record b { lock = b.lock - 1 }) =
      let free = v.free in ground arith in
    rw taken (
      ap (λ r. iscsi_buffer_flush r n >>= λ rest. ok (pdu, true, rest)) (relock b v)
      ∙ ap (λ r. r >>= λ rest. ok (pdu, true, rest)) (flush-eq n v h))

pub transmit-eq :
    (b : Buffer)
    → IsIdle b
    → AreBytes b.contents
    → iscsi_pdu_length b.contents ≤ b.length
    → transmit_round true b
      ≡ ok (
        bytes b.contents 0 (iscsi_pdu_length b.contents),
        true,
        flushed b (iscsi_pdu_length b.contents),
      )
unfolding transmit_round
transmit-eq b v are whole =
    let valid = valid_iff b.contents b.length are (let small = v.fits in omega arith) in
    rw (valid.1 whole) (send_front-eq b (iscsi_pdu_length b.contents) v whole)

-- A round of `start_transmit` on a response buffer at rest, when `send` succeeds. When the PDU at
-- the front is whole, exactly its bytes are sent, and what was sent followed by what the buffer
-- then holds is what it held: no byte is lost, repeated or moved, and the buffer is at rest. When
-- it is not whole, nothing is sent and the buffer stays.
pub transmit_sends :
    (b : Buffer)
    → IsIdle b
    → AreBytes b.contents
    → (iscsi_pdu_length b.contents ≤ b.length
        → (pdu : List ℕ) × (after : Buffer) × (transmit_round true b ≡ ok (pdu, true, after))
          × (length pdu ≡ iscsi_pdu_length b.contents)
          × (pdu ++ contents after ≡ contents b)
          × IsIdle after)
      × (b.length < iscsi_pdu_length b.contents → transmit_round true b ≡ ok ([], true, b))
unfolding transmit_round
transmit_sends b v are =
    let n = iscsi_pdu_length b.contents in
    let whole = valid_iff b.contents b.length are (let small = v.fits in omega arith) in
    (
      λ h. (
        bytes b.contents 0 n,
        flushed b n,
        transmit-eq b v are h,
        length-bytes b.contents 0 n,
        bytes-flushed b n h,
        record { free = v.free; fits = let small = v.fits in omega arith },
      ),
      λ h. ground (arith, whole),
    )
