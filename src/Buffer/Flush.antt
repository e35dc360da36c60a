-- ===== src/Buffer/Flush.antt =====
-- iscsi_buffer.c: `iscsi_buffer_flush` takes the first bytes off.
use iscsi.Prelude.{
  ℕ, zero, suc, ◌+◌, ◌-◌, ◌≤◌, ◌<◌, ◌≡◌, refl, sym, ap, ◌∙◌, arith, false, ◌^◌, drop, ◌++◌,
  if◌then◌else◌,
}
use iscsi.Prelude.Memory.{Memory, AreBytes, poke, bytes, bytes_ext, drop-bytes, bytes-add}
use iscsi.Prelude.Outcome.{ok, fault, assertion}
use iscsi.Prelude.Word.{add, sub, slt}
use iscsi.Buffer.{
  Buffer, iscsi_buffer_size, iscsi_buffer_acquire_lock, iscsi_buffer_release_lock, shift_down,
  iscsi_buffer_flush,
}
use iscsi.Buffer.Contents.{contents, IsIdle}

-- The loop has copied down the bytes of the rounds that it made.
pub shift_down_lem :
    (rounds i n : ℕ) (m : Memory) (k : ℕ)
    → (k < i + rounds → i ≤ k → shift_down rounds i n m k ≡ m (k + n))
      × (k < i → shift_down rounds i n m k ≡ m k)
unfolding shift_down
shift_down_lem zero i n m k = (λ a b. absurd (omega arith), λ a. refl)
shift_down_lem (suc rounds) i n m k =
    ground (arith, shift_down_lem rounds (suc i) n (poke m i (m (i + n))) k)

pub shift_down-AreBytes :
    (rounds i n : ℕ) (m : Memory) → AreBytes m → AreBytes (shift_down rounds i n m)
unfolding shift_down
shift_down-AreBytes zero i n m are = are
shift_down-AreBytes (suc rounds) i n m are =
    shift_down-AreBytes rounds (suc i) n (poke m i (m (i + n)))
      λ k. ground (arith, are k, are (i + n))

bytes-shift_down :
    (m : Memory) (n rest : ℕ) → bytes (shift_down rest 0 n m) 0 rest ≡ drop n (bytes m 0 (n + rest))
bytes-shift_down m n rest =
    bytes_ext (shift_down rest 0 n m) m 0 n rest
      (λ i lt. grind (arith, (shift_down_lem rest 0 n m i).0 (omega arith) (omega arith)))
    ∙ sym (drop-bytes m 0 n rest ∙ grind arith)

-- The buffer without its first `n` bytes.
abbrev pub flushed : Buffer → ℕ → Buffer
flushed b n = record b {
  length = b.length - n;
  contents = shift_down (b.length - n) 0 n b.contents;
}

pub rounds_left :
    (len n : ℕ)
    → n ≤ len
    → len ≤ iscsi_buffer_size
    → ((if slt 0 (sub len n) then sub len n else 0) ≡ len - n)
      × (add len (sub 0 n) ≡ len - n)
      × (slt len n ≡ false)
rounds_left len n h fits = ground arith

pub flush-eq :
    {b : Buffer} (n : ℕ) → IsIdle b → n ≤ b.length → iscsi_buffer_flush b n ≡ ok (flushed b n)
unfolding iscsi_buffer_flush iscsi_buffer_acquire_lock iscsi_buffer_release_lock
flush-eq {b} n v h =
    let (rounds, left, enough) = rounds_left b.length n h v.fits in
    rw (enough, v.free) (rw (rounds, left) refl)

pub contents-flushed :
    (b : Buffer) (n : ℕ) → n ≤ b.length → contents (flushed b n) ≡ drop n (contents b)
contents-flushed b n h =
    let total : b.length ≡ n + (b.length - n) = omega arith in
    bytes-shift_down b.contents n (b.length - n)
    ∙ ap (λ k. drop n (bytes b.contents 0 k)) (sym total)

-- The bytes that are taken off, and those that are left, are what was there.
pub bytes-flushed :
    (b : Buffer) (n : ℕ)
    → n ≤ b.length
    → bytes b.contents 0 n ++ contents (flushed b n) ≡ contents b
bytes-flushed b n h =
    let rest = b.length - n in
    let total : b.length ≡ n + rest = omega arith in
    ap (λ s. bytes b.contents 0 n ++ s)
      (contents-flushed b n h
        ∙ ap (λ k. drop n (bytes b.contents 0 k)) total
        ∙ drop-bytes b.contents 0 n rest)
    ∙ sym (bytes-add b.contents 0 n rest)
    ∙ ap (λ k. bytes b.contents 0 k) (sym total)

pub flushed-IsIdle : (b : Buffer) (n : ℕ) → IsIdle b → IsIdle (flushed b n)
flushed-IsIdle b n v = record { free = v.free; fits = let small = v.fits in omega arith }

-- On a buffer at rest that holds at least `n` bytes, `iscsi_buffer_flush` returns with the buffer
-- at rest again, and what the buffer holds is what it held without its first `n` bytes.
pub flush_drops :
    (b : Buffer) (n : ℕ)
    → IsIdle b
    → n ≤ b.length
    → (after : Buffer) × (iscsi_buffer_flush b n ≡ ok after)
      × IsIdle after
      × (contents after ≡ drop n (contents b))
flush_drops b n v h = (flushed b n, flush-eq n v h, flushed-IsIdle b n v, contents-flushed b n h)

-- With fewer than `n` bytes the assertion fails, before the lock is taken.
pub flush_asserts :
    (b : Buffer) (n : ℕ)
    → b.length ≤ iscsi_buffer_size
    → b.length < n
    → n < 2 ^ 31
    → iscsi_buffer_flush b n ≡ fault assertion
unfolding iscsi_buffer_flush
flush_asserts b n fits h small = ground arith
