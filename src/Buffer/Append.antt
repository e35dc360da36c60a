-- ===== src/Buffer/Append.antt =====
-- iscsi_buffer.c: `iscsi_buffer_receive` and the acquire, write and release of the server put bytes
-- at the end.
use iscsi.Prelude.{ℕ, ◌+◌, ◌^◌, ◌≤◌, ◌<◌, ◌≡◌, refl, ap, ◌∙◌, arith, ◌++◌, true, false, some}
use mathlib.Core.Path.{ap₂, fun_ext}
use iscsi.Prelude.Word.{add, sub, slt, is_negative}
use iscsi.Prelude.Memory.{Memory, bytes, bytes_ext, bytes-add, from, memset, memcpy}
use iscsi.Prelude.Outcome.{ok, waits}
use iscsi.Buffer.{
  Buffer, iscsi_buffer_size, iscsi_buffer_acquire_lock, iscsi_buffer_release_lock, store,
  iscsi_buffer_acquire_lock_for_length, iscsi_buffer_free_space, iscsi_buffer_receive, minus_one,
}
use iscsi.Buffer.Contents.{contents, IsIdle}

-- The memory that the holder of the lock is given: `n` zeros, and then what lay there.
abbrev pub room : Buffer → ℕ → Memory
room b n = from (memset b.contents b.length 0 n) b.length

abbrev pub locked : Buffer → ℕ → Buffer
locked b n = record b { lock = 0; contents = memset b.contents b.length 0 n }

-- At rest and with room, the lock is taken and the room is zeroed.
pub acquire_with_room :
    (b : Buffer) (n : ℕ)
    → IsIdle b
    → b.length + n ≤ iscsi_buffer_size
    → iscsi_buffer_acquire_lock_for_length b n ≡ ok (some (room b n), locked b n)
unfolding iscsi_buffer_acquire_lock_for_length iscsi_buffer_acquire_lock iscsi_buffer_free_space
acquire_with_room b n v h =
    let fits : slt iscsi_buffer_size n ≡ false = let small = v.fits in ground arith in
    let space : slt (sub iscsi_buffer_size b.length) n ≡ false =
      let small = v.fits in ground arith in
    let natural : is_negative n ≡ false = ground arith in
    rw (fits, v.free) (rw (space, natural) refl)

-- Without room the caller waits, and holds no lock.
pub acquire_without_room :
    (b : Buffer) (n : ℕ)
    → IsIdle b
    → n ≤ iscsi_buffer_size
    → iscsi_buffer_size < b.length + n
    → iscsi_buffer_acquire_lock_for_length b n ≡ waits
unfolding iscsi_buffer_acquire_lock_for_length iscsi_buffer_acquire_lock iscsi_buffer_free_space
acquire_without_room b n v small h =
    let fits : slt iscsi_buffer_size n ≡ false = ground arith in
    let space : slt (sub iscsi_buffer_size b.length) n ≡ true = let size = v.fits in ground arith in
    rw (fits, v.free) (rw space refl)

-- The buffer with `n` bytes of `view` behind what it held.
abbrev pub appended : Buffer → ℕ → Memory → Buffer
appended b n view = record (store b view) { length = b.length + n }

pub release_stored :
    (b : Buffer) (n : ℕ) (view : Memory)
    → IsIdle b
    → b.length + n ≤ iscsi_buffer_size
    → iscsi_buffer_release_lock (store (locked b n) view) n ≡ appended b n view
unfolding iscsi_buffer_release_lock store
release_stored b n view v h =
    let same : (store (locked b n) view).contents ≡ (store b view).contents =
      fun_ext λ k. ground arith in
    let sum : add b.length n ≡ b.length + n = omega arith in
    let free = v.free in ground (arith, same, sum)

pub contents-appended :
    (b : Buffer) (n : ℕ) (view : Memory)
    → contents (appended b n view) ≡ contents b ++ bytes view 0 n
unfolding store
contents-appended b n view =
    bytes-add (store b view).contents 0 b.length n
    ∙ ap₂ ◌++◌ (bytes_ext (store b view).contents b.contents 0 0 b.length λ k lt. grind arith)
        (bytes_ext (store b view).contents view (0 + b.length) 0 n λ k lt. grind arith)

pub appended-IsIdle :
    (b : Buffer) (n : ℕ) (view : Memory)
    → IsIdle b
    → b.length + n ≤ iscsi_buffer_size
    → IsIdle (appended b n view)
unfolding store
appended-IsIdle b n view v h = record { free = v.free; fits = h }

-- What is written through the pointer by `iscsi_buffer_receive`.
abbrev pub received : Buffer → Memory → ℕ → Buffer
received b source n = appended b n (memcpy (room b n) 0 source n)

pub receive-eq :
    (b : Buffer) (source : Memory) (n : ℕ)
    → IsIdle b
    → b.length + n ≤ iscsi_buffer_size
    → iscsi_buffer_receive b source n ≡ ok (0, received b source n)
unfolding iscsi_buffer_receive
receive-eq b source n v room_left =
    let fits : slt iscsi_buffer_size n ≡ false = let size = v.fits in ground arith in
    rw (fits, acquire_with_room b n v room_left)
      (ap (λ c. ok (0, c)) (release_stored b n (memcpy (room b n) 0 source n) v room_left))

pub contents-received :
    (b : Buffer) (source : Memory) (n : ℕ)
    → contents (received b source n) ≡ contents b ++ bytes source 0 n
contents-received b source n =
    let view = memcpy (room b n) 0 source n in
    contents-appended b n view
    ∙ ap (λ s. contents b ++ s) (bytes_ext view source 0 0 n λ k lt. grind arith)

-- What `iscsi_buffer_receive` does with a buffer at rest and a length that is not a negative `int`:
-- more than the array holds is refused with
-- -1 and changes nothing; what fits is put behind the bytes that are there, with the buffer at rest
-- again and the status 0; and if there is no room now, the call waits.
pub receive_appends :
    (b : Buffer) (source : Memory) (n : ℕ)
    → IsIdle b
    → n < 2 ^ 31
    → (iscsi_buffer_size < n → iscsi_buffer_receive b source n ≡ ok (minus_one, b))
      × (b.length + n ≤ iscsi_buffer_size
          → (after : Buffer) × (iscsi_buffer_receive b source n ≡ ok (0, after))
            × IsIdle after
            × (contents after ≡ contents b ++ bytes source 0 n))
      × (n ≤ iscsi_buffer_size
          → iscsi_buffer_size < b.length + n
          → iscsi_buffer_receive b source n ≡ waits)
unfolding iscsi_buffer_receive
receive_appends b source n v small = (
  λ large. ground arith,
  λ room_left. (
    received b source n,
    receive-eq b source n v room_left,
    appended-IsIdle b n (memcpy (room b n) 0 source n) v room_left,
    contents-received b source n,
  ),
  λ fits full.
      let ask : slt iscsi_buffer_size n ≡ false = ground arith in
      rw (ask, acquire_without_room b n v fits full),
)
