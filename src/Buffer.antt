-- ===== src/Buffer.antt =====
-- iscsi_buffer.c, iscsi_buffer.h and iscsi_define.h: the byte buffers between the socket and the
-- server, each with a lock. `length` is an `int`, `lock` the count of the semaphore.
pub mod Contents
pub mod Flush
pub mod Append
pub mod Queue
use iscsi.Prelude.{
  ℕ, zero, suc, ◌+◌, ◌-◌, ◌^◌, Bool, true, false, Option, none, some, if◌then◌else◌, ltb, ◌==◌,
}
use iscsi.Prelude.Word.{add, sub, slt, is_negative}
use iscsi.Prelude.Memory.{Memory, poke, from, memcpy, memset}
use iscsi.Prelude.Outcome.{Outcome, ok, waits, fault, null_pointer, out_of_bounds, assertion, ◌>>=◌}

abbrev pub iscsi_buffer_size : ℕ
iscsi_buffer_size = 2 ^ 22

-- `struct iSCSIBuffer`
pub record Buffer : Type 0 where
  pub length : ℕ
  pub lock : ℕ
  pub contents : Memory

-- The constructor starts the semaphore; it does not set the length.
unfoldable pub iscsi_buffer_new : Buffer → Buffer
iscsi_buffer_new buffer = record buffer { lock = 1 }

unfoldable pub iscsi_buffer_free_space : Buffer → ℕ
iscsi_buffer_free_space buffer = sub iscsi_buffer_size buffer.length

-- `sem_wait`: it waits while the count is 0.
unfoldable pub iscsi_buffer_acquire_lock : Buffer → Outcome Buffer
iscsi_buffer_acquire_lock buffer =
    if buffer.lock == 0 then waits else ok (record buffer { lock = buffer.lock - 1 })

-- `sem_post`
unfoldable pub iscsi_buffer_release_lock : Buffer → ℕ → Buffer
iscsi_buffer_release_lock buffer offset = record buffer {
  length = add buffer.length offset;
  lock = buffer.lock + 1;
}

-- Once the lock is taken: without room it is given back, and the loop waits until another thread
-- makes room. With room the pointer `none` (NULL) or `some` comes back, with the lock held.
unfoldable pub claim : Buffer → ℕ → Outcome (Option Memory × Buffer)
claim buffer n =
    let zeroed = memset buffer.contents buffer.length 0 n in
    if slt (iscsi_buffer_free_space buffer) n
    then waits
    else if is_negative n
    then fault out_of_bounds
    else ok (some (from zeroed buffer.length), record buffer { contents = zeroed })

unfoldable pub iscsi_buffer_acquire_lock_for_length : Buffer → ℕ → Outcome (Option Memory × Buffer)
unfolding claim
iscsi_buffer_acquire_lock_for_length buffer n =
    if slt iscsi_buffer_size n
    then ok (none, buffer)
    else (iscsi_buffer_acquire_lock buffer >>= λ locked. claim locked n)

-- What was written through the pointer is in the buffer from `length` on.
unfoldable pub store : Buffer → Memory → Buffer
store buffer view = record buffer {
  contents = λ i. if ltb i buffer.length then buffer.contents i else view (i - buffer.length);
}

-- The pointer of `iscsi_buffer_acquire_lock_for_length` is used without a test.
unfoldable pub dereference : Option Memory → Outcome Memory
dereference none = fault null_pointer
dereference (some m) = ok m

-- `-1`
abbrev pub minus_one : ℕ
minus_one = 2 ^ 32 - 1

unfoldable pub iscsi_buffer_receive : Buffer → Memory → ℕ → Outcome (ℕ × Buffer)
unfolding dereference store
iscsi_buffer_receive buffer receive n =
    if slt iscsi_buffer_size n then ok (minus_one, buffer) else do
      (pointer, locked) ← iscsi_buffer_acquire_lock_for_length buffer n
      view ← dereference pointer
      ok (0, iscsi_buffer_release_lock (store locked (memcpy view 0 receive n)) n)

-- `for (i = 0; i < rounds; ++i) data[i] = data[i + n]`, from `i` on
unfoldable pub shift_down : ℕ → ℕ → ℕ → Memory → Memory
shift_down zero i n m = m
shift_down (suc rounds) i n m = shift_down rounds (suc i) n (poke m i (m (i + n)))

-- What is done with the lock held: the bytes behind the first `n` are moved to the front.
abbrev pub move_front : Buffer → ℕ → Buffer
move_front locked n =
    let rounds = if slt 0 (sub locked.length n) then sub locked.length n else 0 in
    record locked { contents = shift_down rounds 0 n locked.contents }

unfoldable pub iscsi_buffer_flush : Buffer → ℕ → Outcome Buffer
iscsi_buffer_flush buffer n = if slt buffer.length n then fault assertion else do
  locked ← iscsi_buffer_acquire_lock buffer
  ok (iscsi_buffer_release_lock (move_front locked n) (sub 0 n))
