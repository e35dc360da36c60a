-- ===== src/Buffer/Queue.antt =====
-- iscsi_buffer.c: a buffer is a bounded queue of bytes.
use iscsi.Prelude.{
  ℕ, ◌+◌, ◌^◌, ◌<◌, ◌≡◌, refl, ap, arith, List, [], ◌∷◌, ◌++◌, drop, length, if◌then◌else◌, leb,
  ltb, Bool-cases, inl, inr,
}
use iscsi.Prelude.Memory.{Memory, bytes, length-bytes}
use iscsi.Prelude.Outcome.{Outcome, ok, waits, fault, assertion, ◌>>=◌}
use iscsi.Buffer.{Buffer, iscsi_buffer_size, iscsi_buffer_receive, iscsi_buffer_flush}
use iscsi.Buffer.Contents.{contents, IsIdle}
use iscsi.Buffer.Append.{receive_appends}
use iscsi.Buffer.Flush.{flush_drops, flush_asserts}

-- The calls that a thread makes: a chunk comes in, or bytes are taken off.
pub data Call : Type 0 where
  receive : Memory → ℕ → Call
  flush : ℕ → Call

-- The size is that of an `int` which is not negative.
abbrev pub IsSized : Call → Type 0
IsSized (receive source n) = n < 2 ^ 31
IsSized (flush n) = n < 2 ^ 31

unfoldable pub call : Buffer → Call → Outcome Buffer
call b (receive source n) = iscsi_buffer_receive b source n >>= λ r. ok r.1
call b (flush n) = iscsi_buffer_flush b n

-- The specification: a queue of at most `iscsi_buffer_size` bytes.
unfoldable pub spec_call : List ℕ → Call → Outcome (List ℕ)
spec_call q (receive source n) =
    if ltb iscsi_buffer_size n
    then ok q
    else if leb (length q + n) iscsi_buffer_size
    then ok (q ++ bytes source 0 n)
    else waits
spec_call q (flush n) = if leb n (length q) then ok (drop n q) else fault assertion

unfoldable pub run : Buffer → List Call → Outcome Buffer
run b [] = ok b
run b (c ∷ cs) = call b c >>= λ after. run after cs

unfoldable pub spec_run : List ℕ → List Call → Outcome (List ℕ)
spec_run q [] = ok q
spec_run q (c ∷ cs) = spec_call q c >>= λ after. spec_run after cs

abbrev pub view : Outcome Buffer → Outcome (List ℕ)
view m = m >>= λ b. ok (contents b)

-- What a call comes to: the same wait or fault as the queue's, or a buffer at rest with its bytes.
abbrev pub Implements : Outcome Buffer → Outcome (List ℕ) → Type 0
Implements (ok b) q = IsIdle b × (ok (contents b) ≡ q)
Implements waits q = waits ≡ q
Implements (fault e) q = fault e ≡ q

receive-Implements :
    (b : Buffer) (source : Memory) (n : ℕ)
    → IsIdle b
    → n < 2 ^ 31
    → Implements (call b (receive source n)) (spec_call (contents b) (receive source n))
unfolding call spec_call
receive-Implements b source n v small =
    let (refused, taken, full) = receive_appends b source n v small in
    let held = length-bytes b.contents 0 b.length in
    elim (Bool-cases (ltb iscsi_buffer_size n)) [
      | inl large ↦ rw (large, refused (ground arith)) (v, refl)
      | inr fits ↦ elim (Bool-cases (leb (b.length + n) iscsi_buffer_size)) [
        | inl room ↦
            let (after, returns, idle, holds) = taken (ground arith) in
            rw (fits, held, room, returns) (idle, ap ok holds)
        | inr crowded ↦ rw (fits, held, crowded, full (ground arith) (ground arith)) refl
      ]
    ]

flush-Implements :
    (b : Buffer) (n : ℕ)
    → IsIdle b
    → n < 2 ^ 31
    → Implements (call b (flush n)) (spec_call (contents b) (flush n))
unfolding call spec_call
flush-Implements b n v small =
    let held = length-bytes b.contents 0 b.length in
    elim (Bool-cases (leb n b.length)) [
      | inl enough ↦
          let (after, returns, idle, holds) = flush_drops b n v (ground arith) in
          rw (held, enough, returns) (idle, ap ok holds)
      | inr short ↦ rw (held, short, flush_asserts b n v.fits (ground arith) small) refl
    ]

-- Each call on a buffer at rest does to the bytes that it holds what the bounded queue does: it
-- returns, waits or fails where the queue does, and leaves the queue's bytes and the buffer at
-- rest.
pub call-Implements :
    (b : Buffer) (c : Call)
    → IsIdle b
    → IsSized c
    → Implements (call b c) (spec_call (contents b) c)
call-Implements b (receive source n) v small = receive-Implements b source n v small
call-Implements b (flush n) v small = flush-Implements b n v small

abbrev pub AreSized : List Call → Type 0
AreSized [] = Unit {0}
AreSized (c ∷ cs) = IsSized c × AreSized cs

run_step :
    (cs : List Call) (m : Outcome Buffer) (q : Outcome (List ℕ))
    → Implements m q
    → ((b : Buffer) → IsIdle b → Implements (run b cs) (spec_run (contents b) cs))
    → Implements (m >>= λ after. run after cs) (q >>= λ after. spec_run after cs)
run_step cs (ok b) q h ih = rw (← h.1) (ih b h.0)
run_step cs waits q h ih = rw (← h) refl
run_step cs (fault e) q h ih = rw (← h) refl

-- Every sequence of calls whose lengths are not negative `int`s, in whatever order the threads make
-- them, comes to what the bounded queue comes to, from a buffer at rest on.
pub run-Implements :
    (cs : List Call) (b : Buffer)
    → IsIdle b
    → AreSized cs
    → Implements (run b cs) (spec_run (contents b) cs)
unfolding run spec_run
run-Implements [] b v small = (v, refl)
run-Implements (c ∷ cs) b v small =
    run_step cs (call b c) (spec_call (contents b) c) (call-Implements b c v small.0)
      λ after idle. run-Implements cs after idle small.1
