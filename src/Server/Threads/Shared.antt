-- ===== src/Server/Threads/Shared.antt =====
-- main.c and iscsi_buffer.c: the response buffer between the thread that serves PDUs and the one
-- that transmits, at the grain of single operations on the lock.
pub mod Sound
pub mod Longer
pub mod Safe
pub mod Writes
pub mod Transmits
pub mod Kept
pub mod Frozen
use iscsi.Prelude.{ℕ, ◌+◌, Bool, true, false, if◌then◌else◌, ltb, List, [], ◌∷◌, ◌++◌}
use iscsi.Prelude.Word.{sub, slt}
use iscsi.Prelude.Memory.{bytes, poke}
use iscsi.Prelude.Outcome.{Outcome, ok, waits, fault, null_pointer, out_of_bounds, assertion, ◌>>=◌}
use iscsi.Buffer.{
  Buffer, iscsi_buffer_size, iscsi_buffer_free_space, iscsi_buffer_acquire_lock,
  iscsi_buffer_release_lock, claim, move_front,
}
use iscsi.Pdu.{iscsi_pdu_valid, iscsi_pdu_length}

-- Where the thread that serves PDUs is, with the length that it asked for: it serves, it is in
-- front of `sem_wait`, behind it, or it writes through the pointer that it was given.
pub data Writer : Type 0 where
  serving : Writer
  wanting checking writing : ℕ → Writer

-- Where `start_transmit` is, with the length of the PDU at the front: in front of the test, behind
-- it, in front of `sem_wait`, of `send`, of `sem_post`, of the assertion of `iscsi_buffer_flush`,
-- of the `sem_wait` there, and of the loop there; or the loop was left.
pub data Sender : Type 0 where
  looking found stopped : Sender
  asking sending sent flushing clearing moving : ℕ → Sender

-- What the threads share, where each is, all that was put into the buffer and all that was sent.
pub record Shared : Type 0 where
  pub buffer : Buffer
  pub writer : Writer
  pub sender : Sender
  pub produced : List ℕ
  pub transmitted : List ℕ

-- Both threads in front of what they do.
abbrev pub at_rest : Buffer → List ℕ → Shared
at_rest b transmitted = record {
  buffer = b;
  writer = serving;
  sender = looking;
  produced = [];
  transmitted = transmitted;
}

-- A thread goes on: the first asks for a length, writes a byte through its pointer, or takes the
-- next step of an acquire or a release; the other takes its next step, with what `send` returns.
pub data Turn : Type 0 where
  asks : ℕ → Turn
  puts : ℕ → ℕ → Turn
  writes : Turn
  transmits : Bool → Turn

-- A length above the array's has NULL returned, through which the callers write.
unfoldable pub ask_at : Writer → ℕ → Shared → Outcome Shared
ask_at serving n s =
    if slt iscsi_buffer_size n then fault null_pointer else ok (record s { writer = wanting n })
ask_at _ n s = ok s

-- A write through the pointer, to the byte of the array at `place`: nothing in the code keeps it to
-- the room that was asked for.
unfoldable pub put_at : Writer → ℕ → ℕ → Shared → Outcome Shared
put_at (writing n) place v s =
    let poked = record s.buffer { contents = poke s.buffer.contents place v } in
    if ltb place iscsi_buffer_size then ok (record s { buffer = poked }) else fault out_of_bounds
put_at _ place v s = ok s

unfoldable pub write_at : Writer → Shared → Outcome Shared
write_at serving s = ok s
write_at (wanting n) s = iscsi_buffer_acquire_lock s.buffer >>= λ locked.
    ok (record s { buffer = locked; writer = checking n })
write_at (checking n) s =
    if slt (iscsi_buffer_free_space s.buffer) n
    then ok (record s { buffer = iscsi_buffer_release_lock s.buffer 0; writer = wanting n })
    else (claim s.buffer n >>= λ r. ok (record s { buffer = r.1; writer = writing n }))
write_at (writing n) s = ok (record s {
  buffer = iscsi_buffer_release_lock s.buffer n;
  writer = serving;
  produced = s.produced ++ bytes s.buffer.contents s.buffer.length n;
})

-- When `send` returns an error the loop is left, with the lock held.
unfoldable pub transmit_at : Sender → Bool → Shared → Outcome Shared
transmit_at looking success s =
    ok
      (if iscsi_pdu_valid s.buffer.contents s.buffer.length then record s { sender = found } else s)
transmit_at found success s = ok (record s { sender = asking (iscsi_pdu_length s.buffer.contents) })
transmit_at (asking n) success s = iscsi_buffer_acquire_lock s.buffer >>= λ locked.
    ok (record s { buffer = locked; sender = sending n })
transmit_at (sending n) true s =
    ok (record s { sender = sent n; transmitted = s.transmitted ++ bytes s.buffer.contents 0 n })
transmit_at (sending n) false s = ok (record s { sender = stopped })
transmit_at (sent n) success s =
    ok (record s { buffer = iscsi_buffer_release_lock s.buffer 0; sender = flushing n })
transmit_at (flushing n) success s =
    if slt s.buffer.length n then fault assertion else ok (record s { sender = clearing n })
transmit_at (clearing n) success s = iscsi_buffer_acquire_lock s.buffer >>= λ locked.
    ok (record s { buffer = locked; sender = moving n })
transmit_at (moving n) success s = ok (record s {
  buffer = iscsi_buffer_release_lock (move_front s.buffer n) (sub 0 n);
  sender = looking;
})
transmit_at stopped success s = ok s

unfoldable pub turn : Turn → Shared → Outcome Shared
unfolding ask_at put_at write_at transmit_at
turn (asks n) s = ask_at s.writer n s
turn (puts place v) s = put_at s.writer place v s
turn writes s = write_at s.writer s
turn (transmits success) s = transmit_at s.sender success s

-- A thread that has to wait on the semaphore stays where it is.
abbrev pub or_stay : Shared → Outcome Shared → Outcome Shared
or_stay s waits = ok s
or_stay s m = m

-- The turns in the order in which the threads take them.
unfoldable pub play : List Turn → Shared → Outcome Shared
play [] s = ok s
play (t ∷ turns) s = or_stay s (turn t s) >>= λ after. play turns after
