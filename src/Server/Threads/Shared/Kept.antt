-- ===== src/Server/Threads/Shared/Kept.antt =====
-- main.c and iscsi_buffer.c: the response buffer under every schedule of the two threads.
use iscsi.Prelude.{ℕ, ◌≡◌, arith, refl, sym, List, [], ◌∷◌, ◌++◌}
use mathlib.Core.List.{append-nil}
use iscsi.Prelude.Memory.{AreBytes}
use iscsi.Prelude.Outcome.{Outcome, ok, waits, fault, Always, ◌>>=◌}
use iscsi.Buffer.{Buffer}
use iscsi.Buffer.Contents.{contents, IsIdle}
use iscsi.Server.Threads.Shared.{
  Shared, Turn, asks, puts, writes, transmits, turn, or_stay, play, at_rest,
}
use iscsi.Server.Threads.Shared.Sound.{IsSound, IsFair, AreFair, PutsWithin, StayWithin}
use iscsi.Server.Threads.Shared.Safe.{Safe}
use iscsi.Server.Threads.Shared.Writes.{ask-Safe, put-Safe, write-Safe}
use iscsi.Server.Threads.Shared.Transmits.{transmit-Safe}

module _ (before first : List ℕ) where
  turn-Safe :
      (t : Turn) (s : Shared)
      → IsFair t
      → PutsWithin t s
      → IsSound before first s
      → Safe (IsSound before first) (turn t s)
  unfolding turn
  turn-Safe (asks n) s fair within sound = ask-Safe before first s.writer s n sound fair
  turn-Safe (puts place v) s fair within sound =
      put-Safe before first s.writer s place v sound fair within
  turn-Safe writes s fair within sound = write-Safe before first s.writer s sound
  turn-Safe (transmits success) s fair within sound =
      transmit-Safe before first s.sender s success sound

  Plays : Outcome Shared → Type 0
  Plays m = (after : Shared) × (m ≡ ok after) × IsSound before first after

  play_on :
      (s : Shared) (m : Outcome Shared) (next : Shared → Outcome Shared) (P : Shared → Type 0)
      → Always P (or_stay s m)
      → IsSound before first s
      → Safe (IsSound before first) m
      → ((after : Shared) → P after → IsSound before first after → Plays (next after))
      → Plays (or_stay s m >>= next)
  play_on s (ok after) next P holds sound safe k = k after holds safe
  play_on s waits next P holds sound safe k = k s holds sound
  play_on s (fault e) next P holds sound safe k = absurd safe

  play_from :
      (turns : List Turn) (s : Shared)
      → AreFair turns
      → StayWithin turns s
      → IsSound before first s
      → Plays (play turns s)
  unfolding play Plays
  play_from [] s fair within sound = (s, refl, sound)
  play_from (t ∷ turns) s fair within sound =
      play_on s (turn t s) (play turns) (StayWithin turns) within.1 sound
        (turn-Safe t s fair.0 within.0 sound)
        λ after stays kept. play_from turns after fair.1 stays kept

start-IsSound :
    (b : Buffer) (transmitted : List ℕ)
    → IsIdle b
    → AreBytes b.contents
    → IsSound transmitted (transmitted ++ contents b) (at_rest b transmitted)
start-IsSound b transmitted idle are = record {
  once = omega (arith, idle.free);
  fits = idle.fits;
  are = are;
  room = tt;
  front = tt;
  pdus = [];
  whole = tt;
  leaves = sym (append-nil transmitted);
  stream = sym (append-nil (transmitted ++ contents b));
}

-- Whatever the schedule of the single steps of the two threads, and however the sends end, from a
-- buffer at rest that holds bytes: no step fails an assertion or uses NULL, so that every schedule
-- plays to the end, a thread in front of the semaphore staying there while the lock is held; at
-- most one thread holds the lock; the length stays within the array, and the room that is written
-- is free; from the test on, the PDU at the front stays whole and the same until it is sent; what
-- was sent are whole PDUs; and what was sent and what is still to be sent are what the buffer held
-- and, behind it, all that was put into it. The handlers ask for no more than the array holds, and
-- write bytes, each into the room that they asked for.
pub play-IsSound :
    (turns : List Turn) (b : Buffer) (transmitted : List ℕ)
    → IsIdle b
    → AreBytes b.contents
    → AreFair turns
    → StayWithin turns (at_rest b transmitted)
    → (after : Shared) × (play turns (at_rest b transmitted) ≡ ok after)
      × IsSound transmitted (transmitted ++ contents b) after
unfolding Plays
play-IsSound turns b transmitted idle are fair within =
    play_from transmitted (transmitted ++ contents b) turns (at_rest b transmitted) fair within
      (start-IsSound b transmitted idle are)
