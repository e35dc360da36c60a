-- ===== src/Server/Threads/Shared/Frozen.antt =====
-- main.c: `start_transmit` leaves its loop with the lock held, when a send fails.
use iscsi.Prelude.{ℕ, ◌≡◌, refl, arith, false, List, [], ◌∷◌}
use iscsi.Prelude.Word.{slt}
use iscsi.Prelude.Outcome.{Outcome, ok}
use iscsi.Buffer.{iscsi_buffer_size, iscsi_buffer_acquire_lock}
use iscsi.Server.Threads.Shared.{
  Shared, Writer, serving, wanting, checking, writing, stopped, sending, Turn, asks, puts, writes,
  transmits, turn, or_stay, play, ask_at, put_at, write_at, transmit_at,
}
use iscsi.Server.Threads.Shared.Sound.{writer_holds, IsFair, AreFair}

abbrev pub frozen : Writer → Shared → Shared
frozen w s = record s { writer = w; sender = stopped }

-- It comes to the same state, but for the writer, which does not hold the lock.
abbrev Frozen : Shared → Outcome Shared → Type 0
Frozen s m = (v : Writer) × (m ≡ ok (frozen v s)) × (writer_holds v ≡ 0)

turn-Frozen :
    (t : Turn) (w : Writer) (s : Shared)
    → s.buffer.lock ≡ 0
    → writer_holds w ≡ 0
    → IsFair t
    → Frozen s (or_stay (frozen w s) (turn t (frozen w s)))
unfolding turn ask_at put_at write_at transmit_at iscsi_buffer_acquire_lock
turn-Frozen (asks n) serving s taken none fair =
    let fits : slt iscsi_buffer_size n ≡ false = ground arith in (wanting n, rw fits refl, refl)
turn-Frozen (asks n) (wanting k) s taken none fair = (wanting k, refl, refl)
turn-Frozen (puts i v) serving s taken none fair = (serving, refl, refl)
turn-Frozen (puts i v) (wanting n) s taken none fair = (wanting n, refl, refl)
turn-Frozen writes serving s taken none fair = (serving, refl, refl)
turn-Frozen writes (wanting n) s taken none fair = (wanting n, rw taken refl, refl)
turn-Frozen (transmits success) w s taken none fair = (w, refl, none)
turn-Frozen _ (checking n) s taken none fair = absurd (omega arith)
turn-Frozen _ (writing n) s taken none fair = absurd (omega arith)

play-Frozen :
    (turns : List Turn) (w : Writer) (s : Shared)
    → s.buffer.lock ≡ 0
    → writer_holds w ≡ 0
    → AreFair turns
    → Frozen s (play turns (frozen w s))
unfolding play
play-Frozen [] w s taken none fair = (w, refl, none)
play-Frozen (t ∷ turns) w s taken none fair =
    let (v, now, free) = turn-Frozen t w s taken none fair.0 in
    rw now (play-Frozen turns v s taken free fair.1)

-- When `send` fails, the lock stays held by the transmitter, and whatever steps the threads try
-- from then on, the buffer, what was put into it and what was sent stay as they are, and no handler
-- gets the lock. The handlers ask for no more than the array holds.
pub failed-Frozen :
    (later : List Turn) (n : ℕ) (w : Writer) (s : Shared)
    → s.buffer.lock ≡ 0
    → writer_holds w ≡ 0
    → AreFair later
    → (v : Writer) × (play (transmits false ∷ later) (record s { writer = w; sender = sending n })
        ≡ ok (frozen v s))
      × (writer_holds v ≡ 0)
unfolding play turn transmit_at
failed-Frozen later n w s taken none fair = play-Frozen later w s taken none fair
