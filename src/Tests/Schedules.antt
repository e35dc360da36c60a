-- ===== src/Tests/Schedules.antt =====
-- The shared response buffer under concrete schedules.
use iscsi.Prelude.{ℕ, ◌≡◌, refl, arith, true, false, List, [], ◌∷◌, length}
use iscsi.Prelude.Memory.{AreBytes}
use iscsi.Prelude.Outcome.{Outcome, ok}
use iscsi.Buffer.{
  iscsi_buffer_acquire_lock, iscsi_buffer_free_space, claim, iscsi_buffer_release_lock,
}
use iscsi.Pdu.{iscsi_pdu_valid, iscsi_pdu_length}
use iscsi.Server.Threads.Shared.{
  Shared, Writer, Turn, serving, sending, asks, puts, writes, transmits, turn, play, at_rest,
}
use iscsi.Server.Threads.Shared.Sound.{writer_holds, IsSound, StayWithin}
use iscsi.Server.Threads.Shared.Kept.{play-IsSound}
use iscsi.Server.Threads.Shared.Frozen.{frozen, failed-Frozen}
use iscsi.Tests.Samples.{blank, empty_buffer, empty-IsIdle}

blank-AreBytes : AreBytes blank
blank-AreBytes i = omega arith

-- A handler writes a header while the transmitter looks; the transmitter then sends it, while the
-- handler asks for room again, and waits.
abbrev schedule : List Turn
schedule =
    asks 48
    ∷ writes
    ∷ transmits true
    ∷ writes
    ∷ puts 0 0x20
    ∷ transmits true
    ∷ puts 1 0x80
    ∷ writes
    ∷ transmits true
    ∷ transmits true
    ∷ asks 48
    ∷ transmits true
    ∷ writes
    ∷ transmits true
    ∷ []

schedule-StayWithin : StayWithin schedule (at_rest empty_buffer [])
unfolding turn iscsi_buffer_acquire_lock iscsi_pdu_valid iscsi_pdu_length iscsi_buffer_free_space
    claim iscsi_buffer_release_lock
schedule-StayWithin = omega arith

play-IsSound_example :
    (after : Shared) × (play schedule (at_rest empty_buffer []) ≡ ok after) × IsSound [] [] after
play-IsSound_example =
    play-IsSound schedule empty_buffer [] empty-IsIdle blank-AreBytes (omega arith)
      schedule-StayWithin

abbrev sent_bytes : Outcome Shared → ℕ
sent_bytes (ok s) = length s.transmitted
sent_bytes _ = 0

header_is_sent : sent_bytes (play schedule (at_rest empty_buffer [])) ≡ 48
unfolding play turn iscsi_buffer_acquire_lock iscsi_pdu_valid iscsi_pdu_length
    iscsi_buffer_free_space claim iscsi_buffer_release_lock
header_is_sent = refl

-- The transmitter in front of a send, with the lock.
abbrev locked : Shared
locked = record {
  buffer = record empty_buffer { length = 48; lock = 0 };
  writer = serving;
  sender = sending 48;
  produced = [];
  transmitted = [];
}

failed-Frozen_example :
    (v : Writer) × (play
        (transmits false ∷ asks 48 ∷ writes ∷ [])
        (record locked { writer = serving; sender = sending 48 })
      ≡ ok (frozen v locked))
    × (writer_holds v ≡ 0)
failed-Frozen_example =
    failed-Frozen (asks 48 ∷ writes ∷ []) 48 serving locked refl refl (omega arith)
