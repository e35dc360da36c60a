-- ===== src/Server/Threads/Shared/Sound.antt =====
-- main.c and iscsi_buffer.c: what holds of the shared response buffer between two steps of the
-- threads.
use iscsi.Prelude.{ℕ, ◌+◌, ◌-◌, ◌≤◌, ◌<◌, ◌≡◌, List, [], ◌∷◌, ◌++◌, concat}
use iscsi.Prelude.Word.{IsByte}
use iscsi.Prelude.Memory.{AreBytes, bytes}
use iscsi.Prelude.Outcome.{Always}
use iscsi.Buffer.{Buffer, iscsi_buffer_size}
use iscsi.Buffer.Contents.{contents}
use iscsi.Pdu.{iscsi_pdu_length}
use iscsi.Pdu.Length.{ArePdus}
use iscsi.Server.Threads.Shared.{
  Shared, Writer, Sender, Turn, serving, wanting, checking, writing, looking, found, stopped,
  asking, sending, sent, flushing, clearing, moving, asks, puts, turn, or_stay,
}

-- Whether a thread holds the lock.
abbrev pub writer_holds : Writer → ℕ
writer_holds (checking n) = 1
writer_holds (writing n) = 1
writer_holds _ = 0

abbrev pub sender_holds : Sender → ℕ
sender_holds (sending n) = 1
sender_holds (sent n) = 1
sender_holds (moving n) = 1
sender_holds stopped = 1
sender_holds _ = 0

-- What was asked for can be in the array, and is free while it is written.
abbrev pub HasRoom : Writer → ℕ → Type 0
HasRoom serving used = Unit
HasRoom (writing n) used = used + n ≤ iscsi_buffer_size
HasRoom (wanting n) used = n ≤ iscsi_buffer_size
HasRoom (checking n) used = n ≤ iscsi_buffer_size

-- The PDU at the front is whole from the test on, and is the one that was measured until it is
-- sent.
abbrev pub HasFront : Sender → Buffer → Type 0
HasFront looking b = Unit
HasFront stopped b = Unit
HasFront found b = iscsi_pdu_length b.contents ≤ b.length
HasFront (asking n) b = (n ≤ b.length) × (n ≡ iscsi_pdu_length b.contents)
HasFront (sending n) b = (n ≤ b.length) × (n ≡ iscsi_pdu_length b.contents)
HasFront (sent n) b = n ≤ b.length
HasFront (flushing n) b = n ≤ b.length
HasFront (clearing n) b = n ≤ b.length
HasFront (moving n) b = n ≤ b.length

-- What the buffer holds that is still to be sent.
abbrev pub unsent : Sender → Buffer → List ℕ
unsent (sent n) b = bytes b.contents n (b.length - n)
unsent (flushing n) b = bytes b.contents n (b.length - n)
unsent (clearing n) b = bytes b.contents n (b.length - n)
unsent (moving n) b = bytes b.contents n (b.length - n)
unsent _ b = contents b

-- The lock is free or one thread holds it; the threads find what they were promised; what was sent
-- since `before` are whole PDUs; and what was sent and what waits are `first` and, behind it, all
-- that was put into the buffer.
pub record IsSound (before first : List ℕ) (s : Shared) : Type 0 where
  pub once : writer_holds s.writer + sender_holds s.sender + s.buffer.lock ≡ 1
  pub fits : s.buffer.length ≤ iscsi_buffer_size
  pub are : AreBytes s.buffer.contents
  pub room : HasRoom s.writer s.buffer.length
  pub front : HasFront s.sender s.buffer
  pub pdus : List (List ℕ)
  pub whole : ArePdus pdus
  pub leaves : s.transmitted ≡ before ++ concat pdus
  pub stream : s.transmitted ++ unsent s.sender s.buffer ≡ first ++ s.produced

-- No handler asks for more than the array holds, and what it writes are bytes.
abbrev pub IsFair : Turn → Type 0
IsFair (asks n) = n ≤ iscsi_buffer_size
IsFair (puts i v) = IsByte v
IsFair _ = Unit

abbrev pub AreFair : List Turn → Type 0
AreFair [] = Unit {0}
AreFair (t ∷ turns) = IsFair t × AreFair turns

-- A byte is written into the room that the handler asked for.
abbrev pub IsWithin : Writer → ℕ → ℕ → Type 0
IsWithin (writing n) used place = (used ≤ place) × (place < used + n)
IsWithin _ used place = Unit

abbrev pub PutsWithin : Turn → Shared → Type 0
PutsWithin (puts place v) s = IsWithin s.writer s.buffer.length place
PutsWithin _ s = Unit

-- Every byte that is written while the turns are taken, from `s` on, is.
abbrev pub StayWithin : List Turn → Shared → Type 0
StayWithin [] s = Unit
StayWithin (t ∷ turns) s = PutsWithin t s × Always (StayWithin turns) (or_stay s (turn t s))
