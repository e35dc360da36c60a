-- ===== src/Response.antt =====
-- The way in which every handler under request/ answers: iscsi_buffer_acquire_lock_for_length on
-- the response buffer, the writes through the pointer, iscsi_buffer_release_lock by the same
-- length.
pub mod Laws
pub mod Extends
use iscsi.Prelude.{ℕ}
use iscsi.Prelude.Memory.{Memory}
use iscsi.Prelude.Outcome.{Outcome, ok, ◌>>=◌}
use iscsi.Buffer.{
  iscsi_buffer_acquire_lock_for_length, dereference, store, iscsi_buffer_release_lock,
}
use iscsi.State.{Connection}

-- What a handler writes while it holds the lock: the memory from the pointer on, and the connection
-- whose status number the header takes.
abbrev pub Writer : Type 0
Writer = Memory → Connection → Memory × Connection

unfoldable pub respond : Connection → ℕ → Writer → Outcome Connection
respond c n write = do
  (pointer, claimed) ← iscsi_buffer_acquire_lock_for_length c.response_buffer n
  buffer ← dereference pointer
  let (written, after) = write buffer (record c { response_buffer = claimed })
  ok (record after {
    response_buffer = iscsi_buffer_release_lock (store after.response_buffer written) n;
  })
