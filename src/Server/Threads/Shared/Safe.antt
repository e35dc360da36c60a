-- ===== src/Server/Threads/Shared/Safe.antt =====
-- iscsi_buffer.c: a step that does no harm, and `sem_wait` where the lock is free.
use iscsi.Prelude.{◌≤◌, ◌≡◌, arith, ◌==◌, Bool-cases, inl, inr}
use iscsi.Prelude.Outcome.{Outcome, ok, waits, fault, ◌>>=◌}
use iscsi.Buffer.{Buffer, iscsi_buffer_acquire_lock}
use iscsi.Server.Threads.Shared.{Shared}

-- No fault, and what is returned has the property.
abbrev pub Safe : (Shared → Type 0) → Outcome Shared → Type 0
Safe P (ok s) = P s
Safe P waits = Unit
Safe P (fault e) = ⊥

-- The lock is taken where it is free, and then by no one else.
pub acquire-Safe :
    (P : Shared → Type 0) (b : Buffer) (k : Buffer → Shared)
    → b.lock ≤ 1
    → ((b.lock ≡ 1) → P (k (record b { lock = 0 })))
    → Safe P (iscsi_buffer_acquire_lock b >>= λ locked. ok (k locked))
unfolding iscsi_buffer_acquire_lock
acquire-Safe P b k le h = elim (Bool-cases (b.lock == 0)) [
  | inl taken ↦ rw taken tt
  | inr free ↦ let one : b.lock ≡ 1 = ground (arith, free) in simp one (h one)
]
