-- ===== src/Response/Extends.antt =====
-- What no answer can do: it takes nothing away from the response buffer, does not keep its lock,
-- and leaves the receive buffer alone.
use iscsi.Prelude.{
  ℕ, none, ◌+◌, ◌≤◌, ◌≡◌, ◌⊎◌, inl, inr, refl, sym, ap, ◌∙◌, arith, List, [], ◌++◌, append_assoc,
}
use mathlib.Core.List.{append-nil}
use iscsi.Prelude.Memory.{Memory, bytes}
use iscsi.Prelude.Outcome.{ok, waits, fault, out_of_bounds, Always}
use iscsi.Buffer.{
  Buffer, iscsi_buffer_size, iscsi_buffer_acquire_lock_for_length, iscsi_buffer_acquire_lock, claim,
  iscsi_buffer_free_space, dereference,
}
use iscsi.Buffer.Contents.{contents, IsIdle}
use iscsi.State.{Connection}
use iscsi.Response.{Writer, respond}
use iscsi.Response.Laws.{respond-Answers, answered, newest}

-- The response buffer is at rest and holds what was held, and then more; the receive buffer is as
-- it was.
pub record Extends (held : List ℕ) (receiver : Buffer) (after : Connection) : Type 0 where
  pub idle : IsIdle after.response_buffer
  pub more : List ℕ
  pub holds : contents after.response_buffer ≡ held ++ more
  pub receives : after.receive_buffer ≡ receiver

-- What is written leaves both buffers of the connection alone.
abbrev pub KeepsBuffers : Writer → Type 0
KeepsBuffers write =
    (m : Memory) (c : Connection)
    → ((write m c).1.response_buffer ≡ c.response_buffer)
      × ((write m c).1.receive_buffer ≡ c.receive_buffer)

pub Extends-start :
    (c : Connection)
    → IsIdle c.response_buffer
    → Extends (contents c.response_buffer) c.receive_buffer c
Extends-start c v = record {
  idle = v;
  more = [];
  holds = sym (append-nil (contents c.response_buffer));
  receives = refl;
}

pub Extends-then :
    {held : List ℕ} {receiver : Buffer} {c d : Connection}
    → Extends held receiver c
    → Extends (contents c.response_buffer) c.receive_buffer d
    → Extends held receiver d
Extends-then {held} h k = record {
  idle = k.idle;
  more = h.more ++ k.more;
  holds = k.holds ∙ ap (λ s. s ++ k.more) h.holds ∙ append_assoc held h.more k.more;
  receives = k.receives ∙ h.receives;
}

-- Without room the call waits, is refused with NULL, or writes out of bounds.
acquire_cases :
    (b : Buffer) (n : ℕ)
    → IsIdle b
    → (b.length + n ≤ iscsi_buffer_size)
      ⊎ (iscsi_buffer_acquire_lock_for_length b n ≡ waits)
      ⊎ (iscsi_buffer_acquire_lock_for_length b n ≡ fault out_of_bounds)
      ⊎ (iscsi_buffer_acquire_lock_for_length b n ≡ ok (none, b))
unfolding iscsi_buffer_acquire_lock_for_length iscsi_buffer_acquire_lock claim
    iscsi_buffer_free_space
acquire_cases b n v = let fits = v.fits in let free = v.free in ground arith

respond_with_room :
    (c : Connection) (n : ℕ) (write : Writer)
    → KeepsBuffers write
    → IsIdle c.response_buffer
    → c.response_buffer.length + n ≤ iscsi_buffer_size
    → Always (Extends (contents c.response_buffer) c.receive_buffer) (respond c n write)
respond_with_room c n write keeps v room =
    let (sent, answers) =
      respond-Answers c n write (λ _. Unit {0}) (λ m d. (keeps m d).0) (λ _ _ _ _ _. tt) v room in
    rw sent (record {
      idle = answers.idle;
      more = bytes (newest c (answered c n write)) 0 n;
      holds = answers.holds;
      receives = (keeps _ _).1;
    })

-- Whatever the length, an answer that returns has been put behind what was there.
pub respond-Extends :
    (c : Connection) (n : ℕ) (write : Writer)
    → KeepsBuffers write
    → IsIdle c.response_buffer
    → Always (Extends (contents c.response_buffer) c.receive_buffer) (respond c n write)
unfolding respond dereference
respond-Extends c n write keeps v = elim (acquire_cases c.response_buffer n v) [
  | inl room ↦ respond_with_room c n write keeps v room
  | inr (inl e) ↦ rw e tt
  | inr (inr (inl e)) ↦ rw e tt
  | inr (inr (inr e)) ↦ rw e tt
]
