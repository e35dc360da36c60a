-- ===== src/Server/Dispatch/Growth.antt =====
-- iscsi_server.c: what serving a PDU does to the two buffers of the connection.
pub mod Logins
pub mod Commands
pub mod Served
use mathlib.Core.Path.{subst}
use iscsi.Prelude.{ℕ, ◌≡◌}
use iscsi.Prelude.Outcome.{Outcome, Always}
use iscsi.Buffer.{Buffer}
use iscsi.Buffer.Contents.{contents}
use iscsi.State.{Connection, Process}
use iscsi.Response.Extends.{Extends}

-- The connection is that of `p`, with answers behind those that wait there.
abbrev pub Grown : Process → Connection → Type 0
Grown p = Extends (contents p.connection.response_buffer) p.connection.receive_buffer

-- What a call that starts from `p` returns has put its answers behind those that wait there.
abbrev pub Serves : Process → Outcome (ℕ × Process) → Type 0
Serves p m = Always (λ r. Grown p r.1.connection) m

-- A call from a process with the same buffers.
pub Serves-from :
    (p q : Process) (m : Outcome (ℕ × Process))
    → q.connection.response_buffer ≡ p.connection.response_buffer
    → q.connection.receive_buffer ≡ p.connection.receive_buffer
    → Serves q m
    → Serves p m
Serves-from p q m a b h =
    subst
      (λ (x : Buffer).
        Always (λ r. Extends (contents x) p.connection.receive_buffer r.1.connection) m)
      a
      (subst
        (λ (y : Buffer).
          Always (λ r. Extends (contents q.connection.response_buffer) y r.1.connection) m)
        b h)
