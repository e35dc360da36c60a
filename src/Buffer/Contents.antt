-- ===== src/Buffer/Contents.antt =====
-- iscsi_buffer.c: what a buffer holds, and when it is at rest.
use iscsi.Prelude.{ℕ, ◌≤◌, ◌≡◌, List}
use iscsi.Prelude.Memory.{bytes}
use iscsi.Buffer.{Buffer, iscsi_buffer_size}

-- The first `length` bytes.
abbrev pub contents : Buffer → List ℕ
contents b = bytes b.contents 0 b.length

-- No thread holds the lock, and the length is that of a part of the array.
pub record IsIdle (b : Buffer) : Type 0 where
  pub free : b.lock ≡ 1
  pub fits : b.length ≤ iscsi_buffer_size
