-- ===== src/Response/Laws.antt =====
-- What an answer does to the response buffer: the PDU is put behind the bytes that wait there.
use iscsi.Prelude.{ℕ, ◌+◌, ◌≤◌, ◌<◌, ◌≡◌, refl, sym, ap, ◌∙◌, arith, ◌++◌}
use mathlib.Core.Path.{fun_ext, subst}
use iscsi.Prelude.Memory.{Memory, bytes, from}
use iscsi.Prelude.Word.{IsInt, add}
use iscsi.Prelude.Outcome.{ok, waits}
use iscsi.Buffer.{iscsi_buffer_size, iscsi_buffer_release_lock, store, dereference}
use iscsi.Buffer.Contents.{contents, IsIdle}
use iscsi.Buffer.Append.{
  room, locked, appended, acquire_with_room, acquire_without_room, release_stored,
  contents-appended, appended-IsIdle,
}
use iscsi.State.{Connection, iscsi_connection_advance_stat_sn}
use iscsi.Response.{Writer, respond}

-- What is written does not touch the response buffer but through the pointer.
abbrev pub KeepsBuffer : Writer → Type 0
KeepsBuffer write =
    (m : Memory) (c : Connection) → (write m c).1.response_buffer ≡ c.response_buffer

-- Of the connection only the status number changes, which goes up by one.
abbrev pub Advances : Writer → Type 0
Advances write = (m : Memory) (c : Connection) → (write m c).1 ≡ iscsi_connection_advance_stat_sn c

pub Advances-KeepsBuffer : (write : Writer) → Advances write → KeepsBuffer write
unfolding iscsi_connection_advance_stat_sn
Advances-KeepsBuffer write advances m c = rw (advances m c) refl

-- The connection while the lock is held.
abbrev pub claimed : Connection → ℕ → Connection
claimed c n = record c { response_buffer = locked c.response_buffer n }

-- The connection behind the answer.
abbrev pub answered : Connection → ℕ → Writer → Connection
answered c n write =
    let result = write (room c.response_buffer n) (claimed c n) in
    record (result.1) { response_buffer = appended c.response_buffer n result.0 }

pub respond-eq :
    (c : Connection) (n : ℕ) (write : Writer)
    → KeepsBuffer write
    → IsIdle c.response_buffer
    → c.response_buffer.length + n ≤ iscsi_buffer_size
    → respond c n write ≡ ok (answered c n write)
unfolding respond dereference
respond-eq c n write keeps v h =
    let b = c.response_buffer in
    let result = write (room b n) (claimed c n) in
    let free : iscsi_buffer_release_lock (store result.1.response_buffer result.0) n
        ≡ appended b n result.0 =
      rw (keeps (room b n) (claimed c n)) (release_stored b n result.0 v h) in
    rw (acquire_with_room b n v h) (ap (λ r. ok (record (result.1) { response_buffer = r })) free)

pub respond-waits :
    (c : Connection) (n : ℕ) (write : Writer)
    → IsIdle c.response_buffer
    → n ≤ iscsi_buffer_size
    → iscsi_buffer_size < c.response_buffer.length + n
    → respond c n write ≡ waits
unfolding respond
respond-waits c n write v small h = rw (acquire_without_room c.response_buffer n v small h) refl

-- The numbers that the header takes are `int`s.
abbrev pub HasInts : Connection → Type 0
HasInts c = IsInt c.stat_sn × IsInt c.expected_cmd_sn

-- The bytes that stand behind those which were there before.
abbrev pub newest : Connection → Connection → Memory
newest before after = from after.response_buffer.contents before.response_buffer.length

-- Behind the bytes that waited there are now `n` more, which are a PDU with the property `P`; and
-- the buffer is at rest.
pub record Answers (before after : Connection) (n : ℕ) (P : Memory → Type 0) : Type 0 where
  pub idle : IsIdle after.response_buffer
  pub holds :
      contents after.response_buffer
      ≡ contents before.response_buffer ++ bytes (newest before after) 0 n
  pub fields : P (newest before after)

pub room_zero : (c : Connection) (n i : ℕ) → i < n → room c.response_buffer n i ≡ 0
room_zero c n i h = ground arith

module _ (c : Connection) (n : ℕ) (write : Writer) where
  newest-answered :
      newest c (answered c n write) ≡ (write (room c.response_buffer n) (claimed c n)).0
  unfolding store
  newest-answered = fun_ext λ i. ground arith

  -- An answer whose PDU has the property, whatever lies behind the zeros that it is written over.
  pub respond-Answers :
      (P : Memory → Type 0)
      → KeepsBuffer write
      → ((m : Memory) (d : Connection)
          → ((i : ℕ) → i < n → m i ≡ 0)
          → d.stat_sn ≡ c.stat_sn
          → d.expected_cmd_sn ≡ c.expected_cmd_sn
          → P (write m d).0)
      → IsIdle c.response_buffer
      → c.response_buffer.length + n ≤ iscsi_buffer_size
      → (respond c n write ≡ ok (answered c n write)) × Answers c (answered c n write) n P
  respond-Answers P keeps right v h =
      let b = c.response_buffer in
      let view = (write (room b n) (claimed c n)).0 in
      (
        respond-eq c n write keeps v h,
        record {
          idle = appended-IsIdle b n view v h;
          holds =
              contents-appended b n view
              ∙ ap (λ m. contents b ++ bytes m 0 n) (sym newest-answered);
          fields =
              subst P (sym newest-answered)
                (right (room b n) (claimed c n) (λ i lt. room_zero c n i lt) refl refl);
        },
      )

  -- The same of an answer that takes a status number.
  pub respond-Advances :
      (P : Memory → Type 0)
      → Advances write
      → ((m : Memory) (d : Connection)
          → ((i : ℕ) → i < n → m i ≡ 0)
          → d.stat_sn ≡ c.stat_sn
          → d.expected_cmd_sn ≡ c.expected_cmd_sn
          → P (write m d).0)
      → IsIdle c.response_buffer
      → c.response_buffer.length + n ≤ iscsi_buffer_size
      → (respond c n write ≡ ok (answered c n write))
        × Answers c (answered c n write) n P
        × ((answered c n write).stat_sn ≡ add c.stat_sn 1)
  unfolding iscsi_connection_advance_stat_sn
  respond-Advances P advances right v h =
      let (sent, answers) = respond-Answers P (Advances-KeepsBuffer write advances) right v h in
      (sent, answers, ap (λ (d : Connection). d.stat_sn) (advances _ _))
