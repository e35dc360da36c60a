-- ===== src/Server/Dispatch/Incoming.antt =====
-- iscsi_connection.c: what `incoming_request` does with the stream of bytes.
use iscsi.Prelude.{
  ℕ, ◌+◌, ◌-◌, ◌≤◌, ◌≡◌, ◌⊎◌, inl, inr, refl, sym, ap, ◌∙◌, arith, List, [], ◌++◌, Bool-cases, leb,
  false, if◌then◌else◌,
}
use mathlib.Core.Path.{subst}
use mathlib.Core.List.{append-nil}
use iscsi.Prelude.Memory.{Memory, AreBytes, bytes}
use iscsi.Prelude.Outcome.{ok, Always, Always-ok, Always-bind_eq, ◌>>=◌}
use iscsi.Buffer.{Buffer, iscsi_buffer_size, iscsi_buffer_flush, store}
use iscsi.Buffer.Contents.{contents, IsIdle}
use iscsi.Buffer.Append.{received, receive-eq, contents-received, appended-IsIdle, receive_appends}
use iscsi.Buffer.Flush.{bytes-flushed, flushed-IsIdle, flushed, flush-eq, shift_down-AreBytes}
use iscsi.Pdu.{iscsi_pdu_valid, iscsi_pdu_length}
use iscsi.Pdu.Length.{valid_iff, IsPdu}
use iscsi.State.{System, Process}
use iscsi.Server.Dispatch.Growth.{Grown}
use iscsi.Server.Dispatch.Growth.Served.{PadsBehind, process-Grown}
use iscsi.Server.Dispatch.{iscsi_server_process, process_front, incoming_request, pdu_incomplete}

-- Both buffers are at rest, and what was received is bytes.
pub record IsReady (p : Process) : Type 0 where
  pub receiver : IsIdle p.connection.receive_buffer
  pub received_bytes : AreBytes p.connection.receive_buffer.contents
  pub sender : IsIdle p.connection.response_buffer

-- The PDU at the front of the receive buffer of `p` was whole and was given to
-- `iscsi_server_process`; `r` is what that returned, but for the receive buffer.
pub record Served (system : System) (p : Process) (taken : List ℕ) (r : ℕ × Process) : Type 0 where
  pub whole :
      iscsi_pdu_length p.connection.receive_buffer.contents ≤ p.connection.receive_buffer.length
  pub served : Process
  pub runs : iscsi_server_process system p.connection.receive_buffer.contents p ≡ ok (r.0, served)
  pub pdu :
      taken
      ≡ bytes p.connection.receive_buffer.contents 0
          (iscsi_pdu_length p.connection.receive_buffer.contents)
  pub is_pdu : IsPdu taken
  pub leaves : r.1 ≡ record served {
    connection = record served.connection { receive_buffer = r.1.connection.receive_buffer };
  }

-- The PDU at the front of the receive buffer of `p` is not whole, and nothing is done.
pub record Unserved (p : Process) (taken answers : List ℕ) (r : ℕ × Process) : Type 0 where
  pub part :
      iscsi_pdu_valid p.connection.receive_buffer.contents p.connection.receive_buffer.length
      ≡ false
  pub none_taken : taken ≡ []
  pub no_answers : answers ≡ []
  pub stays : r ≡ (pdu_incomplete, p)

-- From the stream of bytes that are received, nothing has been taken, or exactly one PDU, which was
-- given to `iscsi_server_process`; behind the answers that waited there are those to it.
pub record Takes (system : System) (p : Process) (waiting stream : List ℕ) (r : ℕ × Process)
    : Type 0 where
  pub ready : IsReady r.1
  pub taken : List ℕ
  pub splits : stream ≡ taken ++ contents r.1.connection.receive_buffer
  pub answers : List ℕ
  pub grows : contents r.1.connection.response_buffer ≡ waiting ++ answers
  pub one : Unserved p taken answers r ⊎ Served system p taken r

-- The flush behind the handler, which leaves the receive buffer as it was.
flush-Takes :
    (system : System) (p after : Process) (status : ℕ)
    → IsReady p
    → iscsi_server_process system p.connection.receive_buffer.contents p ≡ ok (status, after)
    → iscsi_pdu_length p.connection.receive_buffer.contents ≤ p.connection.receive_buffer.length
    → Grown p after.connection
    → Always
        (λ (r : ℕ × Process).
          Takes system p
            (contents p.connection.response_buffer)
            (contents p.connection.receive_buffer)
            r)
        (iscsi_buffer_flush after.connection.receive_buffer
            (iscsi_pdu_length after.connection.receive_buffer.contents)
          >>= λ b. ok (
            status,
            record after { connection = record after.connection { receive_buffer = b } },
          ))
flush-Takes system p after status ready runs whole grown =
    let b = p.connection.receive_buffer in
    let n = iscsi_pdu_length b.contents in
    let idle = flushed-IsIdle b n ready.receiver in
    let are = shift_down-AreBytes (b.length - n) 0 n b.contents ready.received_bytes in
    let flushes : iscsi_buffer_flush after.connection.receive_buffer
          (iscsi_pdu_length after.connection.receive_buffer.contents)
        ≡ ok (flushed b n) =
      ap (λ (x : Buffer). iscsi_buffer_flush x (iscsi_pdu_length x.contents)) grown.receives
      ∙ flush-eq n ready.receiver whole in
    rw flushes (record {
      ready = record { receiver = idle; received_bytes = are; sender = grown.idle };
      taken = bytes b.contents 0 n;
      splits = sym (bytes-flushed b n whole);
      one = inr (record {
        whole = whole;
        served = after;
        runs = runs;
        pdu = refl;
        is_pdu = (b.contents, ready.received_bytes, refl);
        leaves = refl;
      });
      answers = grown.more;
      grows = grown.holds;
    })

front-Takes :
    (system : System) (p : Process)
    → IsReady p
    → iscsi_pdu_length p.connection.receive_buffer.contents ≤ p.connection.receive_buffer.length
    → PadsBehind p.connection.receive_buffer.contents p.connection
    → Always
        (λ (r : ℕ × Process).
          Takes system p
            (contents p.connection.response_buffer)
            (contents p.connection.receive_buffer)
            r)
        (process_front system p)
unfolding process_front
front-Takes system p ready whole behind =
    let request = p.connection.receive_buffer.contents in
    Always-bind_eq
      (λ (r : ℕ × Process).
        Takes system p (contents p.connection.response_buffer)
          (contents p.connection.receive_buffer) r)
      (iscsi_server_process system request p) _
      λ r runs. flush-Takes system p r.1 r.0 ready runs whole (
        Always-ok (λ (r : ℕ × Process). Grown p r.1.connection) _
          (process-Grown system request p ready.sender behind) runs)

store-AreBytes :
    (b : Buffer) (chunk : Memory) (n : ℕ)
    → AreBytes b.contents
    → AreBytes chunk
    → AreBytes (received b chunk n).contents
unfolding store
store-AreBytes b chunk n are bytes k =
    ground (arith, are k, are (b.length + (k - b.length)), bytes (k - b.length), bytes 0)

-- The process with a chunk behind the bytes that were received.
abbrev pub with_chunk : Process → Memory → ℕ → Process
with_chunk p chunk n = record p {
  connection = record p.connection {
    receive_buffer = received p.connection.receive_buffer chunk n;
  };
}

with_chunk-IsReady :
    (p : Process) (chunk : Memory) (n : ℕ)
    → IsReady p
    → AreBytes chunk
    → p.connection.receive_buffer.length + n ≤ iscsi_buffer_size
    → IsReady (with_chunk p chunk n)
with_chunk-IsReady p chunk n ready are room = record {
  receiver = appended-IsIdle p.connection.receive_buffer n _ ready.receiver room;
  received_bytes = store-AreBytes p.connection.receive_buffer chunk n ready.received_bytes are;
  sender = ready.sender;
}

-- A PDU that is not whole stays.
incomplete-Takes :
    (system : System) (p : Process)
    → IsReady p
    → iscsi_pdu_valid p.connection.receive_buffer.contents p.connection.receive_buffer.length
      ≡ false
    → Takes system p
        (contents p.connection.response_buffer)
        (contents p.connection.receive_buffer)
        (pdu_incomplete, p)
incomplete-Takes system p ready part = record {
  ready = ready;
  taken = [];
  splits = refl;
  answers = [];
  grows = sym (append-nil (contents p.connection.response_buffer));
  one = inl (record { part = part; none_taken = refl; no_answers = refl; stays = refl });
}

served-Takes :
    (system : System) (p : Process)
    → IsReady p
    → PadsBehind p.connection.receive_buffer.contents p.connection
    → Always
        (λ (r : ℕ × Process).
          Takes system p
            (contents p.connection.response_buffer)
            (contents p.connection.receive_buffer)
            r)
        (if iscsi_pdu_valid p.connection.receive_buffer.contents p.connection.receive_buffer.length
          then process_front system p
          else ok (pdu_incomplete, p))
served-Takes system p ready behind =
    let b = p.connection.receive_buffer in
    let small = ready.receiver.fits in
    let whole = valid_iff b.contents b.length ready.received_bytes (omega arith) in
    elim (Bool-cases (iscsi_pdu_valid b.contents b.length)) [
      | inl valid ↦ rw valid (front-Takes system p ready (whole.0 valid) behind)
      | inr not_whole ↦ rw not_whole (incomplete-Takes system p ready not_whole)
    ]

incoming_with_room :
    (system : System) (p : Process) (chunk : Memory) (n : ℕ)
    → IsReady p
    → AreBytes chunk
    → p.connection.receive_buffer.length + n ≤ iscsi_buffer_size
    → PadsBehind (with_chunk p chunk n).connection.receive_buffer.contents p.connection
    → Always
        (λ (r : ℕ × Process).
          Takes system
            (with_chunk p chunk n)
            (contents p.connection.response_buffer)
            (contents p.connection.receive_buffer ++ bytes chunk 0 n)
            r)
        (incoming_request system p chunk n)
unfolding incoming_request
incoming_with_room system p chunk n ready are room behind =
    let q = with_chunk p chunk n in
    rw (receive-eq p.connection.receive_buffer chunk n ready.receiver room) (
      subst
        (λ (stream : List ℕ).
          Always
            (λ (r : ℕ × Process). Takes system q (contents p.connection.response_buffer) stream r)
            (if iscsi_pdu_valid q.connection.receive_buffer.contents
                q.connection.receive_buffer.length
              then process_front system q
              else ok (pdu_incomplete, q)))
        (contents-received p.connection.receive_buffer chunk n)
        (served-Takes system q (with_chunk-IsReady p chunk n ready are room) behind))

-- A chunk of bytes, no longer than the array, that comes to a process at rest, where the PDU at the
-- front with the chunk is no NOP-Out whose answer is padded in front of the pointer: when
-- `incoming_request` returns, either that PDU is not whole, the bytes of the chunk are behind those
-- that waited, and nothing else has changed; or `iscsi_server_process` was called on it, the process
-- and the status are those that it returned, the bytes that waited and those of the chunk are, in
-- order, that PDU, which is taken off, and the bytes that wait now, and behind the answers that
-- waited are the new ones. Both buffers are at rest. So of several PDUs that come in one chunk the
-- first alone is served.
pub incoming-Takes :
    (system : System) (p : Process) (chunk : Memory) (n : ℕ)
    → IsReady p
    → AreBytes chunk
    → n ≤ iscsi_buffer_size
    → PadsBehind (with_chunk p chunk n).connection.receive_buffer.contents p.connection
    → Always
        (λ (r : ℕ × Process).
          Takes system
            (with_chunk p chunk n)
            (contents p.connection.response_buffer)
            (contents p.connection.receive_buffer ++ bytes chunk 0 n)
            r)
        (incoming_request system p chunk n)
unfolding incoming_request
incoming-Takes system p chunk n ready are small behind =
    let b = p.connection.receive_buffer in
    elim (Bool-cases (leb (b.length + n) iscsi_buffer_size)) [
      | inl room ↦ incoming_with_room system p chunk n ready are (ground arith) behind
      | inr full ↦
          let (large, fits, waiting) = receive_appends b chunk n ready.receiver (omega arith) in
          rw (waiting small (ground arith)) tt
    ]
