-- ===== src/Server/Threads/Conserves/Streams.antt =====
-- main.c: what a round of either thread does to the streams of bytes.
use iscsi.Prelude.{
  ℕ, ◌≤◌, ◌≡◌, ◌⊎◌, inl, inr, refl, sym, ap, ◌∙◌, arith, true, List, [], ◌∷◌, ◌++◌, concat,
  concat-append, append_assoc, Bool, Bool-cases, leb,
}
use mathlib.Core.List.{append-nil}
use iscsi.Prelude.Memory.{Memory, AreBytes, bytes}
use iscsi.Prelude.Outcome.{ok, Always, Always-ok}
use iscsi.Buffer.{Buffer}
use iscsi.Buffer.Contents.{contents, IsIdle}
use iscsi.Buffer.Flush.{bytes-flushed, flushed-IsIdle}
use iscsi.Pdu.{iscsi_pdu_length}
use iscsi.Pdu.Length.{IsPdu, ArePdus, ArePdus-append}
use iscsi.State.{System, Process}
use iscsi.Server.Dispatch.Incoming.{IsReady, Takes, with_chunk}
use iscsi.Server.Loops.{transmit_round}
use iscsi.Server.Loops.Transmit.{transmit-eq, transmit_sends}
use iscsi.Server.Threads.{World, world_received, world_sent}

-- From one world to a later one: the bytes that waited and those that came are the PDUs that were
-- served, then what waits; what was sent are whole PDUs; and behind what was sent and what waited
-- to be sent there are answers.
pub record Flows (w v : World) : Type 0 where
  pub ready : IsReady v.process
  pub new : List ℕ
  pub arrives : v.received ≡ w.received ++ new
  pub served : List (List ℕ)
  pub whole : ArePdus served
  pub splits :
      contents w.process.connection.receive_buffer ++ new
      ≡ concat served ++ contents v.process.connection.receive_buffer
  pub sent : List (List ℕ)
  pub sent_whole : ArePdus sent
  pub leaves : v.transmitted ≡ w.transmitted ++ concat sent
  pub answers : List ℕ
  pub queues :
      concat sent ++ contents v.process.connection.response_buffer
      ≡ contents w.process.connection.response_buffer ++ answers

unfoldable pub Flows-start : (w : World) → IsReady w.process → Flows w w
Flows-start w ready = record {
  ready = ready;
  new = [];
  arrives = sym (append-nil w.received);
  served = [];
  whole = tt;
  splits = append-nil (contents w.process.connection.receive_buffer);
  sent = [];
  sent_whole = tt;
  leaves = sym (append-nil w.transmitted);
  answers = [];
  queues = sym (append-nil (contents w.process.connection.response_buffer));
}

-- Two stretches of a stream, one behind the other.
pub stretch :
    (a b c m n : List ℕ) (p q : List (List ℕ))
    → a ++ m ≡ concat p ++ b
    → b ++ n ≡ concat q ++ c
    → a ++ (m ++ n) ≡ concat (p ++ q) ++ c
stretch a b c m n p q h k =
    sym (append_assoc a m n)
    ∙ ap (λ s. s ++ n) h
    ∙ append_assoc (concat p) b n
    ∙ ap (λ s. concat p ++ s) k
    ∙ sym (append_assoc (concat p) (concat q) c)
    ∙ ap (λ s. s ++ c) (sym (concat-append p q))

unfoldable pub Flows-then : {u w v : World} → Flows u w → Flows w v → Flows u v
Flows-then {u} {w} {v} h k = record {
  ready = k.ready;
  new = h.new ++ k.new;
  arrives = k.arrives ∙ ap (λ s. s ++ k.new) h.arrives ∙ append_assoc u.received h.new k.new;
  served = h.served ++ k.served;
  whole = ArePdus-append h.served k.served h.whole k.whole;
  splits =
      stretch (contents u.process.connection.receive_buffer)
        (contents w.process.connection.receive_buffer)
        (contents v.process.connection.receive_buffer) h.new k.new h.served k.served h.splits
        k.splits;
  sent = h.sent ++ k.sent;
  sent_whole = ArePdus-append h.sent k.sent h.sent_whole k.sent_whole;
  leaves =
      k.leaves
      ∙ ap (λ s. s ++ concat k.sent) h.leaves
      ∙ append_assoc u.transmitted (concat h.sent) (concat k.sent)
      ∙ ap (λ s. u.transmitted ++ s) (sym (concat-append h.sent k.sent));
  answers = h.answers ++ k.answers;
  queues = sym (
      stretch (contents u.process.connection.response_buffer)
        (contents w.process.connection.response_buffer)
        (contents v.process.connection.response_buffer) h.answers k.answers h.sent k.sent
        (sym h.queues) (sym k.queues));
}

-- Nothing or one PDU, as a list of PDUs.
pub at_most_one :
    (taken : List ℕ)
    → (taken ≡ []) ⊎ IsPdu taken
    → (pdus : List (List ℕ)) × ArePdus pdus × (taken ≡ concat pdus)
at_most_one taken (inl none) = ([], tt, none)
at_most_one taken (inr one) = (taken ∷ [], (one, tt), sym (append-nil taken))

unfoldable pub received-Flows :
    (system : System) (w : World) (chunk : Memory) (n status : ℕ) (after : Process)
    (served : List (List ℕ))
    (takes : Takes system
      (with_chunk w.process chunk n)
      (contents w.process.connection.response_buffer)
      (contents w.process.connection.receive_buffer ++ bytes chunk 0 n)
      (status, after))
    → ArePdus served
    → takes.taken ≡ concat served
    → Flows w (world_received w chunk n status after)
received-Flows system w chunk n status after served takes whole is = record {
  ready = takes.ready;
  new = bytes chunk 0 n;
  arrives = refl;
  served = served;
  whole = whole;
  splits = takes.splits ∙ ap (λ s. s ++ contents after.connection.receive_buffer) is;
  sent = [];
  sent_whole = tt;
  leaves = sym (append-nil w.transmitted);
  answers = takes.answers;
  queues = takes.grows;
}

-- A round of the transmitter sends nothing, or the PDU at the front.
unfoldable pub Sends : Buffer → List ℕ → Buffer → Type 0
Sends b pdu rest = ((pdu ≡ []) ⊎ IsPdu pdu) × (pdu ++ contents rest ≡ contents b) × IsIdle rest

transmit-Sends :
    (b : Buffer)
    → IsIdle b
    → AreBytes b.contents
    → Always (λ (r : List ℕ × Bool × Buffer). Sends b r.0 r.2) (transmit_round true b)
unfolding Sends
transmit-Sends b idle are =
    let n = iscsi_pdu_length b.contents in
    elim (Bool-cases (leb n b.length)) [
      | inl whole ↦
          let h : n ≤ b.length = ground (arith, whole) in
          rw (transmit-eq b idle are h)
            ((inr (b.contents, are, refl), bytes-flushed b n h, flushed-IsIdle b n idle))
      | inr part ↦
          let stays = (transmit_sends b idle are).1 (ground (arith, part)) in
          rw stays ((inl refl, refl, idle))
    ]

pub round-Sends :
    (b rest : Buffer) (pdu : List ℕ)
    → IsIdle b
    → AreBytes b.contents
    → transmit_round true b ≡ ok (pdu, true, rest)
    → Sends b pdu rest
round-Sends b rest pdu idle are runs =
    Always-ok (λ (r : List ℕ × Bool × Buffer). Sends b r.0 r.2) _ (transmit-Sends b idle are) runs

unfoldable pub sent-Flows :
    (w : World) (pdu : List ℕ) (rest : Buffer)
    → IsReady w.process
    → Sends w.process.connection.response_buffer pdu rest
    → Flows w (world_sent w pdu rest)
unfolding Sends
sent-Flows w pdu rest ready (one, holds, idle) =
    let (sent, whole, is) = at_most_one pdu one in
    record {
      ready = record {
        receiver = ready.receiver;
        received_bytes = ready.received_bytes;
        sender = idle;
      };
      new = [];
      arrives = sym (append-nil w.received);
      served = [];
      whole = tt;
      splits = append-nil (contents w.process.connection.receive_buffer);
      sent = sent;
      sent_whole = whole;
      leaves = ap (λ s. w.transmitted ++ s) is;
      answers = [];
      queues =
          ap (λ s. s ++ contents rest) (sym is)
          ∙ holds
          ∙ sym (append-nil (contents w.process.connection.response_buffer));
    }
