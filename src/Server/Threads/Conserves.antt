-- ===== src/Server/Threads/Conserves.antt =====
-- main.c: what the two threads do to the streams of bytes, whatever the order of their rounds.
pub mod Streams
pub mod Servings
use iscsi.Prelude.{
  ℕ, ◌≤◌, ◌≡◌, ◌⊎◌, inl, inr, refl, sym, ap, ◌∙◌, arith, true, List, [], ◌∷◌, ◌++◌, concat,
  concat-append, append_assoc, Bool, Bool-cases, leb,
}
use mathlib.Core.List.{append-nil}
use iscsi.Prelude.Memory.{Memory, AreBytes, bytes}
use iscsi.Prelude.Outcome.{ok, Always, Always-ok}
use iscsi.Buffer.{Buffer}
use iscsi.Buffer.Contents.{contents, IsIdle}
use iscsi.Buffer.Flush.{bytes-flushed, flushed-IsIdle}
use iscsi.Pdu.{iscsi_pdu_length}
use iscsi.Pdu.Length.{IsPdu, ArePdus, ArePdus-append}
use iscsi.State.{System, Process}
use mathlib.Core.Path.{subst}
use iscsi.Server.Dispatch.{iscsi_server_process}
use iscsi.Server.Dispatch.Growth.Served.{PadsBehind}
use iscsi.Server.Dispatch.Incoming.{IsReady, Takes, with_chunk, incoming-Takes}
use iscsi.Server.Loops.{transmit_round}
use iscsi.Server.Loops.Transmit.{transmit-eq, transmit_sends}
use iscsi.Server.Threads.{
  World, Step, Reach, receives, transmits, here, later, world_received, world_sent,
}
use Servings.{Serving, pdus_of, answers_of, servings_then, pdus_then, answers_then}
use Streams.{Flows, Flows-start, Flows-then, received-Flows, Sends, round-Sends, sent-Flows}

-- From one world to a later one: the bytes that waited and those that came are the PDUs on which
-- `iscsi_server_process` was called in the rounds on the way, then what waits; what was sent are
-- whole PDUs; and what was sent and what waits to be sent are what waited, then the answers of those
-- calls.
pub record Conserves (system : System) (w v : World) : Type 0 where
  pub ready : IsReady v.process
  pub new : List ℕ
  pub arrives : v.received ≡ w.received ++ new
  pub servings : List (Serving system w v)
  pub whole : ArePdus (pdus_of servings)
  pub splits :
      contents w.process.connection.receive_buffer ++ new
      ≡ concat (pdus_of servings) ++ contents v.process.connection.receive_buffer
  pub sent : List (List ℕ)
  pub sent_whole : ArePdus sent
  pub leaves : v.transmitted ≡ w.transmitted ++ concat sent
  pub queues :
      concat sent ++ contents v.process.connection.response_buffer
      ≡ contents w.process.connection.response_buffer ++ concat (answers_of servings)

-- The same with the calls beside it.
record Course (system : System) (w v : World) : Type 0 where
  flows : Flows w v
  servings : List (Serving system w v)
  same : flows.served ≡ pdus_of servings
  replies : flows.answers ≡ concat (answers_of servings)

-- What a step from `u` to `v` adds: the streams, and the calls that it made, at most one.
record Adds (system : System) (w u v : World) : Type 0 where
  flows : Flows u v
  new : List (Serving system w v)
  same : flows.served ≡ pdus_of new
  replies : flows.answers ≡ concat (answers_of new)

module _ {system : System} where
  Conserves-make : {w v : World} → Course system w v → Conserves system w v
  Conserves-make {w} {v} c = record {
    ready = c.flows.ready;
    new = c.flows.new;
    arrives = c.flows.arrives;
    servings = c.servings;
    whole = subst ArePdus c.same c.flows.whole;
    splits =
        c.flows.splits ∙ ap (λ s. concat s ++ contents v.process.connection.receive_buffer) c.same;
    sent = c.flows.sent;
    sent_whole = c.flows.sent_whole;
    leaves = c.flows.leaves;
    queues =
        c.flows.queues ∙ ap (λ s. contents w.process.connection.response_buffer ++ s) c.replies;
  }

  Course-then :
      {w u v : World} → Course system w u → Step system u v → Adds system w u v → Course system w v
  unfolding Flows-then
  Course-then c step a = record {
    flows = Flows-then c.flows a.flows;
    servings = servings_then step c.servings a.new;
    same =
        ap (λ s. s ++ a.flows.served) c.same
        ∙ ap (λ s. pdus_of c.servings ++ s) a.same
        ∙ sym (pdus_then step c.servings a.new);
    replies =
        ap (λ s. s ++ a.flows.answers) c.replies
        ∙ ap (λ s. concat (answers_of c.servings) ++ s) a.replies
        ∙ sym (concat-append (answers_of c.servings) (answers_of a.new))
        ∙ ap concat (sym (answers_then step c.servings a.new));
  }

  received-Adds :
      {w u : World} (chunk : Memory) (n status : ℕ) (after : Process)
      → Reach system w u
      → Takes system
          (with_chunk u.process chunk n)
          (contents u.process.connection.response_buffer)
          (contents u.process.connection.receive_buffer ++ bytes chunk 0 n)
          (status, after)
      → Adds system w u (world_received u chunk n status after)
  unfolding received-Flows
  received-Adds {w} {u} chunk n status after before takes = elim takes.one [
    | inl left ↦ record {
      flows = received-Flows system u chunk n status after [] takes tt left.none_taken;
      new = [];
      same = refl;
      replies = left.no_answers;
    }
    | inr done ↦
        let on : Reach system
            (world_received u chunk n status (record done.served {
              connection = record done.served.connection {
                receive_buffer = after.connection.receive_buffer;
              };
            }))
            (world_received u chunk n status after) =
          subst
            (λ (q : Process).
              Reach system (world_received u chunk n status q)
                (world_received u chunk n status after))
            done.leaves here in
        let response : contents after.connection.response_buffer
            ≡ contents done.served.connection.response_buffer =
          ap (λ (q : Process). contents q.connection.response_buffer) done.leaves in
        record {
          flows =
              received-Flows system u chunk n status after (takes.taken ∷ []) takes
                (done.is_pdu, tt) (sym (append-nil takes.taken));
          new =
              record {
                world = u;
                reach = before;
                chunk = chunk;
                size = n;
                status = status;
                served = done.served;
                rest = after.connection.receive_buffer;
                runs = done.runs;
                pdu = takes.taken;
                at_front = done.pdu;
                answers = takes.answers;
                grows = sym response ∙ takes.grows;
                goes_on = on;
              }
              ∷ [];
          same = refl;
          replies = sym (append-nil takes.answers);
        }
  ]

-- In no round is there a NOP-Out at the front whose answer is padded in front of the pointer.
abbrev pub NoPadsInFront : {system : System} {w v : World} → Reach system w v → Type 0
NoPadsInFront here = Unit
NoPadsInFront (later before (receives {w = u} {chunk} {n} on are small runs)) =
    NoPadsInFront before
    × PadsBehind (with_chunk u.process chunk n).connection.receive_buffer.contents
        u.process.connection
NoPadsInFront (later before (transmits are runs)) = NoPadsInFront before

Reach-Course :
    (system : System) {w v : World}
    → IsReady w.process
    → (reach : Reach system w v) → NoPadsInFront reach
    → Course system w v
unfolding Flows-start sent-Flows
Reach-Course system {w} ready here behind = record {
  flows = Flows-start w ready;
  servings = [];
  same = refl;
  replies = refl;
}
Reach-Course system ready
      (later before (receives {w = u} {chunk} {n} {status} {after} on are small runs)) behind =
    let earlier = Reach-Course system ready before behind.0 in
    Course-then earlier (receives on are small runs) (
      received-Adds chunk n status after before (
        Always-ok _ _
          (incoming-Takes system u.process chunk n earlier.flows.ready are (omega arith) behind.1)
          runs))
Reach-Course system ready (later before (transmits {w = u} {pdu} {rest} are runs)) behind =
    let earlier = Reach-Course system ready before behind in
    let sends =
      round-Sends u.process.connection.response_buffer rest pdu earlier.flows.ready.sender are
        runs in
    Course-then earlier (transmits are runs) (record {
      flows = sent-Flows u pdu rest earlier.flows.ready sends;
      new = [];
      same = refl;
      replies = refl;
    })

-- Whatever the order in which the two threads take rounds, from a process whose buffers are at
-- rest: the bytes that waited to be received and those that `recv` returned since are, in order,
-- whole PDUs, each the one at the front in a round on the way in which `iscsi_server_process` was
-- called on it, and the bytes that wait now; what was given to `send` since are whole PDUs; these
-- and what the response buffer holds now are what it held and, behind it, the answers of those
-- calls, with no byte lost, repeated or moved; and the buffers are at rest again. The rounds of the
-- receiver are those whose call returns, with at most `BUFFER_SIZE` bytes, and with no NOP-Out at
-- the front whose answer is padded in front of the pointer; those of the transmitter are the ones
-- whose send succeeds, with bytes in the response buffer.
pub Reach-Conserves :
    (system : System) {w v : World}
    → IsReady w.process
    → (reach : Reach system w v) → NoPadsInFront reach
    → Conserves system w v
Reach-Conserves system ready reach behind = Conserves-make (Reach-Course system ready reach behind)
