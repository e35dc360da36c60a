-- ===== src/Tests/Streams.antt =====
-- The streams of bytes at concrete chunks.
use iscsi.Prelude.{ℕ, ◌+◌, ◌≡◌, ◌⊎◌, refl, arith, true, [], ◌∷◌, ◌++◌, List}
use iscsi.Prelude.Memory.{AreBytes, Memory, bytes, c_string, from}
use iscsi.Prelude.Outcome.{ok, Always}
use iscsi.Buffer.{Buffer}
use iscsi.Buffer.Contents.{contents, IsIdle}
use iscsi.Buffer.Flush.{flushed}
use iscsi.Pdu.{iscsi_pdu_length}
use iscsi.Pdu.Length.{ArePdus}
use iscsi.Request.Extends.{NopPadsBehind}
use iscsi.Buffer.{store}
use iscsi.Utility.{min}
use iscsi.Pdu.{iscsi_pdu_data_segment_length}
use iscsi.State.{Process}
use iscsi.Server.Dispatch.{iscsi_server_process, incoming_request, pdu_incomplete}
use iscsi.Server.Dispatch.Chunks.{incoming_short}
use iscsi.Server.Dispatch.Growth.{Grown}
use iscsi.Server.Dispatch.Growth.Served.{process-Grown}
use iscsi.Server.Dispatch.Incoming.{IsReady, Takes, with_chunk, incoming-Takes}
use iscsi.Server.Loops.{start_transmit}
use iscsi.Server.Loops.Transmit.{transmit-eq}
use iscsi.Server.Loops.Drain.{all_sent, transmit_drains}
use iscsi.Server.Threads.{
  World, Reach, here, later, receives, transmits, world_received, world_sent,
}
use iscsi.Server.Dispatch.Sessions.{Quiet}
use iscsi.Server.Threads.Sessions.{LoginCame, Reach-LoginCame}
use iscsi.Server.Threads.Conserves.{Conserves, NoPadsInFront, Reach-Conserves}
use iscsi.Tests.Samples.{empty-IsIdle, process, session, system, connection, c_string-AreBytes}

-- A NOP-Out, in a session in the full feature phase.
abbrev pings : Memory
pings = c_string (0x40 ∷ 0x80 ∷ [])

pings-AreBytes : AreBytes pings
pings-AreBytes = c_string-AreBytes (0x40 ∷ 0x80 ∷ []) (omega arith)

abbrev full : Process
full = record process { session = record session { is_full_feature_phase = true } }

-- The chunk is a NOP-Out without data.
no_padding : NopPadsBehind pings full.connection
unfolding iscsi_pdu_data_segment_length min
no_padding = refl

process-Grown_example :
    Always (λ r. Grown full r.1.connection) (iscsi_server_process system pings full)
process-Grown_example = process-Grown system pings full empty-IsIdle λ _. no_padding

full-IsReady : IsReady full
full-IsReady = record {
  receiver = empty-IsIdle;
  received_bytes = λ i. omega arith;
  sender = empty-IsIdle;
}

-- Nor does the chunk, the whole of it or its first bytes.
whole_no_padding :
    NopPadsBehind (with_chunk full pings 48).connection.receive_buffer.contents full.connection
unfolding iscsi_pdu_data_segment_length store min
whole_no_padding = refl

chunk_no_padding :
    NopPadsBehind (with_chunk full pings 20).connection.receive_buffer.contents full.connection
unfolding iscsi_pdu_data_segment_length store min
chunk_no_padding = refl

incoming-Takes_example :
    Always
      (λ (r : ℕ × Process).
        Takes system
          (with_chunk full pings 48)
          (contents full.connection.response_buffer)
          (contents full.connection.receive_buffer ++ bytes pings 0 48)
          r)
      (incoming_request system full pings 48)
incoming-Takes_example =
    incoming-Takes system full pings 48 full-IsReady pings-AreBytes (omega arith)
      λ _. whole_no_padding

-- Two PDUs wait to be sent.
abbrev waiting : Buffer
waiting = record { length = 96; lock = 1; contents = pings }

abbrev both : List (List ℕ)
both = bytes pings 0 48 ∷ bytes (from pings 48) 0 48 ∷ []

both-ArePdus : ArePdus both
unfolding iscsi_pdu_length
both-ArePdus =
    ((pings, pings-AreBytes, refl), ((from pings 48, (λ i. pings-AreBytes (48 + i)), refl), tt))

transmit_drains_example :
    (after : Buffer) × (start_transmit (all_sent both) waiting ≡ ok (both, after))
    × (contents after ≡ [])
    × IsIdle after
transmit_drains_example =
    transmit_drains both waiting (record { free = refl; fits = omega arith }) pings-AreBytes
      both-ArePdus refl

-- The two PDUs wait, one is sent, and then a chunk comes.
abbrev start : World
start = record {
  process = record full { connection = record connection { response_buffer = waiting } };
  received = [];
  transmitted = [];
  receiving = true;
}

start-IsReady : IsReady start.process
start-IsReady = record {
  receiver = empty-IsIdle;
  received_bytes = λ i. omega arith;
  sender = record { free = refl; fits = omega arith };
}

abbrev first_sent : World
first_sent =
    world_sent start (bytes pings 0 (iscsi_pdu_length pings))
      (flushed waiting (iscsi_pdu_length pings))

whole : iscsi_pdu_length pings ≡ 48
unfolding iscsi_pdu_length
whole = refl

abbrev chunk_came : World
chunk_came =
    let (after, runs, idle, holds) =
      incoming_short system first_sent.process pings 20 empty-IsIdle (omega arith) in
    world_received first_sent pings 20 pdu_incomplete (record first_sent.process {
      connection = record first_sent.process.connection { receive_buffer = after };
    })

two_rounds : Reach system start chunk_came
two_rounds =
    let (after, runs, idle, holds) =
      incoming_short system first_sent.process pings 20 empty-IsIdle (omega arith) in
    later
      (later here (
        transmits pings-AreBytes (
          transmit-eq waiting (record { free = refl; fits = omega arith }) pings-AreBytes
            (omega (arith, whole)))))
      (receives refl pings-AreBytes (omega arith) runs)

two_rounds-NoPadsInFront : NoPadsInFront two_rounds
unfolding two_rounds
two_rounds-NoPadsInFront = (tt, λ _. chunk_no_padding)

Reach-Conserves_example : Conserves system start chunk_came
Reach-Conserves_example = Reach-Conserves system start-IsReady two_rounds two_rounds-NoPadsInFront

-- A chunk comes before any login.
abbrev new_start : World
new_start = record { process = process; received = []; transmitted = []; receiving = true }

abbrev chunk_waits : World
chunk_waits =
    let (after, runs, idle, holds) =
      incoming_short system process pings 20 empty-IsIdle (omega arith) in
    world_received new_start pings 20 pdu_incomplete
      (record process { connection = record connection { receive_buffer = after } })

one_chunk : Reach system new_start chunk_waits
one_chunk =
    let (after, runs, idle, holds) =
      incoming_short system process pings 20 empty-IsIdle (omega arith) in
    later here (receives refl pings-AreBytes (omega arith) runs)

Reach-LoginCame_example :
    Quiet system new_start.process chunk_waits.process ⊎ LoginCame system new_start chunk_waits
Reach-LoginCame_example = Reach-LoginCame system refl one_chunk
