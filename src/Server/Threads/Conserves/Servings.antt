-- ===== src/Server/Threads/Conserves/Servings.antt =====
-- main.c: the calls of `iscsi_server_process` in a sequence of rounds.
use iscsi.Prelude.{ℕ, ◌≡◌, refl, ap, List, [], ◌∷◌, ◌++◌}
use iscsi.Prelude.Memory.{Memory, bytes}
use iscsi.Prelude.Outcome.{ok}
use iscsi.Buffer.{Buffer}
use iscsi.Buffer.Contents.{contents}
use iscsi.Pdu.{iscsi_pdu_length}
use iscsi.State.{System, Process}
use iscsi.Server.Dispatch.{iscsi_server_process}
use iscsi.Server.Dispatch.Incoming.{with_chunk}
use iscsi.Server.Threads.{World, Step, Reach, later, world_received}

-- A round of the receiver on the way from `w` to `v` in which `iscsi_server_process` was called: the
-- PDU at the front of the receive buffer with the chunk, the answers that the call put behind those
-- that waited, and the process that it left, with the PDU taken off the receive buffer.
pub record Serving (system : System) (w v : World) : Type 0 where
  pub world : World
  pub reach : Reach system w world
  pub chunk : Memory
  pub size : ℕ
  pub status : ℕ
  pub served : Process
  pub rest : Buffer
  pub runs :
      iscsi_server_process system
        (with_chunk world.process chunk size).connection.receive_buffer.contents
        (with_chunk world.process chunk size)
      ≡ ok (status, served)
  pub pdu : List ℕ
  pub at_front :
      pdu
      ≡ bytes (with_chunk world.process chunk size).connection.receive_buffer.contents 0 (
          iscsi_pdu_length (with_chunk world.process chunk size).connection.receive_buffer.contents)
  pub answers : List ℕ
  pub grows :
      contents served.connection.response_buffer
      ≡ contents world.process.connection.response_buffer ++ answers
  pub goes_on :
      Reach system
        (world_received world chunk size status
          (record served { connection = record served.connection { receive_buffer = rest } }))
        v

abbrev pub pdus_of : {system : System} {w v : World} → List (Serving system w v) → List (List ℕ)
pdus_of [] = []
pdus_of (serving ∷ servings) = serving.pdu ∷ pdus_of servings

abbrev pub answers_of : {system : System} {w v : World} → List (Serving system w v) → List (List ℕ)
answers_of [] = []
answers_of (serving ∷ servings) = serving.answers ∷ answers_of servings

module _ {system : System} where
  -- A call on the way to a world is on the way to the next one.
  pub serving_on : {w u v : World} → Step system u v → Serving system w u → Serving system w v
  serving_on step h = record {
    world = h.world;
    reach = h.reach;
    chunk = h.chunk;
    size = h.size;
    status = h.status;
    served = h.served;
    rest = h.rest;
    runs = h.runs;
    pdu = h.pdu;
    at_front = h.at_front;
    answers = h.answers;
    grows = h.grows;
    goes_on = later h.goes_on step;
  }

  pub servings_then :
      {w u v : World}
      → Step system u v
      → List (Serving system w u)
      → List (Serving system w v)
      → List (Serving system w v)
  servings_then step [] new = new
  servings_then step (h ∷ servings) new = serving_on step h ∷ servings_then step servings new

  pub pdus_then :
      {w u v : World} (step : Step system u v) (servings : List (Serving system w u))
      (new : List (Serving system w v))
      → pdus_of (servings_then step servings new) ≡ pdus_of servings ++ pdus_of new
  unfolding servings_then serving_on
  pdus_then step [] new = refl
  pdus_then step (h ∷ servings) new = ap (λ s. h.pdu ∷ s) (pdus_then step servings new)

  pub answers_then :
      {w u v : World} (step : Step system u v) (servings : List (Serving system w u))
      (new : List (Serving system w v))
      → answers_of (servings_then step servings new) ≡ answers_of servings ++ answers_of new
  unfolding servings_then serving_on
  answers_then step [] new = refl
  answers_then step (h ∷ servings) new = ap (λ s. h.answers ∷ s) (answers_then step servings new)
