-- ===== src/Server/Main.antt =====
-- main.c: `main`, which accepts connections and forks a process for each, and `start_connection`.
use iscsi.Prelude.{ℕ, true, Option, none, some, List, [], ◌∷◌, ◌==◌, if◌then◌else◌}
use iscsi.Buffer.{minus_one}
use iscsi.State.{null, Connection, Session, Target, Process, System}
use iscsi.Server.Loops.{iscsi_connection_create}
use iscsi.Server.Threads.{World, Reach}

-- What `malloc` returned for a connection, and what `accept` returned, an error too.
pub record Arrival : Type 0 where
  pub memory : Connection
  pub client_socket_fd : ℕ

-- A process of the program: the static objects, and what `accept` returned so far, the last first.
-- `main` closes none of these descriptors.
pub record Life : Type 0 where
  pub session : Session
  pub target : Target
  pub accepted : List ℕ

-- `main` up to its loop: without a socket it returns, and what `bind` and `listen` return is not
-- read.
unfoldable pub main_start : ℕ → Life → Option Life
main_start socket_desc life = if socket_desc == minus_one then none else some life

-- What a round of the loop leaves where `fork` fails, or returns in the parent.
unfoldable pub accept_round : Life → Arrival → Life
accept_round life a = record life { accepted = a.client_socket_fd ∷ life.accepted }

-- Connections that are accepted one after the other, without a return of `fork` in a child.
unfoldable pub accept_all : Life → List Arrival → Life
unfolding accept_round
accept_all life [] = life
accept_all life (a ∷ arrivals) = accept_all (accept_round life a) arrivals

-- `start_connection`: the world in which its two threads start.
unfoldable pub start_connection : Process → World
start_connection p = record { process = p; received = []; transmitted = []; receiving = true }

-- The branch of the child, up to `start_connection`.
unfoldable pub child_process : Life → Arrival → Process
child_process life a = record {
  connection = iscsi_connection_create a.memory a.client_socket_fd null;
  session = life.session;
  target = life.target;
}

-- A round of the loop. When the threads of a child have ended, the child takes the next round, with
-- what they left in the static objects.
pub data Round (system : System) : Life → Life → Type 0 where
  accepts : {life : Life} (a : Arrival) → Round system life (accept_round life a)
  serves :
      {life : Life} {w : World} (a : Arrival)
      → Reach system (start_connection (child_process (accept_round life a) a)) w
      → Round system life
          (record (accept_round life a) { session = w.process.session; target = w.process.target })
