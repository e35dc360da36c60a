-- ===== src/Server/Threads/Sessions.antt =====
-- main.c, iscsi_connection.c and iscsi_server.c: the rounds of the threads before a login.
use iscsi.Prelude.{
  ℕ, ◌≡◌, ◌⊎◌, inl, inr, refl, ap, ◌∙◌, false, ◌==◌, if◌then◌else◌, Bool-cases, ==_iff,
}
use iscsi.Prelude.Memory.{Memory}
use iscsi.Prelude.Outcome.{
  Outcome, ok, waits, fault, Always, Always-ok, Always-bind, Always-Unit, Always-map, ◌>>=◌,
}
use iscsi.Buffer.{Buffer, iscsi_buffer_receive, iscsi_buffer_flush}
use iscsi.Pdu.{iscsi_pdu_valid}
use iscsi.State.{System, Process}
use iscsi.Server.Dispatch.{iscsi_server_process, process_front, incoming_request, pdu_incomplete}
use iscsi.Server.Dispatch.Sessions.{Quiet, IsLogin, first-Quiet}
use iscsi.Server.Threads.{World, world_received, Step, Reach, receives, transmits, here, later}

module _ (system : System) where
  -- With the chunk, a last login PDU that asks for the full feature phase is at the front of the
  -- receive buffer.
  pub record Arrives (p : Process) (chunk : Memory) (n : ℕ) : Type 0 where
    pub receiver : Buffer
    pub receives : iscsi_buffer_receive p.connection.receive_buffer chunk n ≡ ok (0, receiver)
    pub is_login : IsLogin system receiver.contents

  abbrev with_receiver : Process → Buffer → Process
  with_receiver p receiver = record p {
    connection = record p.connection { receive_buffer = receiver };
  }

  front-Quiet :
      (p : Process)
      → p.session.is_full_feature_phase ≡ false
      → Always
          (λ r. Quiet system p r.1 ⊎ IsLogin system p.connection.receive_buffer.contents)
          (process_front system p)
  unfolding process_front
  front-Quiet p phase =
      let request = p.connection.receive_buffer.contents in
      Always-bind (λ r. Quiet system p r.1 ⊎ IsLogin system request) _
        (iscsi_server_process system request p) _ (first-Quiet system request p phase)
        λ r found.
          Always-bind (λ _. Unit {0}) _ (iscsi_buffer_flush r.1.connection.receive_buffer _) _
            (Always-Unit (iscsi_buffer_flush r.1.connection.receive_buffer _)) λ flushed _. found

  arrival :
      (p : Process) (chunk : Memory) (n : ℕ) (error : ℕ) (receiver : Buffer)
      → iscsi_buffer_receive p.connection.receive_buffer chunk n ≡ ok (error, receiver)
      → error ≡ 0
      → (r : ℕ × Process)
      → Quiet system (with_receiver p receiver) r.1 ⊎ IsLogin system receiver.contents
      → Quiet system p r.1 ⊎ Arrives p chunk n
  arrival p chunk n error receiver runs fine r (inl quiet) = inl quiet
  arrival p chunk n error receiver runs fine r (inr is) = inr (record {
    receiver = receiver;
    receives = runs ∙ ap (λ e. ok (e, receiver)) fine;
    is_login = is;
  })

  received-Quiet :
      (p : Process) (chunk : Memory) (n : ℕ) (m : Outcome (ℕ × Buffer))
      → iscsi_buffer_receive p.connection.receive_buffer chunk n ≡ m
      → p.session.is_full_feature_phase ≡ false
      → Always
          (λ r. Quiet system p r.1 ⊎ Arrives p chunk n)
          (m >>= λ r.
            if r.0 == 0
            then (if iscsi_pdu_valid r.1.contents r.1.length
                then process_front system (with_receiver p r.1)
                else ok (pdu_incomplete, with_receiver p r.1))
            else ok (r.0, with_receiver p r.1))
  received-Quiet p chunk n (ok (error, receiver)) runs phase = elim (Bool-cases (error == 0)) [
    | inl fine ↦ elim (Bool-cases (iscsi_pdu_valid receiver.contents receiver.length)) [
      | inl whole ↦
          rw (fine, whole)
            (Always-map _ _ (process_front system (with_receiver p receiver))
              (arrival p chunk n error receiver runs ((==_iff error 0).0 fine))
              (front-Quiet (with_receiver p receiver) phase))
      | inr part ↦ rw (fine, part) (inl (refl, phase))
    ]
    | inr refused ↦ rw refused (inl (refl, phase))
  ]
  received-Quiet p chunk n waits runs phase = tt
  received-Quiet p chunk n (fault e) runs phase = tt

  incoming-Quiet :
      (p : Process) (chunk : Memory) (n : ℕ)
      → p.session.is_full_feature_phase ≡ false
      → Always (λ r. Quiet system p r.1 ⊎ Arrives p chunk n) (incoming_request system p chunk n)
  unfolding incoming_request
  incoming-Quiet p chunk n phase =
      received-Quiet p chunk n (iscsi_buffer_receive p.connection.receive_buffer chunk n) refl phase

  -- A round of the receiver on the way from `start` to `v`, before which the device was given no
  -- command and the session was not in the full feature phase, and whose chunk put such a login at
  -- the front of the receive buffer.
  pub record LoginCame (start v : World) : Type 0 where
    pub world : World
    pub reach : Reach system start world
    pub silent : world.process.target.issued ≡ start.process.target.issued
    pub not_yet : world.process.session.is_full_feature_phase ≡ false
    pub chunk : Memory
    pub size : ℕ
    pub status : ℕ
    pub after : Process
    pub runs : incoming_request system world.process chunk size ≡ ok (status, after)
    pub arrives : Arrives world.process chunk size
    pub goes_on : Reach system (world_received world chunk size status after) v

  LoginCame-later : {start w v : World} → LoginCame start w → Step system w v → LoginCame start v
  LoginCame-later came step = record {
    world = came.world;
    reach = came.reach;
    silent = came.silent;
    not_yet = came.not_yet;
    chunk = came.chunk;
    size = came.size;
    status = came.status;
    after = came.after;
    runs = came.runs;
    arrives = came.arrives;
    goes_on = later came.goes_on step;
  }

  Step-Quiet :
      {start w v : World}
      → Reach system start w
      → w.process.target.issued ≡ start.process.target.issued
      → w.process.session.is_full_feature_phase ≡ false
      → Step system w v
      → Quiet system w.process v.process ⊎ LoginCame start v
  Step-Quiet {w = w} before silent phase
        (receives {chunk = chunk} {n} {status} {after} on are small runs) =
      elim (Always-ok (λ r. Quiet system w.process r.1 ⊎ Arrives w.process chunk n) _
        (incoming-Quiet w.process chunk n phase) runs) [
          | inl quiet ↦ inl quiet
          | inr came ↦ inr (record {
            world = w;
            reach = before;
            silent = silent;
            not_yet = phase;
            chunk = chunk;
            size = n;
            status = status;
            after = after;
            runs = runs;
            arrives = came;
            goes_on = here;
          })
        ]
  Step-Quiet before silent phase (transmits are runs) = inl (refl, phase)

  -- Whatever the order of the rounds of the two threads, from a session that is not in the full
  -- feature phase: the device has been given no command and the session is still not in that phase;
  -- or one of the rounds of the receiver on the way, with no command to the device and the session
  -- not in that phase before it, was with a chunk that put a last login PDU that asks for that phase
  -- at the front of the receive buffer.
  pub Reach-LoginCame :
      {start v : World}
      → start.process.session.is_full_feature_phase ≡ false
      → Reach system start v
      → Quiet system start.process v.process ⊎ LoginCame start v
  Reach-LoginCame phase here = inl (refl, phase)
  Reach-LoginCame phase (later before step) = elim (Reach-LoginCame phase before) [
    | inr came ↦ inr (LoginCame-later came step)
    | inl quiet ↦ elim (Step-Quiet before quiet.0 quiet.1 step) [
      | inl more ↦ inl (more.0 ∙ quiet.0, more.1)
      | inr came ↦ inr came
    ]
  ]
