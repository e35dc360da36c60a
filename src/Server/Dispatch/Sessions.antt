-- ===== src/Server/Dispatch/Sessions.antt =====
-- iscsi_server.c: PDU after PDU, from a process in which no one has logged in.
use iscsi.Prelude.{ℕ, ◌≡◌, ◌⊎◌, inl, inr, refl, ap, ◌∙◌, arith, false, List, [], ◌∷◌, ◌++◌}
use iscsi.Prelude.Memory.{Memory}
use iscsi.Prelude.Outcome.{
  Outcome, ok, waits, fault, Always, Always-both, Always-map, Always-Unit, ◌>>=◌,
}
use iscsi.Pdu.{iscsi_pdu_opcode}
use iscsi.Pdu.Opcode
use iscsi.State.{System, Process}
use iscsi.Server.Dispatch.{iscsi_server_process}
use iscsi.Server.Dispatch.Commands.{Guarded, process-Guarded}
use iscsi.Server.Dispatch.Phases.{AsksFullFeature, Turns, process-Turns}

module _ (system : System) where
  -- The PDUs are served one after the other.
  unfoldable pub serve_all : List Memory → Process → Outcome Process
  serve_all [] p = ok p
  serve_all (request ∷ requests) p =
      iscsi_server_process system request p >>= λ r. serve_all requests r.1

  -- Among the PDUs is a login that asks for the full feature phase, and the device was given no
  -- command by those in front of it.
  pub record Login (requests : List Memory) (p : Process) : Type 0 where
    pub before : List Memory
    pub login : Memory
    pub after : List Memory
    pub order : requests ≡ before ++ login ∷ after
    pub between : Process
    pub serves : serve_all before p ≡ ok between
    pub silent : between.target.issued ≡ p.target.issued
    pub is_login : iscsi_pdu_opcode login ≡ Opcode.login
    pub asks : AsksFullFeature login

  abbrev pub Quiet : Process → Process → Type 0
  Quiet p q = (q.target.issued ≡ p.target.issued) × (q.session.is_full_feature_phase ≡ false)

  abbrev pub IsLogin : Memory → Type 0
  IsLogin request = (iscsi_pdu_opcode request ≡ Opcode.login) × AsksFullFeature request

  -- The first PDU has the device given no command, and the phase stays, or it is that login.
  pub first-Quiet :
      (request : Memory) (p : Process)
      → p.session.is_full_feature_phase ≡ false
      → Always (λ r. Quiet p r.1 ⊎ IsLogin request) (iscsi_server_process system request p)
  first-Quiet request p phase =
      Always-both (Guarded request p) (Turns request p) _ (iscsi_server_process system request p)
        (process-Guarded system request p) (process-Turns system request p)
        λ r guarded turns. ground (arith, phase)

  Login-first :
      (request : Memory) (requests : List Memory) (p : Process)
      → IsLogin request
      → Login (request ∷ requests) p
  unfolding serve_all
  Login-first request requests p is = record {
    before = [];
    login = request;
    after = requests;
    order = refl;
    between = p;
    serves = refl;
    silent = refl;
    is_login = is.0;
    asks = is.1;
  }

  Login-later :
      (request : Memory) (requests : List Memory) (p : Process) (r : ℕ × Process)
      → iscsi_server_process system request p ≡ ok r
      → Quiet p r.1
      → Login requests r.1
      → Login (request ∷ requests) p
  unfolding serve_all
  Login-later request requests p r runs quiet h = record {
    before = request ∷ h.before;
    login = h.login;
    after = h.after;
    order = ap (λ s. request ∷ s) h.order;
    between = h.between;
    serves = rw runs h.serves;
    silent = h.silent ∙ quiet.0;
    is_login = h.is_login;
    asks = h.asks;
  }

  Found : List Memory → Process → Process → Type 0
  Found requests p q = Quiet p q ⊎ Login requests p

  widen :
      (request : Memory) (requests : List Memory) (p : Process) (r : ℕ × Process)
      → iscsi_server_process system request p ≡ ok r
      → Quiet p r.1
      → (q : Process) → Found requests r.1 q
      → Found (request ∷ requests) p q
  unfolding Found
  widen request requests p r runs quiet q (inl still) = inl (still.0 ∙ quiet.0, still.1)
  widen request requests p r runs quiet q (inr found) =
      inr (Login-later request requests p r runs quiet found)

  serve_step :
      (request : Memory) (requests : List Memory) (p : Process) (m : Outcome (ℕ × Process))
      → iscsi_server_process system request p ≡ m
      → Always (λ r. Quiet p r.1 ⊎ IsLogin request) m
      → ((q : Process)
          → q.session.is_full_feature_phase ≡ false
          → Always (Found requests q) (serve_all requests q))
      → Always (Found (request ∷ requests) p) (m >>= λ r. serve_all requests r.1)
  unfolding Found
  serve_step request requests p (ok r) runs (inr is) next =
      Always-map (λ _. Unit {0}) _ (serve_all requests r.1)
        (λ q _. inr (Login-first request requests p is)) (Always-Unit (serve_all requests r.1))
  serve_step request requests p (ok r) runs (inl quiet) next =
      Always-map _ _ (serve_all requests r.1) (widen request requests p r runs quiet)
        (next r.1 quiet.1)
  serve_step request requests p waits runs h next = tt
  serve_step request requests p (fault e) runs h next = tt

  serve_all-Found :
      (requests : List Memory) (p : Process)
      → p.session.is_full_feature_phase ≡ false
      → Always (Found requests p) (serve_all requests p)
  unfolding serve_all Found
  serve_all-Found [] p phase = inl (refl, phase)
  serve_all-Found (request ∷ requests) p phase =
      serve_step request requests p (iscsi_server_process system request p) refl
        (first-Quiet request p phase) (serve_all-Found requests)

  -- From a process that is not in the full feature phase, whatever PDUs are served, one after the
  -- other: when the last call of `iscsi_server_process` has returned, the device has been given no
  -- command and the session is still not in that phase; or among the PDUs is a last login PDU that
  -- asks for it, and those in front of it were served without a command to the device.
  pub serve_all-Login :
      (requests : List Memory) (p : Process)
      → p.session.is_full_feature_phase ≡ false
      → Always (λ q. Quiet p q ⊎ Login requests p) (serve_all requests p)
  unfolding Found
  serve_all-Login requests p phase = serve_all-Found requests p phase
