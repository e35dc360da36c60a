-- ===== src/Server/Numbering/Tested.antt =====
-- iscsi_server.c: the session behind the test of command numbers.
use iscsi.Prelude.{Bool-cases, ◌⊎◌, inl, inr, ◌≡◌, arith, true, false}
use iscsi.Prelude.Memory.{Memory}
use iscsi.Pdu.{iscsi_pdu_has_cmd_sn}
use iscsi.State.{Session, Process}
use iscsi.Server.Numbering.{valid_command_numbering, check_number, count_command}
use iscsi.Server.Numbering.Unchecked.{IsDropped, Counted, numbering-Unchecked}

-- The test of command numbers changes the session alone, and not its phase, kind and handle.
valid-Session :
    (p : Process) (request : Memory)
    → let q = (valid_command_numbering p request).1 in
      (q ≡ record p { session = q.session })
      × (q.session.is_full_feature_phase ≡ p.session.is_full_feature_phase)
      × (q.session.is_discovery ≡ p.session.is_discovery)
      × (q.session.tsih ≡ p.session.tsih)
unfolding valid_command_numbering check_number count_command
valid-Session p request = ground arith

valid_unchanged :
    (p : Process) (request : Memory)
    → (valid_command_numbering p request).0 ≡ false
    → (valid_command_numbering p request).1 ≡ p
unfolding valid_command_numbering check_number
valid_unchanged p request h = ground arith

valid-Counted :
    (p : Process) (request : Memory)
    → (valid_command_numbering p request).0 ≡ true
    → Counted p request (true, record p { session = (valid_command_numbering p request).1.session })
unfolding valid_command_numbering check_number count_command iscsi_pdu_has_cmd_sn
valid-Counted p request h = ground arith

-- A PDU is dropped, and nothing is changed, or it is let through with some session.
pub tested :
    (p : Process) (request : Memory)
    → (IsDropped p request
        × ((valid_command_numbering p request).0 ≡ false)
        × ((valid_command_numbering p request).1 ≡ p))
      ⊎ ((s : Session) × (¬ IsDropped p request)
          × ((valid_command_numbering p request).0 ≡ true)
          × ((valid_command_numbering p request).1 ≡ record p { session = s })
          × (s.is_full_feature_phase ≡ p.session.is_full_feature_phase)
          × (s.is_discovery ≡ p.session.is_discovery)
          × (s.tsih ≡ p.session.tsih)
          × Counted p request (true, record p { session = s }))
tested p request =
    let q = (valid_command_numbering p request).1 in
    let (drops, counted) = numbering-Unchecked p request in
    let (same, full, kind, handle) = valid-Session p request in
    elim (Bool-cases (valid_command_numbering p request).0) [
      | inl through ↦ inr (
        q.session,
        (λ h. let e = drops.1 h in ground arith),
        through,
        same,
        full,
        kind,
        handle,
        valid-Counted p request through,
      )
      | inr stops ↦ inl (drops.0 stops, stops, valid_unchanged p request stops)
    ]
