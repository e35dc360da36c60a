-- ===== src/Tests/Serving.antt =====
-- The server at concrete PDUs.
use iscsi.Prelude.{◌↔◌, ◌≡◌, ◌⊎◌, refl, true, false, [], ◌∷◌}
use iscsi.Prelude.Memory.{Memory, c_string}
use iscsi.Prelude.Outcome.{Always}
use iscsi.State.{Process}
use iscsi.Server.Numbering.{valid_command_numbering}
use iscsi.Server.Numbering.Unchecked.{IsDropped, Counted, numbering-Unchecked}
use iscsi.Server.Dispatch.{iscsi_server_process}
use iscsi.Server.Dispatch.Commands.{Guarded, process-Guarded}
use iscsi.Server.Dispatch.Sessions.{serve_all, Quiet, Login, serve_all-Login}
use iscsi.Server.Dispatch.Phases.{Turns, process-Turns}
use iscsi.Tests.Samples.{process, session, system}

-- A SCSI command that reads, in a session in the full feature phase.
abbrev reads : Memory
reads = c_string (0x01 ∷ 0xc0 ∷ [])

abbrev full : Process
full = record process { session = record session { is_full_feature_phase = true } }

process-Guarded_example : Always (Guarded reads full) (iscsi_server_process system reads full)
process-Guarded_example = process-Guarded system reads full

-- The last PDU of a login.
abbrev logs_in : Memory
logs_in = c_string (0x43 ∷ 0x87 ∷ [])

process-Turns_example : Always (Turns logs_in process) (iscsi_server_process system logs_in process)
process-Turns_example = process-Turns system logs_in process

numbering-Unchecked_example :
    let result = valid_command_numbering full reads in
    ((result.0 ≡ false) ↔ IsDropped full reads) × Counted full reads result
numbering-Unchecked_example = numbering-Unchecked full reads

log_in_phase : process.session.is_full_feature_phase ≡ false
log_in_phase = refl

serve_all-Login_example :
    Always
      (λ q. Quiet system process q ⊎ Login system (reads ∷ logs_in ∷ reads ∷ []) process)
      (serve_all system (reads ∷ logs_in ∷ reads ∷ []) process)
serve_all-Login_example = serve_all-Login system (reads ∷ logs_in ∷ reads ∷ []) process log_in_phase
