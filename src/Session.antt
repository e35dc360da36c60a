-- ===== src/Session.antt =====
-- iscsi_session.c, iscsi_target.c and iscsi_transfer_entry.c: the session, the device behind it,
-- and the data that a write collects. What `open` and `ioctl` do is a parameter.
use iscsi.Prelude.{ℕ, ◌^◌, Option, none, some, ◌∷◌, ◌==◌, ltb, if◌then◌else◌}
use iscsi.Prelude.Word.{add}
use iscsi.Prelude.Memory.{Memory, memcpy, bytes}
use iscsi.Prelude.Outcome.{Outcome, ok, fault, null_pointer, out_of_bounds, exit, ◌>>=◌}
use iscsi.State.{
  null, static, Connection, Session, TransferEntry, Target, sg_dxfer_from_dev, ScsiCommand, System,
  Process,
}

abbrev pub max_supported_conns : ℕ
max_supported_conns = 4

abbrev pub iscsi_session_default_tsih : ℕ
iscsi_session_default_tsih = 1

abbrev pub scsi_cdb_length : ℕ
scsi_cdb_length = 16

abbrev pub iscsi_target_memory_size : ℕ
iscsi_target_memory_size = 2 ^ 22

abbrev pub iscsi_transfer_entry_size : ℕ
iscsi_transfer_entry_size = 2 ^ 22

unfoldable pub iscsi_session_next_transfer_tag : Session → Session
iscsi_session_next_transfer_tag s = record s { transfer_tag = add s.transfer_tag 1 }

-- The session does not count its connections.
abbrev pub iscsi_session_add_connection : Connection → Connection
iscsi_session_add_connection c = record c { session_reference = static }

-- Whether the one transfer entry of the session has the tag.
unfoldable pub iscsi_session_get_transfer_entry : Session → ℕ → Option TransferEntry
iscsi_session_get_transfer_entry s tag =
    if s.transfer_entry.transfer_tag == tag then some s.transfer_entry else none

-- The argument `max_receive_data_segment` of the source is not used there.
unfoldable pub iscsi_transfer_entry_create : TransferEntry → Memory → ℕ → ℕ → TransferEntry
iscsi_transfer_entry_create e cdb total_length transfer_tag = record e {
  cdb = memcpy e.cdb 0 cdb scsi_cdb_length;
  total_length = total_length;
  transfer_tag = transfer_tag;
}

module _ (system : System) where
  unfoldable pub iscsi_target_create_default : Target → Outcome Target
  iscsi_target_create_default target = elim system.open_device [
    | none ↦ fault exit
    | some fd ↦ ok (record target { fd = fd })
  ]

  -- Of the other fields, those for flags, the connection and the command numbers stay.
  unfoldable pub iscsi_session_create : Process → Outcome Process
  unfolding iscsi_target_create_default
  iscsi_session_create p = do
    target ← iscsi_target_create_default p.target
    ok (record p {
      target = target;
      session = record p.session {
        num_connections = 0;
        max_connections = max_supported_conns;
        tsih = iscsi_session_default_tsih;
        exp_cmd_sn = 0;
        error_recovery_level = 0;
        transfer_tag = 0;
        target = static;
      };
    })

  -- `io_hdr` starts as zeros; an error of `ioctl` leaves it so.
  unfoldable pub iscsi_target_execute_scsi_command : Target → Memory → Target
  iscsi_target_execute_scsi_command target cdb =
      let command : ScsiCommand = record {
        cdb = bytes cdb 0 scsi_cdb_length;
        dxfer_direction = sg_dxfer_from_dev;
        dxfer_len = iscsi_target_memory_size;
        buffer = target.buffer;
      } in
      let asked = record target { issued = command ∷ target.issued } in
      elim (system.sg_io target.issued command) [
        | none ↦ record asked { status = 0; sb_len_wr = 0; resid = 0; scsi_response = 1 }
        | some reply ↦ record asked {
          status = reply.status;
          sb_len_wr = reply.sb_len_wr;
          resid = reply.resid;
          buffer = reply.buffer;
          sense_buffer = reply.sense_buffer;
          scsi_response = 0;
        }
      ]

  -- `session->target` is used without a test.
  unfoldable pub iscsi_session_execute_command : Process → Memory → Outcome Process
  unfolding iscsi_target_execute_scsi_command
  iscsi_session_execute_command p cdb = elim p.session.target [
    | null ↦ fault null_pointer
    | static ↦ ok (record p { target = iscsi_target_execute_scsi_command p.target cdb })
  ]

  -- The `memcpy` has no test: a length that is negative or larger than the array runs off its end.
  unfoldable pub iscsi_session_execute_transfer_entry : Process → Outcome Process
  unfolding iscsi_session_execute_command
  iscsi_session_execute_transfer_entry p =
      let entry = p.session.transfer_entry in
      let loaded = record p.target {
        buffer = memcpy p.target.buffer 0 entry.contents entry.total_length;
      } in
      elim p.session.target [
        | null ↦ fault null_pointer
        | static ↦
            if ltb iscsi_target_memory_size entry.total_length
            then fault out_of_bounds
            else iscsi_session_execute_command (record p { target = loaded }) entry.cdb
      ]
