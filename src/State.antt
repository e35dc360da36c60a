-- ===== src/State.antt =====
-- The state of one server process: iscsi_connection.h, iscsi_session.h, iscsi_target.h,
-- iscsi_transfer_entry.h and iscsi_connection_parameter.h. `main` forks a process for each
-- connection, so a process has one connection, and the static ISCSI_DEFAULT_SESSION and
-- ISCSI_DEFAULT_TARGET are its own.
use iscsi.Prelude.{ℕ, Bool, true, false, Option, List, if◌then◌else◌}
use iscsi.Prelude.Word.{add, mul, slt}
use iscsi.Prelude.Memory.{Memory}
use iscsi.Byte.{iscsi_byte_int2byte}
use iscsi.Buffer.{Buffer}

-- A pointer that is NULL or that of the one static object of its type.
pub data Reference : Type 0 where
  null static : Reference

-- `struct iSCSIConnectionParameter`; the fields that hold a boolean are `Bool`.
pub record Parameter : Type 0 where
  pub buffer : Memory
  pub length : ℕ
  pub max_receive_data_segment_length : ℕ
  pub max_connections : ℕ
  pub initial_r2t : Bool
  pub immediate_data : Bool
  pub max_burst_length : ℕ
  pub first_burst_length : ℕ
  pub data_pdu_in_order : Bool
  pub data_sequence_in_order : Bool
  pub default_time_2_wait : ℕ
  pub default_time_2_retain : ℕ
  pub max_outstanding_r2t : ℕ

-- `struct iSCSITransferEntry`
pub record TransferEntry : Type 0 where
  pub contents : Memory
  pub cdb : Memory
  pub total_length : ℕ
  pub offset : ℕ
  pub r2t_sn : ℕ
  pub total_r2t_sn : ℕ
  pub transfer_tag : ℕ

-- `struct iSCSISession`
pub record Session : Type 0 where
  pub num_connections : ℕ
  pub max_connections : ℕ
  pub tsih : ℕ
  pub exp_cmd_sn : ℕ
  pub command_numbering_start : Bool
  pub is_full_feature_phase : Bool
  pub is_discovery : Bool
  pub error_recovery_level : ℕ
  pub transfer_tag : ℕ
  pub target : Reference
  pub transfer_entry : TransferEntry

-- SG_DXFER_TO_DEV and SG_DXFER_FROM_DEV of scsi/sg.h: which way the kernel moves the data.
pub data Direction : Type 0 where
  sg_dxfer_to_dev sg_dxfer_from_dev : Direction

-- A call of `ioctl(fd, SG_IO, …)`: the command block, the direction and length of the transfer, and
-- the bytes of the data buffer at the call. With SG_DXFER_FROM_DEV the device is given none of them.
pub record ScsiCommand : Type 0 where
  pub cdb : List ℕ
  pub dxfer_direction : Direction
  pub dxfer_len : ℕ
  pub buffer : Memory

-- What the kernel leaves in `io_hdr`, in the data buffer and in the sense buffer.
pub record ScsiReply : Type 0 where
  pub status : ℕ
  pub sb_len_wr : ℕ
  pub resid : ℕ
  pub buffer : Memory
  pub sense_buffer : Memory

-- `struct iSCSITarget`, with the fields of `io_hdr` that the program reads. `issued` is no field of
-- the program: the commands that were issued, the latest first.
pub record Target : Type 0 where
  pub fd : ℕ
  pub scsi_response : ℕ
  pub status : ℕ
  pub sb_len_wr : ℕ
  pub resid : ℕ
  pub buffer : Memory
  pub sense_buffer : Memory
  pub issued : List ScsiCommand

-- The operating system, which the program calls: `open` of the device's path (`none` is an error),
-- and `ioctl` with SG_IO (`none` is an error). The device has a state: its answer depends on the
-- commands that it was given before.
pub record System : Type 0 where
  pub open_device : Option ℕ
  pub sg_io : List ScsiCommand → ScsiCommand → Option ScsiReply

-- `struct iSCSIConnection`
pub record Connection : Type 0 where
  pub session_reference : Reference
  pub receive_buffer : Buffer
  pub response_buffer : Buffer
  pub parameter : Parameter
  pub socket_fd : ℕ
  pub so_far_in_order : Bool
  pub connection_id : ℕ
  pub current_timeout : ℕ
  pub stat_sn : ℕ
  pub expected_cmd_sn : ℕ
  pub max_cmd_sn : ℕ
  pub perform_connection_cleanup : Bool

-- The process: its connection and the two static objects.
pub record Process : Type 0 where
  pub connection : Connection
  pub session : Session
  pub target : Target

unfoldable pub iscsi_connection_advance_stat_sn : Connection → Connection
iscsi_connection_advance_stat_sn c = record c { stat_sn = add c.stat_sn 1 }

unfoldable pub iscsi_connection_advance_expected_cmd_sn : Connection → Connection
iscsi_connection_advance_expected_cmd_sn c = record c { expected_cmd_sn = add c.expected_cmd_sn 1 }

-- The largest command number that the initiator may send is the one that is expected.
abbrev pub iscsi_connection_max_cmd_sn : Connection → ℕ
iscsi_connection_max_cmd_sn c = c.expected_cmd_sn

unfoldable pub iscsi_pdu_set_response_header : Memory → Connection → Memory × Connection
unfolding iscsi_byte_int2byte iscsi_connection_advance_stat_sn
iscsi_pdu_set_response_header pdu c = (
  iscsi_byte_int2byte
      (iscsi_byte_int2byte (iscsi_byte_int2byte pdu 24 c.stat_sn) 28 c.expected_cmd_sn) 32
      (iscsi_connection_max_cmd_sn c),
  iscsi_connection_advance_stat_sn c,
)

unfoldable pub iscsi_session_full : Session → Bool
iscsi_session_full s = if slt s.num_connections s.max_connections then false else true

unfoldable pub iscsi_transfer_entry_next_offset : TransferEntry → ℕ
iscsi_transfer_entry_next_offset e = mul e.offset e.r2t_sn

unfoldable pub iscsi_transfer_entry_increase_r2t_sn : TransferEntry → TransferEntry
iscsi_transfer_entry_increase_r2t_sn e = record e { r2t_sn = add e.r2t_sn 1 }
