-- ===== src/Pdu/Opcode.antt =====
-- iscsi_pdu.h: `enum OPCODE`.
use iscsi.Prelude.{ℕ}

abbrev pub nop_out : ℕ
nop_out = 0x00

abbrev pub scsi_cmd : ℕ
scsi_cmd = 0x01

abbrev pub scsi_task_manage : ℕ
scsi_task_manage = 0x02

abbrev pub login : ℕ
login = 0x03

abbrev pub text : ℕ
text = 0x04

abbrev pub scsi_data_out : ℕ
scsi_data_out = 0x05

abbrev pub logout : ℕ
logout = 0x06

abbrev pub snack : ℕ
snack = 0x07

abbrev pub nop_in : ℕ
nop_in = 0x20

abbrev pub scsi_cmd_res : ℕ
scsi_cmd_res = 0x21

abbrev pub scsi_task_manage_res : ℕ
scsi_task_manage_res = 0x22

abbrev pub login_res : ℕ
login_res = 0x23

abbrev pub text_res : ℕ
text_res = 0x24

abbrev pub scsi_data_in : ℕ
scsi_data_in = 0x25

abbrev pub logout_res : ℕ
logout_res = 0x26

abbrev pub r2t : ℕ
r2t = 0x31

abbrev pub async_msg : ℕ
async_msg = 0x32

abbrev pub reject : ℕ
reject = 0x3f
