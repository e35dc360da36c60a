-- ===== src/Pdu.antt =====
-- iscsi_pdu.h and iscsi_pdu.c: the fields of a PDU. `buffer` is the memory from the start of the
-- PDU on. `iscsi_pdu_set_response_header` is in State, beside the connection that it reads.
pub mod Opcode
pub mod Fields
pub mod Length
use iscsi.Prelude.{
  ℕ, ◌+◌, ◌-◌, ◌*◌, ◌/◌, ◌%◌, ◌^◌, bit_and, bit_or, Bool, true, false, not, ◌||◌, ◌==◌,
}
use iscsi.Prelude.Word.{add, sub, slt}
use iscsi.Prelude.Memory.{Memory, poke, from, memcpy, memset}
use iscsi.Byte.{iscsi_byte_byte2bit, iscsi_byte_bit2byte, iscsi_byte_byte2int, iscsi_byte_int2byte}
use iscsi.Utility.{max}
use Opcode

abbrev pub basic_header_segment_length : ℕ
basic_header_segment_length = 48

abbrev pub default_target_transfer_tag : ℕ
default_target_transfer_tag = 0xffff_ffff

abbrev pub default_initial_task_tag : ℕ
default_initial_task_tag = 0xffff_ffff

unfoldable pub iscsi_pdu_immediate : Memory → ℕ
unfolding iscsi_byte_byte2bit
iscsi_pdu_immediate buffer = iscsi_byte_byte2bit (buffer 0) 0

unfoldable pub iscsi_pdu_opcode : Memory → ℕ
iscsi_pdu_opcode buffer = bit_and (buffer 0) 0x3f

unfoldable pub iscsi_pdu_final : Memory → ℕ
unfolding iscsi_byte_byte2bit
iscsi_pdu_final buffer = iscsi_byte_byte2bit (buffer 1) 0

-- `& ~0x03` clears the two lowest bits.
unfoldable pub iscsi_pdu_padded_length : ℕ → ℕ
iscsi_pdu_padded_length n = add n 3 / 4 * 4

unfoldable pub iscsi_pdu_calc_size : ℕ → ℕ → ℕ
unfolding iscsi_pdu_padded_length
iscsi_pdu_calc_size total_ahs_length data_segment_length =
    iscsi_pdu_padded_length
      (add (add basic_header_segment_length total_ahs_length) data_segment_length)

unfoldable pub iscsi_pdu_ahs_length : Memory → ℕ
iscsi_pdu_ahs_length buffer = buffer 4

-- The shifted bytes do not overlap, so `|` is a sum.
unfoldable pub iscsi_pdu_data_segment_length : Memory → ℕ
iscsi_pdu_data_segment_length buffer = buffer 5 * 2 ^ 16 + buffer 6 * 2 ^ 8 + buffer 7

unfoldable pub iscsi_pdu_length : Memory → ℕ
unfolding iscsi_pdu_calc_size iscsi_pdu_ahs_length iscsi_pdu_data_segment_length
iscsi_pdu_length buffer =
    iscsi_pdu_calc_size (iscsi_pdu_ahs_length buffer) (iscsi_pdu_data_segment_length buffer)

unfoldable pub iscsi_pdu_cmd_sn : Memory → ℕ
unfolding iscsi_byte_byte2int
iscsi_pdu_cmd_sn buffer = iscsi_byte_byte2int (from buffer 24)

abbrev pub iscsi_pdu_data : Memory → Memory
iscsi_pdu_data buffer = from buffer basic_header_segment_length

unfoldable pub iscsi_pdu_initiator_task_tag : Memory → ℕ
unfolding iscsi_byte_byte2int
iscsi_pdu_initiator_task_tag buffer = iscsi_byte_byte2int (from buffer 16)

unfoldable pub iscsi_pdu_target_transfer_tag : Memory → ℕ
unfolding iscsi_byte_byte2int
iscsi_pdu_target_transfer_tag buffer = iscsi_byte_byte2int (from buffer 20)

unfoldable pub iscsi_pdu_set_bit : Memory → ℕ → ℕ → Memory
unfolding iscsi_byte_bit2byte
iscsi_pdu_set_bit buffer bit val = iscsi_byte_bit2byte buffer 0 bit val

unfoldable pub iscsi_pdu_set_immediate : Memory → ℕ → Memory
iscsi_pdu_set_immediate buffer i = poke buffer 0 (bit_or (i % 2 * 2 ^ 6) (bit_and (buffer 0) 0xbf))

unfoldable pub iscsi_pdu_set_opcode : Memory → ℕ → Memory
iscsi_pdu_set_opcode buffer opcode =
    poke buffer 0 (bit_or (bit_and opcode 0x3f) (bit_and (buffer 0) 0xc0))

unfoldable pub iscsi_pdu_set_final : Memory → ℕ → Memory
unfolding iscsi_byte_bit2byte
iscsi_pdu_set_final buffer f = iscsi_byte_bit2byte buffer 1 0 f

unfoldable pub iscsi_pdu_set_ahs_length : Memory → ℕ → Memory
iscsi_pdu_set_ahs_length buffer ahs_length = poke buffer 4 (ahs_length % 256)

unfoldable pub iscsi_pdu_set_data_segment_length : Memory → ℕ → Memory
iscsi_pdu_set_data_segment_length buffer segment_length =
    poke (poke (poke buffer 5 (segment_length / 2 ^ 16 % 256)) 6 (segment_length / 2 ^ 8 % 256)) 7
      (segment_length % 256)

unfoldable pub iscsi_pdu_set_data_segment : Memory → Memory → ℕ → Memory
unfolding iscsi_pdu_set_data_segment_length
iscsi_pdu_set_data_segment buffer source n =
    memcpy (iscsi_pdu_set_data_segment_length buffer n) basic_header_segment_length source n

unfoldable pub iscsi_pdu_set_initiator_task_tag : Memory → ℕ → Memory
unfolding iscsi_byte_int2byte
iscsi_pdu_set_initiator_task_tag buffer tag = iscsi_byte_int2byte buffer 16 tag

unfoldable pub iscsi_pdu_set_target_transfer_tag : Memory → ℕ → Memory
unfolding iscsi_byte_int2byte
iscsi_pdu_set_target_transfer_tag buffer tag = iscsi_byte_int2byte buffer 20 tag

unfoldable pub iscsi_pdu_has_cmd_sn : Memory → Bool
iscsi_pdu_has_cmd_sn buffer =
    let opcode = iscsi_pdu_opcode buffer in
    opcode == Opcode.nop_out
    || opcode == Opcode.scsi_cmd
    || opcode == Opcode.login
    || opcode == Opcode.text
    || opcode == Opcode.logout

unfoldable pub iscsi_pdu_generate_from_buffer : Memory → Memory → Memory
iscsi_pdu_generate_from_buffer response request =
    memcpy response 0 request basic_header_segment_length

unfoldable pub iscsi_pdu_valid : Memory → ℕ → Bool
unfolding max
iscsi_pdu_valid pdu n = not (slt n (max (iscsi_pdu_length pdu) basic_header_segment_length))

-- `(padded - length) & 0x03`
unfoldable pub pad_size : ℕ → ℕ
pad_size n = sub (iscsi_pdu_padded_length n) n % 4

unfoldable pub iscsi_pdu_pad0 : Memory → ℕ → Memory
unfolding pad_size
iscsi_pdu_pad0 pdu n = memset pdu n 0 (pad_size n)
