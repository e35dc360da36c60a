-- ===== src/Request/DataOut/Transfer.antt =====
-- request/cmd.c and request/data_out.c: a write, from its command to its last data.
use iscsi.Prelude.{
  ℕ, ◌+◌, ◌*◌, ◌≤◌, ◌≡◌, ◌≢◌, refl, ap, ◌∙◌, arith, List, ◌∷◌, ◌++◌, length, length-append,
}
use iscsi.Prelude.Word.{add}
use iscsi.Prelude.Memory.{Memory, AreBytes, bytes, bytes_ext, length-bytes}
use iscsi.Prelude.Outcome.{ok}
use iscsi.Buffer.{iscsi_buffer_size}
use iscsi.Buffer.Contents.{contents}
use iscsi.Pdu.{default_target_transfer_tag, iscsi_pdu_data_segment_length}
use iscsi.State.{static, sg_dxfer_from_dev, System, Process, ScsiCommand, Session, Target}
use iscsi.Session.{
  scsi_cdb_length, iscsi_target_memory_size, iscsi_transfer_entry_size, iscsi_transfer_entry_create,
}
use iscsi.Request.Cmd.{
  iscsi_request_cmd_process, iscsi_request_cmd_exp_data_transfer, iscsi_request_cmd_cdb,
}
use iscsi.Request.Cmd.Asked.{length-Asked}
use iscsi.Request.Cmd.Write.{IsWrite, CanAsk, AsksFor, cmd-AsksFor}
use iscsi.Request.DataOut.Collect.{Awaits, Burst}
use iscsi.Request.DataOut.Written.{ShortSense, Written, data_out_all, Burst-Written}

-- The bytes that wait behind the R2Ts.
length-AsksFor :
    (request : Memory) (p q : Process)
    → AsksFor request p q
    → q.connection.response_buffer.length
      ≤ p.connection.response_buffer.length + 48 * p.connection.parameter.max_outstanding_r2t
length-AsksFor request p q h =
    let few = h.few in
    let front =
      length-bytes p.connection.response_buffer.contents 0 p.connection.response_buffer.length in
    let whole =
      length-bytes q.connection.response_buffer.contents 0 q.connection.response_buffer.length in
    let sum = ap length h.holds ∙ length-append (contents p.connection.response_buffer) h.asked in
    let asked = length-Asked h.all in omega arith

-- One command was issued, with the command block of the request and a data buffer that begins with
-- those bytes, for a transfer FROM the device of the whole buffer.
pub record Executes (request : Memory) (total : ℕ) (received : List ℕ) (p r : Process)
    : Type 0 where
  pub command : ScsiCommand
  pub issued : r.target.issued ≡ command ∷ p.target.issued
  pub cdb : command.cdb ≡ bytes (iscsi_request_cmd_cdb request) 0 scsi_cdb_length
  pub direction : command.dxfer_direction ≡ sg_dxfer_from_dev
  pub len : command.dxfer_len ≡ iscsi_target_memory_size
  pub buffered : bytes command.buffer 0 total ≡ received

-- The session behind a write command.
abbrev asking : Memory → Process → Session
asking request p = record p.session {
  transfer_tag = add p.session.transfer_tag 1;
  transfer_entry =
      iscsi_transfer_entry_create p.session.transfer_entry (iscsi_request_cmd_cdb request)
        (iscsi_request_cmd_exp_data_transfer request) (add p.session.transfer_tag 1);
}

asking-Awaits :
    (request : Memory) (p q : Process)
    → q.session ≡ asking request p
    → add p.session.transfer_tag 1 ≢ default_target_transfer_tag
    → iscsi_request_cmd_exp_data_transfer request ≤ iscsi_transfer_entry_size
    → p.session.transfer_entry.r2t_sn ≡ 0
    → p.session.transfer_entry.total_r2t_sn ≡ 0
    → Awaits (add p.session.transfer_tag 1) (iscsi_request_cmd_exp_data_transfer request) q
unfolding iscsi_transfer_entry_create
asking-Awaits request p q same named fits sent left = record {
  named = named;
  tagged = ap (λ (s : Session). s.transfer_entry.transfer_tag) same;
  long = ap (λ (s : Session). s.transfer_entry.total_length) same;
  fits = fits;
  none_sent = ap (λ (s : Session). s.transfer_entry.r2t_sn) same ∙ sent;
  none_left = ap (λ (s : Session). s.transfer_entry.total_r2t_sn) same ∙ left;
}

asking-cdb :
    (request : Memory) (p : Process)
    → bytes (asking request p).transfer_entry.cdb 0 scsi_cdb_length
      ≡ bytes (iscsi_request_cmd_cdb request) 0 scsi_cdb_length
unfolding iscsi_transfer_entry_create
asking-cdb request p =
    bytes_ext (asking request p).transfer_entry.cdb (iscsi_request_cmd_cdb request) 0 0
      scsi_cdb_length λ i lt. ground arith

asking-contents :
    (request : Memory) (p : Process)
    → (asking request p).transfer_entry.contents ≡ p.session.transfer_entry.contents
unfolding iscsi_transfer_entry_create
asking-contents request p = refl

Written-Executes :
    (request closing : Memory) (total n : ℕ) (received : List ℕ) (p q r : Process)
    → AsksFor request p q
    → Written total closing (bytes q.session.transfer_entry.contents 0 n ++ received) q r
    → Executes request total (bytes p.session.transfer_entry.contents 0 n ++ received) p r
Written-Executes request closing total n received p q r asks h = record {
  command = h.command;
  issued = h.issued ∙ ap (λ (t : Target). h.command ∷ t.issued) asks.device;
  cdb =
      h.cdb
      ∙ ap (λ (s : Session). bytes s.transfer_entry.cdb 0 scsi_cdb_length) asks.transfer
      ∙ asking-cdb request p;
  direction = h.direction;
  len = h.len;
  buffered =
      h.buffered
      ∙ ap (λ (s : Session). bytes s.transfer_entry.contents 0 n ++ received) asks.transfer
      ∙ ap (λ m. bytes m 0 n ++ received) (asking-contents request p);
}

-- For a device whose sense data are shorter than 256 bytes: a write command of bytes, of whose
-- data, at most 2 ^ 22 bytes, a part is still to come, on a connection that can ask for it
-- (`CanAsk`) and a session with a target, with a next tag that is not the default one and with no
-- R2T counted, is taken in; when then PDUs with that tag come that carry the rest of the data, each
-- behind the one before and the last of bytes, and the response buffer has room, they are taken in
-- too, and exactly one command is issued: with the command block of the request, and with a data
-- buffer that begins with what the transfer held before, as long as the data that came with the
-- command, and goes on with the rest of the data. Its direction is FROM the device and its length
-- that of the whole buffer, so it asks the kernel to give the device none of these bytes.
pub write-Executes :
    (system : System) (request : Memory) (requests : List Memory) (closing : Memory)
    (received : List ℕ) (p : Process)
    → let total = iscsi_request_cmd_exp_data_transfer request in
      let n = iscsi_pdu_data_segment_length request in
      let tag = add p.session.transfer_tag 1 in
      ShortSense system
      → IsWrite request
      → total ≤ iscsi_transfer_entry_size
      → CanAsk total p.connection
      → p.session.target ≡ static
      → tag ≢ default_target_transfer_tag
      → p.session.transfer_entry.r2t_sn ≡ 0
      → p.session.transfer_entry.total_r2t_sn ≡ 0
      → Burst tag total n requests closing received
      → AreBytes closing
      → p.connection.response_buffer.length + 48 * p.connection.parameter.max_outstanding_r2t + 308
        ≤ iscsi_buffer_size
      → (q r : Process) × (iscsi_request_cmd_process system request p ≡ ok (0, q))
        × (data_out_all system requests q ≡ ok r)
        × Executes request total (bytes p.session.transfer_entry.contents 0 n ++ received) p r
write-Executes system request requests closing received p short write fits can there named sent left
      burst are room =
    let total = iscsi_request_cmd_exp_data_transfer request in
    let n = iscsi_pdu_data_segment_length request in
    let tag = add p.session.transfer_tag 1 in
    let (q, takes, asks) = cmd-AsksFor system request p write can in
    let longer = length-AsksFor request p q asks in
    let (r, serves, written) =
      Burst-Written system short tag total n requests closing received q burst
        (asking-Awaits request p q asks.transfer named fits sent left)
        (ap (λ (s : Session). s.target) asks.transfer ∙ there) are asks.numbers asks.idle
        (omega arith) in
    (q, r, takes, serves, Written-Executes request closing total n received p q r asks written)
