-- ===== src/Request/DataOut/Written.antt =====
-- request/data_out.c: the command of a write is given to the device when all its data have come.
use iscsi.Prelude.{
  ℕ, ◌+◌, ◌≤◌, ◌<◌, ◌≡◌, refl, sym, ap, ◌∙◌, arith, some, List, [], ◌∷◌, ◌++◌, append_assoc,
}
use iscsi.Prelude.Memory.{Memory, AreBytes, bytes, memcpy, bytes_ext}
use iscsi.Prelude.Outcome.{Outcome, ok, ◌>>=◌}
use iscsi.Buffer.{iscsi_buffer_size}
use iscsi.Buffer.Contents.{IsIdle}
use iscsi.State.{static, sg_dxfer_from_dev, System, Process, Target, ScsiCommand, ScsiReply}
use iscsi.Session.{
  iscsi_target_memory_size, iscsi_session_execute_command, iscsi_session_execute_transfer_entry,
  iscsi_target_execute_scsi_command, scsi_cdb_length,
}
use iscsi.Response.Laws.{HasInts, Answers, answered}
use iscsi.Request.Cmd.{response_write}
use iscsi.Request.Cmd.Answer.{CmdPdu, response_size, response_size-bound, send_response-Answers}
use iscsi.Request.DataOut.{iscsi_request_data_out_process, data_out_finish}
use iscsi.Request.DataOut.Collect.{
  Awaits, Burst, last, more, carried, with_data, with_data-Awaits, stored-eq, finished-eq,
  bytes-with_data,
}

-- `sb_len_wr` of `sg_io_hdr_t` is an `unsigned char`.
abbrev pub ShortSense : System → Type 0
ShortSense system =
    (before : List ScsiCommand) (command : ScsiCommand) (reply : ScsiReply)
    → system.sg_io before command ≡ some reply
    → reply.sb_len_wr < 256

-- PDUs with data, one after the other.
unfoldable pub data_out_all : System → List Memory → Process → Outcome Process
data_out_all system [] p = ok p
data_out_all system (request ∷ requests) p =
    iscsi_request_data_out_process system request p >>= λ r. data_out_all system requests r.1

-- One more command was issued, with the command block of the transfer and a data buffer that begins
-- with those bytes, for a transfer FROM the device; and the initiator was sent one answer to the
-- closing PDU, with what the device said.
pub record Written (total : ℕ) (closing : Memory) (received : List ℕ) (p q : Process) : Type 0 where
  pub command : ScsiCommand
  pub issued : q.target.issued ≡ command ∷ p.target.issued
  pub cdb : command.cdb ≡ bytes p.session.transfer_entry.cdb 0 scsi_cdb_length
  pub direction : command.dxfer_direction ≡ sg_dxfer_from_dev
  pub len : command.dxfer_len ≡ iscsi_target_memory_size
  pub buffered : bytes command.buffer 0 total ≡ received
  pub answers :
      Answers p.connection q.connection
        (response_size q.target.sb_len_wr)
        (CmdPdu q.target closing p.connection)

module _ (system : System) where
  -- The target with the data of the transfer.
  abbrev loaded : Process → Target
  loaded p = record p.target {
    buffer =
        memcpy p.target.buffer 0 p.session.transfer_entry.contents
          p.session.transfer_entry.total_length;
  }

  -- The device has done the command.
  abbrev executed : Process → Target
  executed p = iscsi_target_execute_scsi_command system (loaded p) p.session.transfer_entry.cdb

  execute-eq :
      (tag total : ℕ) (p : Process)
      → Awaits tag total p
      → p.session.target ≡ static
      → iscsi_session_execute_transfer_entry system p ≡ ok (record p { target = executed p })
  unfolding iscsi_session_execute_transfer_entry iscsi_session_execute_command
  execute-eq tag total p h there = let fits = h.fits in let long = h.long in rw there (ground arith)

  executed-short : (p : Process) → ShortSense system → (executed p).sb_len_wr < 256
  unfolding iscsi_target_execute_scsi_command
  executed-short p short = grind (arith, short)

  executed-issued :
      (p : Process)
      → (executed p).issued
        ≡ record {
          cdb = bytes p.session.transfer_entry.cdb 0 scsi_cdb_length;
          dxfer_direction = sg_dxfer_from_dev;
          dxfer_len = iscsi_target_memory_size;
          buffer = (loaded p).buffer;
        }
          ∷ p.target.issued
  unfolding iscsi_target_execute_scsi_command
  executed-issued p = ground arith

  loaded-bytes :
      (tag total : ℕ) (p : Process)
      → Awaits tag total p
      → bytes (loaded p).buffer 0 total ≡ bytes p.session.transfer_entry.contents 0 total
  loaded-bytes tag total p h =
      let long = h.long in
      bytes_ext (loaded p).buffer p.session.transfer_entry.contents 0 0 total (λ i lt. ground arith)

  finish-Written :
      (tag total : ℕ) (request : Memory) (p : Process)
      → Awaits tag total p
      → p.session.target ≡ static
      → ShortSense system
      → AreBytes request
      → HasInts p.connection
      → IsIdle p.connection.response_buffer
      → p.connection.response_buffer.length + 308 ≤ iscsi_buffer_size
      → (q : Process) × (data_out_finish system request p ≡ ok q)
        × Written total request (bytes p.session.transfer_entry.contents 0 total) p q
  unfolding data_out_finish
  finish-Written tag total request p h there short are numbers idle room =
      let small = executed-short p short in
      let (sends, answers, counted) =
        send_response-Answers p.connection (executed p) request are numbers small idle
          (let size = response_size-bound (executed p).sb_len_wr small in omega arith) in
      (
        record p {
          connection =
              answered p.connection (response_size (executed p).sb_len_wr)
                (response_write (executed p) request);
          target = executed p;
        },
        rw (execute-eq tag total p h there, sends) refl,
        record {
          command = _;
          issued = executed-issued p;
          cdb = refl;
          direction = refl;
          len = refl;
          buffered = loaded-bytes tag total p h;
          answers = answers;
        },
      )

all_last :
    (system : System) (request : Memory) (p q : Process)
    → iscsi_request_data_out_process system request p ≡ ok (0, q)
    → data_out_all system (request ∷ []) p ≡ ok q
unfolding data_out_all
all_last system request p q serves = rw serves refl

all_more :
    (system : System) (request : Memory) (requests : List Memory) (p q r : Process)
    → iscsi_request_data_out_process system request p ≡ ok (0, q)
    → data_out_all system requests q ≡ ok r
    → data_out_all system (request ∷ requests) p ≡ ok r
unfolding data_out_all
all_more system request requests p q r serves rest = rw (serves, rest) refl

-- What was written from the process with the data of one PDU, from the one without.
Written-stored :
    {total : ℕ} {closing : Memory} {received all : List ℕ} (p : Process) {q : Process} (offset : ℕ)
    (request : Memory) (n : ℕ)
    → Written total closing received (with_data p offset request n) q
    → received ≡ all
    → Written total closing all p q
Written-stored p offset request n h same = record {
  command = h.command;
  issued = h.issued;
  cdb = h.cdb;
  direction = h.direction;
  len = h.len;
  buffered = h.buffered ∙ same;
  answers = h.answers;
}

module _ (system : System) (short : ShortSense system) (tag total : ℕ) where
  -- For a device whose sense data are shorter than 256 bytes, and a session with a target and a
  -- transfer of at most 2 ^ 22 bytes, of which no R2T is counted and whose tag is not the default
  -- one: when PDUs with this tag come that carry its data from some offset up to its end, each
  -- behind the one before, the last of bytes, and the response buffer is at rest with room for 308
  -- bytes and the numbers of the connection are ints, then serving them returns; the device is
  -- given exactly one more command, with the command block of the transfer and as data what the
  -- transfer held in front of the offset and then the data of the PDUs; and the initiator is sent
  -- one answer, with what the device said, the buffer being at rest.
  pub Burst-Written :
      (offset : ℕ) (requests : List Memory) (closing : Memory) (received : List ℕ) (p : Process)
      → Burst tag total offset requests closing received
      → Awaits tag total p
      → p.session.target ≡ static
      → AreBytes closing
      → HasInts p.connection
      → IsIdle p.connection.response_buffer
      → p.connection.response_buffer.length + 308 ≤ iscsi_buffer_size
      → (q : Process) × (data_out_all system requests p ≡ ok q)
        × Written total closing (bytes p.session.transfer_entry.contents 0 offset ++ received) p q
  Burst-Written offset requests closing received p (last {n = n} request carries reached) h there
        are numbers idle room =
      let stored = with_data p offset request n in
      let (q, finishes, written) =
        finish-Written system tag total request stored (with_data-Awaits p offset request n h) there
          short are numbers idle room in
      let holds = bytes-with_data p.session.transfer_entry.contents offset request n in
      (
        q,
        all_last system request p q (
            finished-eq system tag total offset n request p h carries reached
            ∙ ap (λ m. m >>= λ s. ok (0, s)) finishes),
        Written-stored p offset request n written
            (ap (λ k. bytes stored.session.transfer_entry.contents 0 k) (sym reached) ∙ holds),
      )
  Burst-Written offset requests closing received p
        (more {n = n} {requests = others} {rest = rest} request carries further burst) h there are
        numbers idle room =
      let stored = with_data p offset request n in
      let (q, serves, written) =
        Burst-Written (offset + n) others closing rest stored burst
          (with_data-Awaits p offset request n h) there are numbers idle room in
      (
        q,
        all_more system request others p stored q
            (stored-eq system tag total offset n request p h carries further) serves,
        Written-stored p offset request n written (
            ap (λ s. s ++ rest) (bytes-with_data p.session.transfer_entry.contents offset request n)
            ∙ append_assoc (bytes p.session.transfer_entry.contents 0 offset) (carried request n)
                rest),
      )
