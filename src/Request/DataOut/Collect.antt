-- ===== src/Request/DataOut/Collect.antt =====
-- request/data_out.c: the data of a write, PDU after PDU.
use iscsi.Prelude.{
  ℕ, ◌+◌, ◌≤◌, ◌<◌, ◌≡◌, ◌≢◌, refl, ◌∙◌, arith, true, false, ltb, ◌==◌, List, [], ◌∷◌, ◌++◌,
}
use iscsi.Prelude.Word.{add}
use iscsi.Prelude.Memory.{Memory, bytes, memcpy, bytes-memcpy}
use iscsi.Prelude.Outcome.{ok, ◌>>=◌}
use iscsi.Pdu.{
  default_target_transfer_tag, iscsi_pdu_data, iscsi_pdu_data_segment_length,
  iscsi_pdu_target_transfer_tag,
}
use iscsi.State.{System, Process, TransferEntry}
use iscsi.Session.{iscsi_session_get_transfer_entry, iscsi_transfer_entry_size}
use iscsi.Request.DataOut.{
  iscsi_request_data_out_process, data_out_found, data_out_finish, data_out_more, data_out_entry,
  iscsi_request_data_out_buffer_offset,
}

-- A PDU that carries `n` bytes of the transfer with the tag, from `offset` on.
pub record Carries (tag offset n : ℕ) (request : Memory) : Type 0 where
  pub names : iscsi_pdu_target_transfer_tag request ≡ tag
  pub at : iscsi_request_data_out_buffer_offset request ≡ offset
  pub size : iscsi_pdu_data_segment_length request ≡ n

-- The bytes that a request carries.
abbrev pub carried : Memory → ℕ → List ℕ
carried request n = bytes (iscsi_pdu_data request) 0 n

-- PDUs that carry the data of a transfer from the offset up to its end, each behind the one before;
-- the last of them, and the data.
pub data Burst (tag total : ℕ) : ℕ → List Memory → Memory → List ℕ → Type 0 where
  last :
      {offset n : ℕ} (request : Memory)
      → Carries tag offset n request
      → offset + n ≡ total
      → Burst tag total offset (request ∷ []) request (carried request n)
  more :
      {offset n : ℕ} {requests : List Memory} {closing : Memory} {rest : List ℕ} (request : Memory)
      → Carries tag offset n request
      → offset + n < total
      → Burst tag total (offset + n) requests closing rest
      → Burst tag total offset (request ∷ requests) closing (carried request n ++ rest)

-- The transfer of the session, of which no R2T is counted.
pub record Awaits (tag total : ℕ) (p : Process) : Type 0 where
  pub named : tag ≢ default_target_transfer_tag
  pub tagged : p.session.transfer_entry.transfer_tag ≡ tag
  pub long : p.session.transfer_entry.total_length ≡ total
  pub fits : total ≤ iscsi_transfer_entry_size
  pub none_sent : p.session.transfer_entry.r2t_sn ≡ 0
  pub none_left : p.session.transfer_entry.total_r2t_sn ≡ 0

-- The process with the data of a PDU in its transfer.
abbrev pub with_data : Process → ℕ → Memory → ℕ → Process
with_data p offset request n = record p {
  session = record p.session {
    transfer_entry = record p.session.transfer_entry {
      contents = memcpy p.session.transfer_entry.contents offset (iscsi_pdu_data request) n;
    };
  };
}

pub with_data-Awaits :
    {tag total : ℕ} (p : Process) (offset : ℕ) (request : Memory) (n : ℕ)
    → Awaits tag total p
    → Awaits tag total (with_data p offset request n)
with_data-Awaits p offset request n h = record {
  named = h.named;
  tagged = h.tagged;
  long = h.long;
  fits = h.fits;
  none_sent = h.none_sent;
  none_left = h.none_left;
}

found-eq :
    (system : System) (tag total : ℕ) (request : Memory) (p : Process)
    → Awaits tag total p
    → iscsi_pdu_target_transfer_tag request ≡ tag
    → iscsi_request_data_out_process system request p
      ≡ data_out_found system request p.session.transfer_entry p
unfolding iscsi_request_data_out_process data_out_entry iscsi_session_get_transfer_entry
found-eq system tag total request p h names =
    let named = h.named in let tagged = h.tagged in ground arith

pub more-eq :
    (request : Memory) (entry : TransferEntry) (p : Process)
    → entry.r2t_sn ≡ 0
    → entry.total_r2t_sn ≡ 0
    → data_out_more request entry p ≡ ok p
unfolding data_out_more
more-eq request entry p none_sent none_left = rw (none_sent, none_left) refl

module _ (system : System) (tag total : ℕ) where
  -- A PDU that does not reach the end is stored, and nothing else happens.
  pub stored-eq :
      (offset n : ℕ) (request : Memory) (p : Process)
      → Awaits tag total p
      → Carries tag offset n request
      → offset + n < total
      → iscsi_request_data_out_process system request p ≡ ok (0, with_data p offset request n)
  unfolding data_out_found
  stored-eq offset n request p h carries short =
      let fits = h.fits in
      let long = h.long in
      let after = with_data p offset request n in
      let keeps = more-eq request after.session.transfer_entry after h.none_sent h.none_left in
      let room : ltb iscsi_transfer_entry_size (offset + n) ≡ false = ground arith in
      let ends : (add offset n == total) ≡ false = ground arith in
      found-eq system tag total request p h carries.names
      ∙ rw (carries.at, carries.size, room, long, ends) (ground arith)

  -- A PDU that reaches the end is stored, and the command is given to the device.
  pub finished-eq :
      (offset n : ℕ) (request : Memory) (p : Process)
      → Awaits tag total p
      → Carries tag offset n request
      → offset + n ≡ total
      → iscsi_request_data_out_process system request p
        ≡ (data_out_finish system request (with_data p offset request n) >>= λ q. ok (0, q))
  unfolding data_out_found
  finished-eq offset n request p h carries reached =
      let fits = h.fits in
      let long = h.long in
      let room : ltb iscsi_transfer_entry_size (offset + n) ≡ false = ground arith in
      let ends : (add offset n == total) ≡ true = ground arith in
      found-eq system tag total request p h carries.names
      ∙ rw (carries.at, carries.size, room, long, ends) refl

-- What the transfer holds up to the end of the data of a PDU.
pub bytes-with_data :
    (contents : Memory) (offset : ℕ) (request : Memory) (n : ℕ)
    → bytes (memcpy contents offset (iscsi_pdu_data request) n) 0 (offset + n)
      ≡ bytes contents 0 offset ++ carried request n
bytes-with_data contents offset request n = bytes-memcpy contents offset (iscsi_pdu_data request) n
