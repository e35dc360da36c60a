-- ===== src/Request/DataOut/Bounds.antt =====
-- request/data_out.c: where the data of one PDU go.
use iscsi.Prelude.{ℕ, ◌+◌, ◌≤◌, ◌<◌, ◌≡◌, ◌≢◌, ◌⊎◌, refl, ◌∙◌, arith, true, false, ltb, ◌==◌}
use iscsi.Prelude.Word.{add}
use iscsi.Prelude.Memory.{Memory}
use iscsi.Prelude.Outcome.{ok, fault, out_of_bounds}
use iscsi.Pdu.{
  default_target_transfer_tag, iscsi_pdu_data_segment_length, iscsi_pdu_target_transfer_tag,
}
use iscsi.State.{System, Process}
use iscsi.Session.{iscsi_session_get_transfer_entry, iscsi_transfer_entry_size}
use iscsi.Request.DataOut.{
  iscsi_request_data_out_process, data_out_found, data_out_entry,
  iscsi_request_data_out_buffer_offset,
}
use iscsi.Request.DataOut.Collect.{with_data, more-eq}

-- The PDU has the tag of the transfer.
abbrev pub Names : Memory → Process → Type 0
Names request p =
    (iscsi_pdu_target_transfer_tag request ≢ default_target_transfer_tag)
    × (p.session.transfer_entry.transfer_tag ≡ iscsi_pdu_target_transfer_tag request)

abbrev pub NamesNone : Memory → Process → Type 0
NamesNone request p =
    (iscsi_pdu_target_transfer_tag request ≡ default_target_transfer_tag)
    ⊎ (p.session.transfer_entry.transfer_tag ≢ iscsi_pdu_target_transfer_tag request)

module _ (system : System) (request : Memory) (p : Process) where
  abbrev offset : ℕ
  offset = iscsi_request_data_out_buffer_offset request

  abbrev size : ℕ
  size = iscsi_pdu_data_segment_length request

  none-eq : NamesNone request p → iscsi_request_data_out_process system request p ≡ ok (0, p)
  unfolding iscsi_request_data_out_process data_out_entry iscsi_session_get_transfer_entry
  none-eq none = ground arith

  named-eq :
      Names request p
      → iscsi_request_data_out_process system request p
        ≡ data_out_found system request p.session.transfer_entry p
  unfolding iscsi_request_data_out_process data_out_entry iscsi_session_get_transfer_entry
  named-eq named = ground arith

  beyond-eq :
      iscsi_transfer_entry_size < offset + size
      → data_out_found system request p.session.transfer_entry p ≡ fault out_of_bounds
  unfolding data_out_found
  beyond-eq beyond =
      let past : ltb iscsi_transfer_entry_size (offset + size) ≡ true = ground arith in rw past refl

  within-eq :
      p.session.transfer_entry.r2t_sn ≡ 0
      → p.session.transfer_entry.total_r2t_sn ≡ 0
      → offset + size ≤ iscsi_transfer_entry_size
      → offset + size ≢ p.session.transfer_entry.total_length
      → data_out_found system request p.session.transfer_entry p
        ≡ ok (0, with_data p offset request size)
  unfolding data_out_found
  within-eq none_sent none_left within short =
      let after = with_data p offset request size in
      let keeps = more-eq request after.session.transfer_entry after none_sent none_left in
      let room : ltb iscsi_transfer_entry_size (offset + size) ≡ false = ground arith in
      let ends : (add offset size == p.session.transfer_entry.total_length) ≡ false =
        ground arith in
      rw (room, ends) (ground arith)

-- What `iscsi_request_data_out_process` does with data that are not the last of their transfer,
-- while no R2T is counted: data whose tag is the default one, or not that of the transfer, are
-- dropped with the status 0, and nothing changes; those with the tag of the transfer go to their
-- offset, with the status 0, and nothing else changes, if they end within the 2 ^ 22 bytes of its
-- array; and if they end beyond it, whatever the length of the transfer, the call writes out of
-- bounds.
pub data_out_bounds :
    (system : System) (request : Memory) (p : Process)
    → p.session.transfer_entry.r2t_sn ≡ 0
    → p.session.transfer_entry.total_r2t_sn ≡ 0
    → let offset = iscsi_request_data_out_buffer_offset request in
      let size = iscsi_pdu_data_segment_length request in
      offset + size ≢ p.session.transfer_entry.total_length
      → (NamesNone request p → iscsi_request_data_out_process system request p ≡ ok (0, p))
        × (Names request p
            → offset + size ≤ iscsi_transfer_entry_size
            → iscsi_request_data_out_process system request p
              ≡ ok (0, with_data p offset request size))
        × (Names request p
            → iscsi_transfer_entry_size < offset + size
            → iscsi_request_data_out_process system request p ≡ fault out_of_bounds)
data_out_bounds system request p none_sent none_left short = (
  λ none. none-eq system request p none,
  λ named within.
      named-eq system request p named ∙ within-eq system request p none_sent none_left within short,
  λ named beyond. named-eq system request p named ∙ beyond-eq system request p beyond,
)
