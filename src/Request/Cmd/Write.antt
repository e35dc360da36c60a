-- ===== src/Request/Cmd/Write.antt =====
-- request/cmd.c: a write command whose data has not all come with it.
use iscsi.Prelude.{
  ℕ, ◌+◌, ◌-◌, ◌*◌, ◌^◌, ◌≤◌, ◌<◌, ◌≡◌, ◌≢◌, ◌⊎◌, inl, inr, refl, ◌∙◌, arith, List, ◌++◌, true,
}
use iscsi.Prelude.Word.{IsInt, add, sub}
use iscsi.Prelude.Memory.{Memory, AreBytes}
use iscsi.Prelude.Outcome.{ok}
use iscsi.Byte.{iscsi_byte_byte2int}
use iscsi.Buffer.{iscsi_buffer_size}
use iscsi.Buffer.Contents.{contents, IsIdle}
use iscsi.Utility.{divide_round_up}
use iscsi.Pdu.{iscsi_pdu_data_segment_length, iscsi_pdu_initiator_task_tag}
use iscsi.State.{Connection, System, Process, iscsi_connection_advance_expected_cmd_sn}
use iscsi.Session.{iscsi_session_next_transfer_tag, iscsi_transfer_entry_create}
use iscsi.Response.Laws.{HasInts}
use iscsi.Request.Cmd.{
  iscsi_request_cmd_write, iscsi_request_cmd_exp_data_transfer, iscsi_request_cmd_cdb, r2t_loop,
  cmd_ask, iscsi_request_cmd_process, first_data_pdu_length,
}
use iscsi.Request.Cmd.Asked.{Asked, Asks, r2t_loop-Asked}
use iscsi.Request.Cmd.Rounds.{at_once, segments, divide-eq, rounds_lem}

-- A command of bytes that writes, and of whose data a part is still to come.
pub record IsWrite (request : Memory) : Type 0 where
  pub are : AreBytes request
  pub writes : iscsi_request_cmd_write request ≢ 0
  pub part : iscsi_pdu_data_segment_length request < iscsi_request_cmd_exp_data_transfer request

-- The connection that can ask for the data: each R2T is awaited before data is sent, the largest
-- segment is positive, the numbers are natural, and the response buffer is at rest with room.
pub record CanAsk (total : ℕ) (c : Connection) : Type 0 where
  pub in_turn : c.parameter.initial_r2t ≡ true
  pub positive : 0 < c.parameter.max_receive_data_segment_length
  pub small : total + c.parameter.max_receive_data_segment_length < 2 ^ 31
  pub natural : c.parameter.max_outstanding_r2t < 2 ^ 31
  pub number : IsInt c.stat_sn
  pub idle : IsIdle c.response_buffer
  pub room : c.response_buffer.length + 48 * c.parameter.max_outstanding_r2t ≤ iscsi_buffer_size

-- The data is asked for, from behind what came with the command: as many R2Ts as may be
-- outstanding, or enough for all of it. The transfer has the command and its length, and the device
-- is not asked.
pub record AsksFor (request : Memory) (p q : Process) : Type 0 where
  pub rounds : ℕ
  pub few : rounds ≤ p.connection.parameter.max_outstanding_r2t
  pub asked : List ℕ
  pub numbers : HasInts q.connection
  pub idle : IsIdle q.connection.response_buffer
  pub holds : contents q.connection.response_buffer ≡ contents p.connection.response_buffer ++ asked
  pub all :
      Asked
        (iscsi_pdu_initiator_task_tag request)
        (add p.session.transfer_tag 1)
        (iscsi_request_cmd_exp_data_transfer request)
        p.connection.parameter.max_receive_data_segment_length
        rounds
        0
        (iscsi_pdu_data_segment_length request)
        asked
  pub enough :
      (rounds ≡ p.connection.parameter.max_outstanding_r2t)
      ⊎ (iscsi_request_cmd_exp_data_transfer request
          ≤ iscsi_pdu_data_segment_length request
            + p.connection.parameter.max_receive_data_segment_length * rounds)
  pub transfer : q.session ≡ record p.session {
    transfer_tag = add p.session.transfer_tag 1;
    transfer_entry =
        iscsi_transfer_entry_create p.session.transfer_entry
          (iscsi_request_cmd_cdb request)
          (iscsi_request_cmd_exp_data_transfer request)
          (add p.session.transfer_tag 1);
  }
  pub device : q.target ≡ p.target

-- The process when the command is taken in.
abbrev pub counted : Process → Process
counted p = record p {
  connection = iscsi_connection_advance_expected_cmd_sn p.connection;
  session = iscsi_session_next_transfer_tag p.session;
}

takes-ask :
    (system : System) (request : Memory) (p : Process)
    → IsWrite request
    → iscsi_request_cmd_exp_data_transfer request < 2 ^ 31
    → iscsi_request_cmd_process system request p
      ≡ cmd_ask request (iscsi_session_next_transfer_tag p.session).transfer_tag (counted p)
unfolding iscsi_request_cmd_process
takes-ask system request p h short = let writes = h.writes in let part = h.part in ground arith

-- The branch, when the loop returns.
ask-eq :
    (request : Memory) (tag count : ℕ) (p : Process) (after : Connection)
    → let c = p.connection in
      let n = iscsi_pdu_data_segment_length request in
      let total = iscsi_request_cmd_exp_data_transfer request in
      let largest = c.parameter.max_receive_data_segment_length in
      c.parameter.initial_r2t ≡ true
      → n < total
      → total < 2 ^ 31
      → divide_round_up (total - n) largest ≡ ok count
      → r2t_loop
          (at_once c.parameter.max_outstanding_r2t count)
          0
          (iscsi_pdu_initiator_task_tag request)
          tag
          largest
          total
          n
          c
        ≡ ok after
      → cmd_ask request tag p
        ≡ ok (
          0,
          record p {
            connection = after;
            session = record p.session {
              transfer_entry =
                  iscsi_transfer_entry_create p.session.transfer_entry
                    (iscsi_request_cmd_cdb request)
                    total
                    tag;
            };
          },
        )
unfolding cmd_ask first_data_pdu_length
ask-eq request tag count p after in_turn part short divides runs =
    let n = iscsi_pdu_data_segment_length request in
    let total = iscsi_request_cmd_exp_data_transfer request in
    let left : sub (sub total n) 0 ≡ total - n = omega arith in
    let start : add n 0 ≡ n = omega arith in simp (in_turn, left, divides, start, runs) refl

pub task_tag-IsInt :
    (request : Memory) → AreBytes request → IsInt (iscsi_pdu_initiator_task_tag request)
unfolding iscsi_pdu_initiator_task_tag iscsi_byte_byte2int
task_tag-IsInt request are = omega (arith, are 16, are 17, are 18, are 19)

counted-CanAsk :
    (total : ℕ) (p : Process) → CanAsk total p.connection → CanAsk total (counted p).connection
unfolding iscsi_connection_advance_expected_cmd_sn
counted-CanAsk total p can = record {
  in_turn = can.in_turn;
  positive = can.positive;
  small = can.small;
  natural = can.natural;
  number = can.number;
  idle = can.idle;
  room = can.room;
}

-- The loop of the branch.
loop-Asks :
    (request : Memory) (tag : ℕ) (c : Connection)
    → let n = iscsi_pdu_data_segment_length request in
      let total = iscsi_request_cmd_exp_data_transfer request in
      let largest = c.parameter.max_receive_data_segment_length in
      let rounds = at_once c.parameter.max_outstanding_r2t (segments (total - n) largest) in
      AreBytes request
      → n < total
      → CanAsk total c
      → IsInt c.expected_cmd_sn
      → IsInt tag
      → (rounds ≤ c.parameter.max_outstanding_r2t)
        × ((rounds ≡ c.parameter.max_outstanding_r2t) ⊎ (total ≤ n + largest * rounds))
        × Asks (iscsi_pdu_initiator_task_tag request) tag total largest rounds 0 n c
loop-Asks request tag c are part can number tag_int =
    let n = iscsi_pdu_data_segment_length request in
    let total = iscsi_request_cmd_exp_data_transfer request in
    let largest = c.parameter.max_receive_data_segment_length in
    let small = can.small in
    let room = can.room in
    let (few, fits, enough) =
      rounds_lem c.parameter.max_outstanding_r2t (total - n) largest can.natural can.positive
        (omega arith) in
    let natural = can.natural in
    (
      few,
      elim enough [ inl all ↦ inl all | inr covers ↦ inr (omega arith) ],
      r2t_loop-Asked (iscsi_pdu_initiator_task_tag request) tag total largest can.positive
          (omega arith) (omega arith) (task_tag-IsInt request are) tag_int _ 0 n c (omega arith)
          (omega arith) (can.number, number) can.idle (omega arith),
    )

-- A write command of bytes of whose data a part is still to come, on a connection that can ask for
-- it (`CanAsk`: InitialR2T is Yes, the largest segment is positive and with the expected length
-- below 2 ^ 31, and the response buffer is at rest with room for as many R2Ts as may be
-- outstanding): `iscsi_request_cmd_process` returns the status 0; behind the bytes that waited are
-- R2Ts, no more than may be outstanding, numbered from 0 up, which ask for the data from behind
-- what came with the command on, without gap or overlap, each for the largest segment or up to the
-- end; they are as many as may be outstanding, or ask for all data; the buffer is at rest; the
-- transfer has the command block, the length and the next tag; and the device is given no command.
pub cmd-AsksFor :
    (system : System) (request : Memory) (p : Process)
    → IsWrite request
    → CanAsk (iscsi_request_cmd_exp_data_transfer request) p.connection
    → (q : Process) × (iscsi_request_cmd_process system request p ≡ ok (0, q)) × AsksFor request p q
unfolding iscsi_session_next_transfer_tag iscsi_connection_advance_expected_cmd_sn Asks
cmd-AsksFor system request p write can =
    let total = iscsi_request_cmd_exp_data_transfer request in
    let n = iscsi_pdu_data_segment_length request in
    let tag = add p.session.transfer_tag 1 in
    let c = (counted p).connection in
    let largest = c.parameter.max_receive_data_segment_length in
    let count = segments (total - n) largest in
    let part = write.part in
    let small = can.small in
    let (few, enough, (after, asked, runs, numbers, idle, holds, all)) =
      loop-Asks request tag c write.are part (counted-CanAsk total p can) (omega arith)
        (omega arith) in
    (
      _,
      takes-ask system request p write (omega arith)
          ∙ ask-eq request tag count (counted p) after can.in_turn part (omega arith)
              (divide-eq (total - n) largest can.positive (omega arith)) runs,
      record {
        rounds = _;
        few = few;
        asked = asked;
        numbers = numbers;
        idle = idle;
        holds = holds;
        all = all;
        enough = enough;
        transfer = refl;
        device = refl;
      },
    )
