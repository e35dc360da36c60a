-- ===== src/Request/Extends.antt =====
-- request/*.c: every handler on the connection alone puts its answers behind those that wait.
use iscsi.Prelude.{◌≡◌, false, ℕ, zero, suc, refl, arith, ◌==◌, if◌then◌else◌}
use iscsi.Prelude.Memory.{Memory}
use iscsi.Prelude.Word.{add, sub}
use iscsi.Prelude.Outcome.{Outcome, ok, fault, Always, Always-bind, ◌>>=◌}
use iscsi.Buffer.Contents.{contents, IsIdle}
use iscsi.Pdu.{iscsi_pdu_data_segment_length, iscsi_pdu_padded_length}
use iscsi.State.{Connection, Target}
use iscsi.Utility.{min, divide_round_up}
use iscsi.Response.{Writer, respond}
use iscsi.Request.Text.Answer.{targets_size}
use iscsi.Response.Extends.{Extends, KeepsBuffers, Extends-start, Extends-then, respond-Extends}
use iscsi.Request.R2t.{r2t_write, iscsi_request_r2t_send}
use iscsi.Request.Reject.{iscsi_request_reject}
use iscsi.Request.Reject
use iscsi.Request.Logout.{logout_write, iscsi_request_logout_process}
use iscsi.Request.Nop.{
  nop_write, pad_from, pads_in_front, pad_waiting, iscsi_request_nop_out_process,
}
use iscsi.Request.Text.{continue_write, targets_write, iscsi_request_text_process}
use iscsi.Request.DataIn.{data_in_write, data_in_round, data_in_loop, iscsi_request_data_in_send}
use iscsi.Request.Cmd.{response_write, iscsi_request_cmd_send_response, r2t_loop}

-- The answer to a NOP-Out is not padded in front of the pointer: its data segment is not longer than
-- the largest one, or so much longer that the padding is empty.
abbrev pub NopPadsBehind : Memory → Connection → Type 0
NopPadsBehind request c =
    pads_in_front (
      pad_from request
        (min c.parameter.max_receive_data_segment_length (iscsi_pdu_data_segment_length request)))
    ≡ false

-- What a call that starts from `c` returns has put its answers behind those that wait there.
abbrev pub Sends : Connection → Outcome Connection → Type 0
Sends c m = Always (Extends (contents c.response_buffer) c.receive_buffer) m

-- The same of a call with a status.
abbrev pub SendsStatus : Connection → Outcome (ℕ × Connection) → Type 0
SendsStatus c m = Always (λ r. Extends (contents c.response_buffer) c.receive_buffer r.1) m

pub Sends-then :
    (c : Connection) (m : Outcome Connection) (f : Connection → Outcome Connection)
    → Sends c m
    → ((d : Connection) → IsIdle d.response_buffer → Sends d (f d))
    → Sends c (m >>= f)
Sends-then c (ok d) f h k = Always-map d (f d) h (k d h.idle)
  where
    Always-map :
        (d : Connection) (m : Outcome Connection)
        → Extends (contents c.response_buffer) c.receive_buffer d
        → Sends d m
        → Sends c m
    Always-map d (ok e) h k = Extends-then h k
    Always-map d Outcome.waits h k = tt
    Always-map d (fault e) h k = tt
Sends-then c Outcome.waits f h k = tt
Sends-then c (fault e) f h k = tt

-- An answer with a status.
respond_status :
    (c : Connection) (n : ℕ) (write : Writer) (status : ℕ)
    → KeepsBuffers write
    → IsIdle c.response_buffer
    → SendsStatus c (respond c n write >>= λ d. ok (status, d))
respond_status c n write status keeps v =
    Always-bind (Extends (contents c.response_buffer) c.receive_buffer)
      (λ r. Extends (contents c.response_buffer) c.receive_buffer r.1) (respond c n write)
      (λ d. ok (status, d)) (respond-Extends c n write keeps v) (λ d h. h)

r2t-KeepsBuffers : (a b d e f : ℕ) → KeepsBuffers (r2t_write a b d e f)
unfolding r2t_write
r2t-KeepsBuffers a b d e f m c = (refl, refl)

reject-KeepsBuffers :
    (reason : ℕ) (source : Memory) (n : ℕ) → KeepsBuffers (Reject.reject_write reason source n)
unfolding Reject.reject_write
reject-KeepsBuffers reason source n m c = (refl, refl)

logout-KeepsBuffers : KeepsBuffers logout_write
unfolding logout_write
logout-KeepsBuffers m c = (refl, refl)

nop-KeepsBuffers : (request : Memory) (n : ℕ) → KeepsBuffers (nop_write request n)
unfolding nop_write
nop-KeepsBuffers request n m c = (refl, refl)

continue-KeepsBuffers : (request : Memory) → KeepsBuffers (continue_write request)
unfolding continue_write
continue-KeepsBuffers request m c = (refl, refl)

targets-KeepsBuffers : (request : Memory) → KeepsBuffers (targets_write request)
unfolding targets_write
targets-KeepsBuffers request m c = (refl, refl)

data_in-KeepsBuffers :
    (tag : ℕ) (source : Memory) (i offset n final : ℕ)
    → KeepsBuffers (data_in_write tag source i offset n final)
unfolding data_in_write
data_in-KeepsBuffers tag source i offset n final m c = (refl, refl)

response-KeepsBuffers :
    (target : Target) (request : Memory) → KeepsBuffers (response_write target request)
unfolding response_write
response-KeepsBuffers target request m c = (refl, refl)

module _ (c : Connection) (v : IsIdle c.response_buffer) where
  pub r2t_send-Sends :
      (tag transfer_tag sn offset desired : ℕ)
      → Sends c (iscsi_request_r2t_send c tag transfer_tag sn offset desired)
  unfolding iscsi_request_r2t_send
  r2t_send-Sends tag transfer_tag sn offset desired =
      respond-Extends c 48 _ (r2t-KeepsBuffers tag transfer_tag sn offset desired) v

  pub reject-Sends :
      (reason : ℕ) (source : Memory) (n : ℕ)
      → SendsStatus c (iscsi_request_reject c reason source n)
  unfolding iscsi_request_reject
  reject-Sends reason source n = respond_status c _ _ 0 (reject-KeepsBuffers reason source n) v

  pub logout-Sends : (request : Memory) → SendsStatus c (iscsi_request_logout_process request c)
  unfolding iscsi_request_logout_process
  logout-Sends request = ground (
    arith,
    respond_status c 48 logout_write 48 logout-KeepsBuffers v,
    reject-Sends Reject.protocol_error request 48,
  )

  pub nop-Sends :
      (request : Memory)
      → NopPadsBehind request c
      → SendsStatus c (iscsi_request_nop_out_process request c)
  unfolding iscsi_request_nop_out_process pad_waiting
  nop-Sends request behind =
      let n =
        min c.parameter.max_receive_data_segment_length (iscsi_pdu_data_segment_length request) in
      let total = add 48 n in
      rw behind (
        ground (
          arith,
          respond_status c total (nop_write request n) total (nop-KeepsBuffers request n) v,
        ))

  pub text-Sends : (request : Memory) → SendsStatus c (iscsi_request_text_process request c)
  unfolding iscsi_request_text_process
  text-Sends request = ground (
    arith,
    respond_status c 48 (continue_write request) 48 (continue-KeepsBuffers request) v,
    respond_status c targets_size (targets_write request) targets_size
        (targets-KeepsBuffers request) v,
    Extends-start c v,
  )

  pub send_response-Sends :
      (target : Target) (request : Memory)
      → Sends c (iscsi_request_cmd_send_response c target request)
  unfolding iscsi_request_cmd_send_response
  send_response-Sends target request =
      respond-Extends c _ _ (response-KeepsBuffers target request) v

  data_in_round-Sends :
      (tag expected largest : ℕ) (source : Memory) (i offset : ℕ)
      → Sends c (data_in_round tag expected largest source i offset c)
  unfolding data_in_round
  data_in_round-Sends tag expected largest source i offset =
      let n = min (sub expected offset) largest in
      let final : ℕ = if add offset n == expected then 1 else 0 in
      let total = iscsi_pdu_padded_length (add 48 n) in
      ground (
        arith,
        respond-Extends c total (data_in_write tag source i offset n final)
            (data_in-KeepsBuffers tag source i offset n final) v,
      )

data_in_loop-Sends :
    (fuel tag expected largest : ℕ) (source : Memory) (i offset : ℕ) (c : Connection)
    → IsIdle c.response_buffer
    → Sends c (data_in_loop fuel tag expected largest source i offset c)
unfolding data_in_loop
data_in_loop-Sends zero tag expected largest source i offset c v = tt
data_in_loop-Sends (suc fuel) tag expected largest source i offset c v =
    let next = add offset (min (sub expected offset) largest) in
    Sends-then c (data_in_round tag expected largest source i offset c) _
      (data_in_round-Sends c v tag expected largest source i offset)
      λ d w. ground (
        arith,
        Extends-start d w,
        data_in_loop-Sends fuel tag expected largest source (add i 1) next d w,
      )

pub r2t_loop-Sends :
    (rounds i tag transfer_tag largest expected offset : ℕ) (c : Connection)
    → IsIdle c.response_buffer
    → Sends c (r2t_loop rounds i tag transfer_tag largest expected offset c)
unfolding r2t_loop
r2t_loop-Sends zero i tag transfer_tag largest expected offset c v = Extends-start c v
r2t_loop-Sends (suc rounds) i tag transfer_tag largest expected offset c v =
    Sends-then c _ _
      (r2t_send-Sends c v tag transfer_tag i offset (min largest (sub expected offset)))
      λ d w.
        r2t_loop-Sends rounds (add i 1) tag transfer_tag largest expected (add offset largest) d w

pub data_in_send-Sends :
    (c : Connection) (tag expected : ℕ) (source : Memory)
    → IsIdle c.response_buffer
    → Sends c (iscsi_request_data_in_send c tag expected source)
unfolding iscsi_request_data_in_send divide_round_up
data_in_send-Sends c tag expected source v =
    let largest = c.parameter.max_receive_data_segment_length in
    ground (arith, data_in_loop-Sends (suc expected) tag expected largest source 0 0 c v)
