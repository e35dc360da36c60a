-- ===== src/Tests/Logins.antt =====
-- A login at a concrete request.
use iscsi.Prelude.{ℕ, ◌≡◌, ◌≢◌, refl, arith, [], ◌∷◌, ◌++◌, ◌-◌, List}
use iscsi.Prelude.Word.{add}
use iscsi.Prelude.Memory.{Memory, AreBytes, c_string, memcpy}
use iscsi.Prelude.Outcome.{ok}
use iscsi.Pdu.{iscsi_pdu_data, iscsi_pdu_data_segment_length}
use iscsi.State.{Parameter, Process, null, static}
use iscsi.Parameter.Keys.{set_default_parameter}
use iscsi.Parameter.Update.{
  iscsi_connection_parameter_create, create_loop, update_information, set_number, set_boolean,
}
use iscsi.Response.Laws.{Answers, answered}
use iscsi.Prelude.Text.{codes}
use iscsi.Parameter.Keys.{key_equal}
use iscsi.Parameter.Lookup.{iscsi_connection_parameter_get, get_loop}
use iscsi.Request.Login.Refused.{IsTargetless, RefusedPdu, attached, created, targetless-Answers}
use iscsi.Request.Login.{partial_write, status_write, iscsi_request_login_process}
use iscsi.Request.Login.Setup.{
  iscsi_pdu_login_continue, iscsi_pdu_login_tsih, initiator_error, string_equal,
}
use iscsi.Request.Login.Partial.{PartialPdu, partial-Answers}
use iscsi.Tests.Samples.{connection, process, system, parameters, c_string-AreBytes, empty-IsIdle}

-- A login PDU with the continue bit and no data.
abbrev first_codes : List ℕ
first_codes = 0x43 ∷ 0x40 ∷ []

abbrev first : Memory
first = c_string first_codes

abbrev read_parameters : Parameter
read_parameters =
    set_default_parameter (record parameters {
      buffer = memcpy parameters.buffer 0 (iscsi_pdu_data first) 0;
      length = 0;
    })

goes_on : iscsi_pdu_login_continue first ≢ 0
unfolding iscsi_pdu_login_continue
goes_on = omega arith

nothing_read :
    iscsi_connection_parameter_create parameters
      (iscsi_pdu_data first)
      (iscsi_pdu_data_segment_length first)
    ≡ ok read_parameters
unfolding iscsi_connection_parameter_create create_loop iscsi_pdu_data_segment_length
nothing_read = refl

partial-Answers_example :
    let c = record connection { parameter = read_parameters } in
    let after = answered c 48 (partial_write first) in
    (iscsi_request_login_process system first process
      ≡ ok (48, record process { connection = after }))
    × Answers c after 48 (PartialPdu first c)
    × (after.stat_sn ≡ add c.stat_sn 1)
partial-Answers_example =
    partial-Answers system first process read_parameters
      (c_string-AreBytes first_codes (omega arith)) goes_on nothing_read (omega arith) empty-IsIdle
      (omega arith)

-- A last login PDU with a text that names an initiator and a normal session, and no target.
abbrev login_text : List ℕ
login_text = codes "InitiatorName=a" ++ (0 ∷ (codes "SessionType=Normal" ++ (0 ∷ [])))

abbrev login_codes : List ℕ
login_codes = 0x43 ∷ 0x87 ∷ 0 ∷ 0 ∷ 0 ∷ 0 ∷ 0 ∷ 35 ∷ []

abbrev targetless : Memory
targetless = memcpy (c_string login_codes) 48 (c_string login_text) 35

targetless-AreBytes : AreBytes targetless
targetless-AreBytes i =
    let header = c_string-AreBytes login_codes (omega arith) i in
    let text = c_string-AreBytes login_text (omega arith) (i - 48) in ground arith

abbrev named_parameters : Parameter
named_parameters = set_default_parameter (record parameters {
  buffer = memcpy parameters.buffer 0 (iscsi_pdu_data targetless) 35;
  length = 35;
})

abbrev fresh : Process
fresh = record process { connection = record connection { session_reference = null } }

fresh-IsTargetless : IsTargetless system targetless fresh named_parameters
unfolding iscsi_pdu_login_continue iscsi_pdu_login_tsih iscsi_connection_parameter_create
    create_loop update_information set_number set_boolean key_equal iscsi_pdu_data_segment_length
    iscsi_connection_parameter_get get_loop string_equal set_default_parameter
fresh-IsTargetless = record {
  last = refl;
  new = refl;
  without = refl;
  reads = refl;
  initiator = 14;
  names = refl;
  place = 28;
  typed = refl;
  normal = refl;
  no_target = refl;
  fd = 5;
  opens = refl;
}

targetless-Answers_example :
    let c = attached targetless fresh.connection named_parameters in
    let after = answered c 48 (status_write targetless initiator_error) in
    (iscsi_request_login_process system targetless fresh
      ≡ ok (48, created targetless fresh after fresh-IsTargetless.fd))
    × Answers c after 48 (RefusedPdu targetless)
    × (after.stat_sn ≡ fresh.connection.stat_sn)
    × (after.session_reference ≡ static)
targetless-Answers_example =
    targetless-Answers system targetless fresh named_parameters fresh-IsTargetless
      targetless-AreBytes empty-IsIdle (omega arith)
