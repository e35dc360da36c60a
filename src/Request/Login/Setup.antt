-- ===== src/Request/Login/Setup.antt =====
-- request/login.c and request/login.h: the fields of a login request, and setting a session up.
use iscsi.Prelude.{
  ℕ, ◌+◌, ◌*◌, ◌/◌, ◌%◌, ◌^◌, Bool, true, false, ◌==◌, none, some, List, [], ◌∷◌, if◌then◌else◌,
}
use iscsi.Prelude.Memory.{Memory, from}
use iscsi.Prelude.Text.{codes}
use iscsi.Prelude.Outcome.{Outcome, ok, fault, null_pointer, ◌>>=◌}
use iscsi.State.{static, Session, System, Process, iscsi_session_full}
use iscsi.Parameter.Lookup.{iscsi_connection_parameter_get}
use iscsi.Session.{iscsi_session_create, iscsi_session_add_connection}

unfoldable pub iscsi_pdu_login_transit : Memory → ℕ
iscsi_pdu_login_transit buffer = buffer 1 / 2 ^ 7

unfoldable pub iscsi_pdu_login_continue : Memory → ℕ
iscsi_pdu_login_continue buffer = buffer 1 / 2 ^ 6 % 2

unfoldable pub iscsi_pdu_login_csg : Memory → ℕ
iscsi_pdu_login_csg buffer = buffer 1 / 2 ^ 2 % 4

unfoldable pub iscsi_pdu_login_nsg : Memory → ℕ
iscsi_pdu_login_nsg buffer = buffer 1 % 4

unfoldable pub iscsi_pdu_login_tsih : Memory → ℕ
iscsi_pdu_login_tsih buffer = buffer 14 * 2 ^ 8 + buffer 15

unfoldable pub iscsi_pdu_login_cid : Memory → ℕ
iscsi_pdu_login_cid buffer = buffer 20 * 2 ^ 8 + buffer 21

unfoldable pub iscsi_pdu_login_exp_cmd_sn : Memory → ℕ
iscsi_pdu_login_exp_cmd_sn buffer =
    buffer 28 * 2 ^ 24 + buffer 29 * 2 ^ 16 + buffer 30 * 2 ^ 8 + buffer 31

-- `enum LOGIN_STATUS`, the statuses that the program gives.
abbrev pub success : ℕ
success = 0x0000

abbrev pub initiator_error : ℕ
initiator_error = 0x0200

abbrev pub too_many_connection : ℕ
too_many_connection = 0x0206

-- `enum LOGIN_STATE`
abbrev pub security_negotiation : ℕ
security_negotiation = 0

abbrev pub login_operational : ℕ
login_operational = 1

abbrev pub full_feature : ℕ
full_feature = 3

-- `strcmp(s, text) == 0`
unfoldable pub string_equal : Memory → List ℕ → Bool
string_equal s [] = s 0 == 0
string_equal s (c ∷ text) = if s 0 == c then string_equal (from s 1) text else false

-- The default target is never NULL, so NOT_FOUND is never given.
unfoldable pub setup_normal_session : Session → ℕ × Session
setup_normal_session s = (success, record s { is_discovery = false; target = static })

-- Behind the setting up of the session: discovery or normal. `strcmp` is given the place of the
-- SessionType without a test for NULL.
unfoldable pub choose_session : Process → Outcome (ℕ × Process)
unfolding setup_normal_session
choose_session p =
    let parameter = p.connection.parameter in
    elim (iscsi_connection_parameter_get parameter (codes "SessionType")) [
      | none ↦ fault null_pointer
      | some place ↦
          if string_equal (from parameter.buffer place) (codes "Discovery")
          then ok (success, record p { session = record p.session { is_discovery = true } })
          else (elim (iscsi_connection_parameter_get parameter (codes "TargetName")) [
            | none ↦ ok (initiator_error, p)
            | some _ ↦
                let (status, session) = setup_normal_session p.session in
                ok (status, record p { session = session })
          ])
    ]

-- With a TSIH the static session is joined, if it has room.
unfoldable pub join_session : Memory → Process → ℕ × Process
join_session request p = if iscsi_session_full p.session then (too_many_connection, p) else (
  success,
  record p {
    connection = record (iscsi_session_add_connection p.connection) {
      connection_id = iscsi_pdu_login_cid request;
    };
  },
)

module _ (system : System) where
  -- With TSIH 0 the static session is created anew, and the connection refers to it.
  unfoldable pub new_session : Memory → Process → Outcome (ℕ × Process)
  unfolding choose_session
  new_session request p = do
    p ← iscsi_session_create system p
    choose_session (record p {
      connection = record p.connection {
        session_reference = static;
        connection_id = iscsi_pdu_login_cid request;
      };
      session = record p.session { exp_cmd_sn = iscsi_pdu_login_exp_cmd_sn request };
    })

  unfoldable pub setup_session : Memory → Process → Outcome (ℕ × Process)
  unfolding new_session join_session
  setup_session request p =
      elim (iscsi_connection_parameter_get p.connection.parameter (codes "InitiatorName")) [
        | none ↦ ok (initiator_error, p)
        | some _ ↦
            if iscsi_pdu_login_tsih request == 0
            then new_session request p
            else ok (join_session request p)
      ]
