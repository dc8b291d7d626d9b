-- ===== src/OperationalSend.antt =====
-- A test message that an operator sends from one account: multi-messaging-platform/core_engine/
-- services/operational_send.py. An answer is what is to be done: the call of the delivery or the push
-- to a queue. The two answers of the send guard and the readiness of the session are arguments; the
-- audit row of a blocked send, the texts of checks and errors and the metadata are left out.
pub mod Gating
use Prim.Native.String.{◌++◌}
use senderplatformtest.Prelude.{
  ℕ, Bool, true, false, not, ◌&&◌, ◌||◌, Option, none, some, List, [], ◌∷◌, String, if◌then◌else◌,
  str_eq, Result, ok, raise,
}
use senderplatformtest.Prelude.Text.{codes, strip, lower, text_eq}
use senderplatformtest.Platform.{
  PlatformType, AccountStatus, whatsapp, telegram, rubika, bale, banned, platform_eq,
  platform_value,
}
use senderplatformtest.Validation.{or_text, strip_string, str}
use senderplatformtest.Payloads.{WorkerSettings}

-- What is read of the application's settings.
pub record OpsSettings : Type 0 where
  pub ops_live_send_api_enabled : Bool
  pub real_message_sending_enabled : Bool
  pub channel_connectors_enabled : Bool
  pub dry_run : Bool
  pub shadow_mode : Bool
  pub whatsapp_delivery_mode : String
  pub whatsapp_ops_send_via_worker_queue : Bool

pub record OpsAccount : Type 0 where
  pub id : ℕ
  pub platform : PlatformType
  pub status : AccountStatus
  pub phone_number : Option String

-- The gates that a check or a refusal names.
pub data Gate : Type 0 where
  ops_live_send_api_enabled real_message_sending_enabled channel_connectors_enabled : Gate
  dry_run_disabled account_not_banned whatsapp_send_allowed session_ready : Gate

pub record LiveSendPreflightCheck : Type 0 where
  pub key : Gate
  pub passed : Bool

pub data OperationalSendError : Type 0 where
  recipient_missing phone_missing confirmation_missing send_blocked : OperationalSendError
  gate_closed : Gate → OperationalSendError
  preflight_failed : List LiveSendPreflightCheck → OperationalSendError

pub data RecipientType : Type 0 where
  channel_handle phone_number : RecipientType

pub record TestPayload : Type 0 where
  pub message_id : String
  pub campaign_id : String
  pub contact_id : String
  pub account_id : ℕ
  pub platform : String
  pub recipient : String
  pub recipient_type : RecipientType
  pub message_text : String
  pub dedupe_key : String
  pub attempt : ℕ

abbrev pub default_test_message : String
default_test_message =
    "\u{67e}\u{6cc}\u{627}\u{645} \u{62a}\u{633}\u{62a} \u{639}\u{645}\u{644}\u{6cc}\u{627}\u{62a}\u{6cc} — Sender Platform (Phase 9)"

-- The text that is given, or the account's number.
unfoldable pub chosen_recipient : OpsAccount → Option String → String
chosen_recipient account recipient =
    or_text (some (strip_string (or_text recipient "")))
      (strip_string (or_text account.phone_number ""))

-- `_resolve_recipient`; every platform is one of bots or WhatsApp.
unfoldable pub resolve_recipient :
    OpsAccount → Option String → Result OperationalSendError (String × RecipientType)
unfolding chosen_recipient
resolve_recipient account recipient =
    let chosen = chosen_recipient account recipient in
    if platform_eq account.platform whatsapp
    then (if str_eq chosen "" then raise phone_missing else ok (chosen, phone_number))
    else if str_eq chosen ""
    then raise recipient_missing
    else ok (chosen, channel_handle)

-- `test_id` is the random part of the ids.
unfoldable pub build_test_worker_payload :
    OpsAccount → String → String → Option String → Result OperationalSendError TestPayload
unfolding resolve_recipient
build_test_worker_payload account test_id message_text recipient =
    elim (resolve_recipient account recipient) [
      | raise e ↦ raise e
      | ok (value, kind) ↦ ok (record {
        message_id = "ops-test-" ++ test_id;
        campaign_id = "ops-test-" ++ str account.id;
        contact_id = "ops-test-" ++ test_id;
        account_id = account.id;
        platform = platform_value account.platform;
        recipient = value;
        recipient_type = kind;
        message_text = or_text (some (strip_string message_text)) default_test_message;
        dedupe_key = "ops-test-" ++ str account.id ++ "-" ++ test_id;
        attempt = 1;
      })
    ]

abbrev check : Gate → Bool → LiveSendPreflightCheck
check key passed = record { key = key; passed = passed }

unfoldable pub global_live_env_checks :
    OpsSettings → List LiveSendPreflightCheck → List LiveSendPreflightCheck
global_live_env_checks settings more =
    check ops_live_send_api_enabled settings.ops_live_send_api_enabled
    ∷ check real_message_sending_enabled settings.real_message_sending_enabled
    ∷ check channel_connectors_enabled settings.channel_connectors_enabled
    ∷ check dry_run_disabled (not settings.dry_run)
    ∷ more

abbrev pub is_banned : AccountStatus → Bool
is_banned banned = true
is_banned _ = false

-- The answers of `whatsapp_send_allowed_sync`, `evaluate_account_session_readiness` and
-- `assert_whatsapp_send_allowed`.
pub record Answers : Type 0 where
  pub send_allowed : Bool
  pub session_ready : Bool
  pub not_blocked : Bool

unfoldable pub preflight_checks : OpsSettings → OpsAccount → Answers → List LiveSendPreflightCheck
unfolding global_live_env_checks
preflight_checks settings account answers =
    let last = check session_ready answers.session_ready ∷ [] in
    global_live_env_checks settings (
      check account_not_banned (not (is_banned account.status))
      ∷ (if platform_eq account.platform whatsapp
          then check whatsapp_send_allowed answers.send_allowed ∷ last
          else last))

unfoldable pub all_passed : List LiveSendPreflightCheck → Bool
all_passed [] = true
all_passed (c ∷ checks) = c.passed && all_passed checks

unfoldable pub failed_checks : List LiveSendPreflightCheck → List LiveSendPreflightCheck
failed_checks [] = []
failed_checks (c ∷ checks) = if c.passed then failed_checks checks else c ∷ failed_checks checks

-- `ready_for_live_send` and the checks
unfoldable pub build_live_send_preflight :
    OpsSettings → OpsAccount → Answers → Bool × List LiveSendPreflightCheck
unfolding preflight_checks all_passed
build_live_send_preflight settings account answers =
    let checks = preflight_checks settings account answers in (all_passed checks, checks)

-- `base` is WorkerSettings() of the environment.
unfoldable pub build_operational_worker_settings :
    OpsSettings → WorkerSettings → Bool → Bool → Result OperationalSendError WorkerSettings
build_operational_worker_settings settings base dry_run confirm_live_send =
    if dry_run
    then ok (record base {
      dry_run = true;
      shadow_mode = false;
      real_message_sending_enabled = false;
      channel_connectors_enabled = false;
    })
    else if not confirm_live_send
    then raise confirmation_missing
    else if not settings.ops_live_send_api_enabled
    then raise (gate_closed ops_live_send_api_enabled)
    else if not settings.real_message_sending_enabled
    then raise (gate_closed real_message_sending_enabled)
    else if not settings.channel_connectors_enabled
    then raise (gate_closed channel_connectors_enabled)
    else if settings.dry_run
    then raise (gate_closed dry_run_disabled)
    else ok (record base {
      dry_run = false;
      shadow_mode = settings.shadow_mode;
      real_message_sending_enabled = true;
      channel_connectors_enabled = true;
      whatsapp_delivery_mode = settings.whatsapp_delivery_mode;
    })

-- What is to be done with the payload.
pub data Action : Type 0 where
  deliver : TestPayload → WorkerSettings → Action
  push_to_worker_queue : TestPayload → Action
  enqueue_baileys : TestPayload → Action

is_delivery_mode : String → OpsSettings → Bool
is_delivery_mode mode settings =
    text_eq (lower (strip (codes settings.whatsapp_delivery_mode))) (codes mode)

unfoldable pub goes_to_queue : OpsSettings → OpsAccount → Bool → Bool
unfolding is_delivery_mode
goes_to_queue settings account dry_run =
    not dry_run
    && (platform_eq account.platform whatsapp
        && ((is_delivery_mode "web" settings && settings.whatsapp_ops_send_via_worker_queue)
            || is_delivery_mode "baileys" settings))

unfoldable pub route_test_message :
    OpsSettings
    → OpsAccount
    → Answers
    → Bool
    → TestPayload
    → WorkerSettings
    → Result OperationalSendError Action
unfolding goes_to_queue is_delivery_mode
route_test_message settings account answers dry_run payload worker_settings =
    if goes_to_queue settings account dry_run
    then (if not answers.not_blocked
        then raise send_blocked
        else if is_delivery_mode "baileys" settings
        then ok (enqueue_baileys payload)
        else ok (push_to_worker_queue payload))
    else ok (deliver payload worker_settings)
