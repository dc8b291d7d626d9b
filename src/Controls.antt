-- ===== src/Controls.antt =====
-- The switches of the dashboard: multi-messaging-platform/core_engine/services/control_service.py,
-- whatsapp_send_guard.py, whatsapp_warmup.py and safety_guard.py. `reachable` says whether Redis
-- answers, for the ping and for the command after it; texts of messages are left out.
pub mod Switching
pub mod Delaying
pub mod Guarding
use senderplatformtest.Prelude.{
  ℕ, Bool, true, false, not, ◌&&◌, ◌||◌, Option, none, some, String, ltb, if◌then◌else◌, Result, ok,
  raise, ◌>>=◌,
}
use senderplatformtest.Prelude.Text.{Text, codes, strip, lower, is_empty, text_eq}
use senderplatformtest.Prelude.Int.{ℤ, pos}
use senderplatformtest.Prelude.Decimal.{str, int_text}
use senderplatformtest.Redis.{
  RedisKey, kill_switch_key, whatsapp_send_kill_switch_key, delay_key, other_key, Value, text,
  number, Redis,
}

-- The value of a call whose answer is passed on or has nothing in it.
pub data Done : Type 0 where
  done : Done

-- The errors with their status codes: 503, 500 and 422.
pub data ControlError : Type 0 where
  redis_unavailable : ControlError
  invalid_delay : ControlError
  delay_out_of_range : ControlError

pub data Source : Type 0 where
  from_redis : Source
  redis_or_default : Source

pub record AccountDelay : Type 0 where
  pub account_id : ℕ
  pub delay_seconds : ℤ
  pub source : Source

default_delay_seconds : ℕ
default_delay_seconds = 30

-- The text that GET gives.
unfoldable pub value_text : Value → Text
value_text (text s) = codes s
value_text (number n) = str n

-- `_parse_redis_bool` of control_service.py
unfoldable pub parse_redis_bool : Option Value → Bool
unfolding value_text
parse_redis_bool none = false
parse_redis_bool (some v) = text_eq (lower (strip (value_text v))) (codes "true")

unfoldable pub is_truthy : Text → Bool
is_truthy s =
    text_eq s (codes "1")
    || (text_eq s (codes "true") || (text_eq s (codes "yes") || text_eq s (codes "on")))

-- `_parse_redis_bool` of whatsapp_send_guard.py
unfoldable pub parse_guard_bool : Option Value → Bool
unfolding value_text is_truthy
parse_guard_bool none = false
parse_guard_bool (some v) = is_truthy (lower (strip (value_text v)))

unfoldable pub switch_text : Bool → Value
switch_text enabled = if enabled then text "true" else text "false"

-- `get_account_delay` of what GET gives
unfoldable pub delay_of : ℕ → Option Value → Result ControlError AccountDelay
unfolding value_text default_delay_seconds
delay_of account_id none = ok (record {
  account_id = account_id;
  delay_seconds = pos default_delay_seconds;
  source = redis_or_default;
})
delay_of account_id (some v) =
    if is_empty (strip (value_text v))
    then ok (record {
      account_id = account_id;
      delay_seconds = pos default_delay_seconds;
      source = redis_or_default;
    })
    else elim (int_text (strip (value_text v))) [
      | none ↦ raise invalid_delay
      | some n ↦ ok (record { account_id = account_id; delay_seconds = n; source = from_redis })
    ]

pub record ControlsStatus : Type 0 where
  pub kill_switch_enabled : Bool
  pub redis_available : Bool

-- The environment of the WhatsApp guard: the variable, "" where it is not set, and the setting,
-- none where the settings cannot be read.
pub record GuardEnv : Type 0 where
  pub sending_disabled_variable : String
  pub sending_disabled_setting : Option Bool

pub data BlockedReason : Type 0 where
  disabled_by_environment : BlockedReason
  kill_switch_on : BlockedReason

unfoldable pub whatsapp_sending_disabled_by_env : GuardEnv → Bool
unfolding is_truthy
whatsapp_sending_disabled_by_env env =
    if is_truthy (lower (strip (codes env.sending_disabled_variable)))
    then true
    else elim env.sending_disabled_setting [ none ↦ false | some b ↦ b ]

pub record GuardStatus : Type 0 where
  pub env_disabled : Bool
  pub redis_kill_switch_enabled : Bool
  pub sending_allowed : Bool

-- What the Node service answers to /api/warmup.
pub data WarmupAnswer : Type 0 where
  unreachable : WarmupAnswer
  success : WarmupAnswer
  refused : ℕ → WarmupAnswer
  -- a success whose body is no JSON
  success_without_json : WarmupAnswer
  -- the call raises what is no `httpx.HTTPError`
  other_failure : WarmupAnswer

-- The status code of the HTTPException: 429, 503 or the service's own; other exceptions pass through.
pub data WarmupError : Type 0 where
  already_scheduled : WarmupError
  service_unreachable : WarmupError
  service_refused : ℕ → WarmupError
  passed_through : WarmupError

abbrev pub warmup_lock_key : RedisKey
warmup_lock_key = other_key "whatsapp:warmup_lock"

abbrev pub warmup_lock_ttl_seconds : ℕ
warmup_lock_ttl_seconds = 86400

-- The copy of the switch for the Node service.
abbrev pub node_kill_switch_key : RedisKey
node_kill_switch_key = other_key "whatsapp:kill_switch"

module _ {Item : Type 0} (redis : Redis Item) where
  open redis use {Store, get, set, set_ex, delete}

  unfoldable pub get_kill_switch_status : Bool → Store → Result ControlError Bool
  get_kill_switch_status reachable s =
      if reachable then ok (parse_redis_bool (get kill_switch_key s)) else raise redis_unavailable

  unfoldable pub set_kill_switch : Bool → Bool → Store → Result ControlError Bool × Store
  set_kill_switch reachable enabled s =
      if reachable
      then (ok enabled, set kill_switch_key (switch_text enabled) s)
      else (raise redis_unavailable, s)

  unfoldable pub get_controls_status : Bool → Store → ControlsStatus
  get_controls_status reachable s = elim (get_kill_switch_status reachable s) [
    | raise e ↦ record { kill_switch_enabled = false; redis_available = false }
    | ok enabled ↦ record { kill_switch_enabled = enabled; redis_available = true }
  ]

  unfoldable pub get_kill_switch_enabled_for_snapshot : Bool → Store → Bool
  get_kill_switch_enabled_for_snapshot reachable s = elim (get_kill_switch_status reachable s) [
    | raise e ↦ false
    | ok enabled ↦ enabled
  ]

  unfoldable pub get_account_delay : Bool → ℕ → Store → Result ControlError AccountDelay
  get_account_delay reachable account_id s =
      if reachable
      then delay_of account_id (get (delay_key account_id) s)
      else raise redis_unavailable

  -- The command is SET with no EX. The stored text is str(delay_seconds), which `number` stands for.
  unfoldable pub set_account_delay : Bool → ℕ → ℕ → Store → Result ControlError ℕ × Store
  set_account_delay reachable account_id delay_seconds s =
      if ltb delay_seconds 1 || ltb 3600 delay_seconds
      then (raise delay_out_of_range, s)
      else if reachable
      then (ok delay_seconds, set (delay_key account_id) (number delay_seconds) s)
      else (raise redis_unavailable, s)

  -- `whatsapp_send_kill_switch_enabled`, which is False where Redis does not answer
  unfoldable pub whatsapp_send_kill_switch_enabled : Bool → Store → Bool
  whatsapp_send_kill_switch_enabled reachable s =
      if reachable then parse_guard_bool (get whatsapp_send_kill_switch_key s) else false

  unfoldable pub assert_whatsapp_send_allowed : GuardEnv → Bool → Store → Result BlockedReason Done
  assert_whatsapp_send_allowed env reachable s =
      if whatsapp_sending_disabled_by_env env
      then raise disabled_by_environment
      else if whatsapp_send_kill_switch_enabled reachable s
      then raise kill_switch_on
      else ok done

  unfoldable pub set_whatsapp_send_kill_switch : Bool → Store → Store
  set_whatsapp_send_kill_switch enabled s =
      set node_kill_switch_key (switch_text enabled)
        (set whatsapp_send_kill_switch_key (switch_text enabled) s)

  unfoldable pub whatsapp_send_guard_status : GuardEnv → Bool → Store → GuardStatus
  whatsapp_send_guard_status env reachable s =
      let env_blocked = whatsapp_sending_disabled_by_env env in
      let redis_blocked = whatsapp_send_kill_switch_enabled reachable s in
      record {
        env_disabled = env_blocked;
        redis_kill_switch_enabled = redis_blocked;
        sending_allowed = not env_blocked && not redis_blocked;
      }

  warmup_answered : WarmupAnswer → Store → Result WarmupError Done × Store
  warmup_answered unreachable s = (raise service_unreachable, delete warmup_lock_key s)
  warmup_answered success s = (ok done, s)
  warmup_answered success_without_json s = (raise passed_through, s)
  warmup_answered other_failure s = (raise passed_through, s)
  warmup_answered (refused code) s = (raise (service_refused code), delete warmup_lock_key s)

  is_set : Option Value → Bool
  is_set none = false
  is_set (some v) = true

  unfoldable pub trigger_whatsapp_warmup : WarmupAnswer → Store → Result WarmupError Done × Store
  unfolding warmup_answered is_set
  trigger_whatsapp_warmup answer s =
      if is_set (get warmup_lock_key s)
      then (raise already_scheduled, s)
      else warmup_answered answer (set_ex warmup_lock_key (text "locked") warmup_lock_ttl_seconds s)

-- The settings that safety_guard.py reads.
pub record SafetySettings : Type 0 where
  pub real_message_sending_enabled : Bool
  pub real_queue_push_enabled : Bool
  pub worker_execution_enabled : Bool
  pub channel_connectors_enabled : Bool

pub data SafetyViolation : Type 0 where
  real_sending : SafetyViolation
  real_queue_push : SafetyViolation
  worker_execution : SafetyViolation
  channel_connectors : SafetyViolation

refuse : SafetyViolation → Bool → Result SafetyViolation Done
refuse violation enabled = if enabled then raise violation else ok done

-- `assert_phase_4_staging_safe`: the four checks, one after another
unfoldable pub assert_phase_4_staging_safe : SafetySettings → Result SafetyViolation Done
unfolding refuse
assert_phase_4_staging_safe settings = do
  _ ← refuse real_sending settings.real_message_sending_enabled
  _ ← refuse real_queue_push settings.real_queue_push_enabled
  _ ← refuse worker_execution settings.worker_execution_enabled
  refuse channel_connectors settings.channel_connectors_enabled
