-- ===== src/PoolWorker.antt =====
-- The worker of the WhatsApp pool: multi-messaging-platform/workers/whatsapp_pool_worker.py. The
-- clock's texts, the loaded account, the random numbers and the connectors come in `Surroundings`;
-- heartbeats, logging and the alert that is sent when the day's cap is first met are left out.
pub mod Shape
pub mod Sending
pub mod Refreshing
pub mod Assembly
use senderplatformtest.Prelude.{
  ℕ, zero, suc, ◌%◌, Bool, true, false, not, Option, none, some, List, [], ◌∷◌, String,
  if◌then◌else◌, Result, ok, raise, length,
}
use senderplatformtest.Prelude.Text.{text_eq}
use senderplatformtest.Prelude.Sort.{sorted, unique}
use senderplatformtest.Redis.{
  RedisKey, daily_cap_alert_key, whatsapp_browser_lock_key, Value, text, Redis,
}
use senderplatformtest.Payloads.{WorkerPayload, WorkerResult, WorkerException, WorkerSettings}
use senderplatformtest.Delivery.{Connector, deliver_platform_message}
use senderplatformtest.Lock.{DistributedLock, new_lock, acquire, release}
use senderplatformtest.RateLimit.{
  Account, is_min_delay_active, set_min_delay, is_hourly_cap_reached, record_successful_send,
  incr_daily_count, can_send_daily,
}
use senderplatformtest.Worker.{MultiAccountWorker}

abbrev pub daily_cap_alert_ttl_seconds : ℕ
daily_cap_alert_ttl_seconds = 172800

pub record Surroundings : Type 0 where
  pub settings : WorkerSettings
  -- `get_worker_settings()`, from which the cap of the day is read
  pub worker_settings : WorkerSettings
  pub hour : String
  pub day : String
  pub token : String
  pub nonce : String
  -- `_load_account`, which gives None where the database fails
  pub load_account : ℕ → Option Account
  -- the row of AccountSendSettings, if there is one and it can be read
  pub send_settings : ℕ → Option (ℕ × ℕ)
  -- int(random.uniform(lo, hi))
  pub uniform : ℕ → ℕ → ℕ
  pub deliver_live :
      Connector → WorkerPayload → WorkerSettings → Result WorkerException WorkerResult

unfoldable pub get_account_delay : Surroundings → ℕ → ℕ × ℕ
get_account_delay env account_id = elim (env.send_settings account_id) [
  | none ↦ (45, 90)
  | some bounds ↦ bounds
]

throttled : String → Result WorkerException WorkerResult
throttled error_code = ok (record {
  success = false;
  status = "failed_retryable";
  error_code = some error_code;
  platform_message_id = none;
  retryable = true;
})

-- `_refresh_account_ids`, given what `load_active_whatsapp_account_ids` returns
unfoldable pub refresh_account_ids : List ℕ → MultiAccountWorker → MultiAccountWorker
unfolding sorted unique
refresh_account_ids [] w = w
refresh_account_ids (a ∷ rest) w =
    let new_ids = sorted (unique (a ∷ rest)) in
    if text_eq new_ids w.account_ids then w else record w {
      account_ids = new_ids;
      round_robin_index = w.round_robin_index % length new_ids;
    }

module _ {Item : Type 0} (redis : Redis Item) (env : Surroundings) where
  open redis use {Store, set_nx_ex}

  -- the flag of `_alert_daily_cap_once`
  unfoldable pub alert_daily_cap_once : ℕ → Store → Store
  alert_daily_cap_once account_id s =
      (set_nx_ex (daily_cap_alert_key account_id env.day) (text "1") daily_cap_alert_ttl_seconds
        s).1

  delivered : WorkerPayload → Result WorkerException WorkerResult
  delivered payload =
      (deliver_platform_message env.deliver_live env.nonce "whatsapp" payload env.settings).result

  -- what follows a delivery
  unfoldable pub settle :
      ℕ → Result WorkerException WorkerResult → Store → Result WorkerException WorkerResult × Store
  settle account_id (raise e) s = (raise e, s)
  settle account_id (ok result) s =
      if result.success
      then (let s1 = (record_successful_send redis env.hour account_id s).1 in
          let s2 = (incr_daily_count redis env.day account_id s1).1 in
          let (min_d, max_d) = get_account_delay env account_id in
          (ok result, set_min_delay redis account_id (env.uniform min_d max_d) s2))
      else (ok result, s)

  -- `with` the distributed lock, if it is enabled; it is released also where the delivery raises.
  unfoldable pub locked_send : WorkerPayload → Store → Result WorkerException WorkerResult × Store
  unfolding delivered throttled
  locked_send payload s =
      if not env.settings.whatsapp_distributed_lock_enabled
      then settle payload.account_id (delivered payload) s
      else let lock =
          new_lock (whatsapp_browser_lock_key payload.account_id)
            env.settings.whatsapp_distributed_lock_ttl_seconds env.token in
        let (acquired, lock', s1) = acquire redis lock s in
        if not acquired
        then (throttled "whatsapp_browser_lock_busy", s1)
        else settle payload.account_id (delivered payload) (release redis lock' s1).1

  -- the check of the day's cap, where the account could be loaded
  unfoldable pub within_daily_cap : ℕ → Store → Bool
  within_daily_cap account_id s = elim (env.load_account account_id) [
    | none ↦ true
    | some account ↦
        (can_send_daily redis env.day env.worker_settings.whatsapp_daily_send_cap account s).0
  ]

  unfoldable pub send_message : WorkerPayload → Store → Result WorkerException WorkerResult × Store
  unfolding throttled
  send_message payload s =
      if is_min_delay_active redis payload.account_id s
      then (throttled "whatsapp_send_throttled", s)
      else if is_hourly_cap_reached redis env.hour payload.account_id
          env.settings.whatsapp_hourly_send_cap s
      then (throttled "whatsapp_hourly_cap_reached", s)
      else if not (within_daily_cap payload.account_id s)
      then (throttled "whatsapp_daily_cap_reached", alert_daily_cap_once payload.account_id s)
      else locked_send payload s
