-- ===== src/Redis/Keys.antt =====
-- The texts of the keys: the f-strings of multi-messaging-platform/workers/redis_keys.py.
use senderplatformtest.Prelude.{◌++◌}
use senderplatformtest.Prelude.Text.{Text, codes}
use senderplatformtest.Prelude.Decimal.{str}
use senderplatformtest.Redis.{
  RedisKey, queue_key, delay_key, hourly_rate_key, daily_rate_key, daily_cap_alert_key,
  hourly_config_key, kill_switch_key, whatsapp_send_kill_switch_key, account_pause_key,
  campaign_pause_key, whatsapp_browser_lock_key, worker_heartbeat_key, other_key,
}

unfoldable pub render : RedisKey → Text
render (queue_key platform account_id) =
    codes "queue:" ++ codes platform ++ codes ":" ++ str account_id
render (delay_key account_id) = codes "config:delay:" ++ str account_id
render (hourly_rate_key account_id hour) =
    codes "rate:" ++ str account_id ++ codes ":" ++ codes hour
render (daily_rate_key account_id day) =
    codes "rate:daily:" ++ str account_id ++ codes ":" ++ codes day
render (daily_cap_alert_key account_id day) =
    codes "rate:capalert:" ++ str account_id ++ codes ":" ++ codes day
render (hourly_config_key account_id) = codes "config:hours:" ++ str account_id
render kill_switch_key = codes "system:kill_switch"
render whatsapp_send_kill_switch_key = codes "system:whatsapp_send_disabled"
render (account_pause_key account_id) = codes "account:" ++ str account_id ++ codes ":paused"
render (campaign_pause_key campaign_id) = codes "campaign:" ++ str campaign_id ++ codes ":paused"
render (whatsapp_browser_lock_key account_id) = codes "lock:wa:browser:" ++ str account_id
render (worker_heartbeat_key platform hostname) =
    codes "worker:alive:" ++ codes platform ++ codes ":" ++ codes hostname
render (other_key name) = codes name
