-- ===== src/Tests.antt =====
-- Concrete rows, payloads and workers at which the theorems are applied.
mod Workers
mod Rounds
mod Campaigns
mod Messages
mod Reports
mod Consumers
mod Staged
mod Renders
mod Operations
use senderplatformtest.Prelude.{
  ℕ, ◌+◌, Bool, true, false, Option, none, some, List, [], ◌∷◌, String, ok, length,
}
use senderplatformtest.Payloads.{numbered, WorkerPayload, WorkerResult, WorkerSettings}
use senderplatformtest.Validation.{QueueItem}
use senderplatformtest.Redis.Memory.{Memory, nothing}
use senderplatformtest.RateLimit.{Account}
use senderplatformtest.Results.{Db}
use senderplatformtest.Worker.{MultiAccountWorker}
use senderplatformtest.PoolWorker.{Surroundings}

abbrev pub live_settings : WorkerSettings
live_settings = record {
  dry_run = false;
  shadow_mode = false;
  shadow_phone_number = "";
  real_message_sending_enabled = true;
  channel_connectors_enabled = true;
  whatsapp_delivery_mode = "evolution";
  whatsapp_hourly_send_cap = 30;
  whatsapp_daily_send_cap = 200;
  whatsapp_distributed_lock_enabled = true;
  whatsapp_distributed_lock_ttl_seconds = 120;
}

abbrev pub payload : WorkerPayload
payload = record {
  message_id = numbered 7;
  campaign_id = 3;
  contact_id = 5;
  account_id = 1;
  platform = "whatsapp";
  recipient = "+989120000000";
  recipient_type = "phone_number";
  message_text = "hello";
  media_url = none;
  dedupe_key = "c3-ct5-a1";
  attempt = 1;
}

abbrev pub sent_result : WorkerResult
sent_result = record {
  success = true;
  status = "success";
  error_code = none;
  platform_message_id = some "wa-1";
  retryable = false;
}

-- An account whose warming has not started.
abbrev pub account : Account
account = record { id = 1; policy_daily_cap = none; warming_days = none }

abbrev pub surroundings : Surroundings
surroundings = record {
  settings = live_settings;
  worker_settings = live_settings;
  hour = "2024010110";
  day = "20240101";
  token = "replica-1";
  nonce = "abcd1234";
  load_account = λ i. some (record account { id = i });
  send_settings = λ i. none;
  uniform = λ lo hi. lo;
  deliver_live = λ connector p settings. ok sent_result;
}

abbrev pub queue_item : QueueItem
queue_item = record {
  message_id = some 7;
  rendered_message_id = none;
  campaign_id = some 3;
  contact_id = some 5;
  account_id = some 1;
  platform = some "whatsapp";
  channel = none;
  recipient = none;
  phone = some "+989120000000";
  channel_handle = none;
  recipient_type = none;
  message_text = some "hello";
  final_text = none;
  media_url = none;
  dedupe_key = some "key-7";
  attempt = some 1;
}

abbrev pub worker : MultiAccountWorker
worker = record {
  platform = "whatsapp";
  account_ids = 1 ∷ 2 ∷ [];
  round_robin_index = 0;
  max_retry_attempts = 3;
  retry_base_delay_seconds = 5;
}

abbrev pub no_rows : Db
no_rows = record {
  recipients = [];
  messages = [];
  next_message_id = 1;
  rendered = λ i. none;
  attempts = [];
}
