-- ===== src/Tests/Operations.antt =====
-- The theorem on an operator's test messages at a live message for WhatsApp.
use senderplatformtest.Prelude.{◌≡◌, ◌⊎◌, refl, true, false, none, some, ok}
use senderplatformtest.Platform.{whatsapp, active}
use senderplatformtest.Payloads.{WorkerSettings}
use senderplatformtest.Validation.{or_text, strip_string, lstrip_string, reverse_onto, str}
use senderplatformtest.OperationalSend.{
  OpsSettings, OpsAccount, Answers, Action, push_to_worker_queue, phone_number,
  build_test_worker_payload, build_live_send_preflight, build_operational_worker_settings,
  route_test_message,
}
use senderplatformtest.OperationalSend.Gating.{
  send_account_test_message, IsAllowed, IsQuiet, send_account_test_message-IsAllowed,
}

abbrev open_settings : OpsSettings
open_settings = record {
  ops_live_send_api_enabled = true;
  real_message_sending_enabled = true;
  channel_connectors_enabled = true;
  dry_run = false;
  shadow_mode = false;
  whatsapp_delivery_mode = "web";
  whatsapp_ops_send_via_worker_queue = true;
}

abbrev base : WorkerSettings
base = record {
  dry_run = true;
  shadow_mode = false;
  shadow_phone_number = "";
  real_message_sending_enabled = false;
  channel_connectors_enabled = false;
  whatsapp_delivery_mode = "web";
  whatsapp_hourly_send_cap = 10;
  whatsapp_daily_send_cap = 20;
  whatsapp_distributed_lock_enabled = true;
  whatsapp_distributed_lock_ttl_seconds = 60;
}

abbrev sender : OpsAccount
sender = record { id = 7; platform = whatsapp; status = active; phone_number = some " 0912 " }

abbrev answers : Answers
answers = record { send_allowed = true; session_ready = true; not_blocked = true }

abbrev pushed : Action
pushed = push_to_worker_queue (record {
  message_id = "ops-test-ab";
  campaign_id = "ops-test-7";
  contact_id = "ops-test-ab";
  account_id = 7;
  platform = "whatsapp";
  recipient = "0912";
  recipient_type = phone_number;
  message_text = "hello";
  dedupe_key = "ops-test-7-ab";
  attempt = 1;
})

goes_out :
    send_account_test_message open_settings base sender answers "ab" "hello" none false true
    ≡ ok pushed
unfolding send_account_test_message build_live_send_preflight build_test_worker_payload or_text
    strip_string reverse_onto lstrip_string build_operational_worker_settings route_test_message str
goes_out = refl

send_account_test_message-IsAllowed_example :
    ((false ≡ true) × IsQuiet pushed)
    ⊎ ((false ≡ false) × IsAllowed open_settings sender answers true)
send_account_test_message-IsAllowed_example =
    send_account_test_message-IsAllowed open_settings base sender answers "ab" "hello" none false
      true pushed goes_out
