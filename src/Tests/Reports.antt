-- ===== src/Tests/Reports.antt =====
-- Reports, sessions, entries and account lists.
use senderplatformtest.Prelude.{
  ℕ, suc, ◌+◌, ◌≤◌, ◌<◌, ◌≡◌, refl, true, none, some, List, [], ◌∷◌, ok, raise, length, Mem, arith,
}
use senderplatformtest.Prelude.Int.{pos, negsuc}
use senderplatformtest.Prelude.Text.{codes}
use senderplatformtest.Platform.{PlatformType, AccountStatus, SendStatus}
use senderplatformtest.Payloads.{WorkerPayload, other_exception}
use senderplatformtest.AccountPool.{
  AccountRow, load_active_whatsapp_account_ids, active_ids, is_active_whatsapp, shard_account_ids,
  resolve_pool_index, parse_account_id_list, shard_account_ids, resolve_pool_index,
  resolve_assigned_account_ids,
}
use senderplatformtest.AccountPool.Shards.{shards_partition}
use senderplatformtest.Results.{
  CampaignRecipient, Db, RenderedMessage, Report, has_key, update_message_attempt_result,
  send_status_of, get_status, result_to_send_status, get_message, has_recipient,
}
use senderplatformtest.Results.Repeating.{second_report_raises}
use senderplatformtest.Results.Recording.{Recorded, update_message_attempt_result-recipient}
use senderplatformtest.Sessions.{ChannelSession, Event, run}
use senderplatformtest.Sessions.Limits.{run-attempts, logout_stops_reconnects}
use senderplatformtest.Baileys.{QueuePayload}
use senderplatformtest.Validation.{
  validate_worker_payload, build_retry_queue_payload, is_acceptable, has_required, payload_of,
  platform_text, recipient_of, recipient_type_of, message_id_of, fallback_message_id,
  message_text_of, dedupe_key_of, is_blank, strip_string, lstrip_string, reverse_onto, or_text,
  is_given, is_positive, or_zero, attempt_of, is_handle_platform, is_message_id, made_dedupe_key,
}
use senderplatformtest.Validation.Accepting.{staged_item, staged_accepted}
use senderplatformtest.Validation.Retrying.{retry_accepted}
use senderplatformtest.Tests.{payload, queue_item}

abbrev recipient : CampaignRecipient
recipient = record {
  campaign_id = 3;
  contact_id = 5;
  send_status = SendStatus.queued;
  failure_reason = none;
  final_message_id = none;
}

abbrev rendered_row : RenderedMessage
rendered_row = record { campaign_id = 3; contact_id = 5; final_text = "hello" }

-- The rendered message 7 has not been reported yet.
abbrev rows : Db
rows = record {
  recipients = record recipient { contact_id = 4 } ∷ recipient ∷ [];
  messages = [];
  next_message_id = 1;
  rendered = λ i. some rendered_row;
  attempts = [];
}

abbrev report : Report
report = record {
  message_id = some 7;
  attempt_no = 1;
  status = "success";
  platform_message_id = some "wa-1";
  error_code = none;
  campaign_id = some 3;
  contact_id = some 5;
  account_id = some 1;
  failure_reason = none;
  success = some true;
}

abbrev session : ChannelSession
session = record {
  account_id = 1;
  evolution_status = some (codes "disconnected");
  authorization_state = some "authorized";
  socket_state = some "online";
  reconnect_attempts = 1;
  disconnect_events = [];
  last_disconnect_at = none;
  connected_at = none;
  disconnected_at = none;
}

-- Two rounds of the loop, with an update of the monitor between them.
abbrev steps : List Event
steps =
    Event.ticked 100
    ∷ Event.monitored 110 (codes "open")
    ∷ Event.monitored 120 (codes "close")
    ∷ Event.ticked 120
    ∷ []

abbrev staged : QueuePayload
staged = record {
  campaign_id = 3;
  contact_id = 5;
  rendered_message_id = some 7;
  channel = "whatsapp";
  phone = "+989120000000";
  channel_handle = none;
  final_text = "hello";
  account_id = some 1;
}

abbrev accounts : List ℕ
accounts = 1 ∷ 2 ∷ []

abbrev accepted_payload : WorkerPayload
accepted_payload = record payload { dedupe_key = "key-7" }

accepted : validate_worker_payload "whatsapp" accounts (some queue_item) ≡ ok accepted_payload
unfolding validate_worker_payload is_acceptable has_required payload_of platform_text recipient_of
    recipient_type_of message_id_of fallback_message_id message_text_of dedupe_key_of is_blank
    strip_string lstrip_string reverse_onto or_text is_given is_positive or_zero attempt_of
    is_handle_platform is_message_id made_dedupe_key
accepted = refl

abbrev shard : List ℕ
shard = 2 ∷ []

abbrev ids : List ℕ
ids = 1 ∷ 2 ∷ 3 ∷ []

parsed : parse_account_id_list (codes "3, 1,2") ≡ ok ids
unfolding parse_account_id_list
parsed = refl

assigned :
    resolve_assigned_account_ids (codes "worker-2") (codes "3, 1,2") 2 (pos 0) (negsuc 0) ≡ ok shard
unfolding resolve_assigned_account_ids
assigned = refl

update_message_attempt_result-recipient_example :
    Recorded report SendStatus.delivered 3 5 rows (update_message_attempt_result report rows)
unfolding send_status_of get_status result_to_send_status has_recipient
update_message_attempt_result-recipient_example =
    update_message_attempt_result-recipient report rows SendStatus.delivered 3 5 refl refl refl refl

second_report_raises_example :
    (db' : Db) × (update_message_attempt_result report rows ≡ ok db')
    × (db'.attempts ≡ rows.attempts)
    × (update_message_attempt_result report db' ≡ raise other_exception)
unfolding send_status_of get_status result_to_send_status has_recipient has_key get_message
second_report_raises_example =
    second_report_raises report report SendStatus.delivered SendStatus.delivered 7 3 5 rendered_row
      rows refl refl (refl, refl) (refl, refl) (refl, refl) refl (λ e. omega arith) refl refl refl

run-attempts_example :
    let (cs', reconnects) = run steps session in
    (cs'.reconnect_attempts ≡ length reconnects + session.reconnect_attempts)
    × (cs'.reconnect_attempts ≤ 3)
run-attempts_example = run-attempts steps session (tt, (tt, (tt, (tt, tt)))) (omega arith)

logout_stops_reconnects_example :
    (run (Event.updated 90 (codes "close") (some 401) ∷ steps) session).1 ≡ []
logout_stops_reconnects_example =
    logout_stops_reconnects 90 (codes "close") session steps (tt, (tt, (tt, (tt, tt))))

staged_accepted_example :
    (payload : WorkerPayload) × (validate_worker_payload "whatsapp" accounts
        (some (staged_item staged))
      ≡ ok payload)
    × (payload.recipient ≡ strip_string staged.phone)
    × (payload.message_text ≡ staged.final_text)
    × (payload.account_id ≡ suc 0)
    × (payload.attempt ≡ 1)
unfolding staged_item platform_text or_text is_blank strip_string lstrip_string reverse_onto
staged_accepted_example =
    staged_accepted staged 0 accounts refl (omega arith) (omega arith) (λ e. cc) refl refl refl refl

retry_accepted_example :
    validate_worker_payload "whatsapp" accounts
      (some (build_retry_queue_payload queue_item accepted_payload))
    ≡ ok (record accepted_payload { attempt = accepted_payload.attempt + 1 })
unfolding is_given
retry_accepted_example =
    retry_accepted "whatsapp" accounts queue_item accepted_payload refl accepted

shards_partition_example :
    ((i : ℕ) → i < 3 → (shard : List ℕ) × (shard_account_ids ids 3 (pos i) ≡ ok shard))
    × ((a : ℕ)
        → Mem a ids
        → (i : ℕ) × (i < 3)
          × (shard : List ℕ) × (shard_account_ids ids 3 (pos i) ≡ ok shard)
          × Mem a shard
          × ((j : ℕ) (other : List ℕ)
              → shard_account_ids ids 3 (pos j) ≡ ok other
              → Mem a other
              → j ≡ i))
shards_partition_example = shards_partition ids 3 (omega arith)

abbrev account_rows : List AccountRow
account_rows =
    record { id = 2; platform = PlatformType.whatsapp; status = AccountStatus.active }
    ∷ record { id = 3; platform = PlatformType.whatsapp; status = AccountStatus.active }
    ∷ record { id = 4; platform = PlatformType.whatsapp; status = AccountStatus.resting }
    ∷ []

loaded : load_active_whatsapp_account_ids (codes "worker-2") account_rows 2 (pos 0) ≡ ok shard
unfolding load_active_whatsapp_account_ids resolve_pool_index shard_account_ids active_ids
    is_active_whatsapp
loaded = refl
