-- ===== src/Tests/Consumers.antt =====
-- The consumers of the Node worker's lists, the switches, the lock's owner and the keys.
use senderplatformtest.Prelude.{
  ℕ, suc, ◌≡◌, refl, true, false, Option, none, some, List, [], ◌∷◌, ◌++◌, map, ok, arith,
}
use senderplatformtest.Prelude.Text.{codes}
use senderplatformtest.Prelude.Int.{pos}
use senderplatformtest.Prelude.Sort.{contains}
use senderplatformtest.Platform.{
  PlatformType, AccountStatus, CampaignStatus, StagedQueueItemStatus, platform_of,
}
use senderplatformtest.Redis.{queue_key, hourly_rate_key, whatsapp_browser_lock_key, Redis}
use senderplatformtest.Redis.Memory.{Memory, memory, nothing}
use senderplatformtest.Redis.Distinct.{render_injective}
use senderplatformtest.Lock.Owner.{
  Beliefs, Call, acquires, releases, expires, specified, Represents, performed, performed-refines,
}
use senderplatformtest.Worker.{MultiAccountWorker, paused_by_kill_switch, run_once}
use senderplatformtest.Worker
use senderplatformtest.PoolWorker.Assembly.{pool_ports}
use senderplatformtest.Consent.{get_consent_block_reason}
use senderplatformtest.Baileys.{digits}
use senderplatformtest.QueueBridge.{
  Entry, StagedQueueItem, Tables, Environment, Progress, no_counts, process_item, route, assign,
  push,
}
use senderplatformtest.ResultsConsumer.Serving.{disconnected_not_pushed}
use senderplatformtest.ResultsConsumer.{
  BaileysItem, AccountsDb, build_audit_row, lrange_first, consume_whatsapp_results_batch,
  consume_whatsapp_session_status_batch, results_list, session_status_list, consume_events,
  session_events, session_event, count_event, mark_baileys_session_disconnected, mark_account,
  resolve_account_by_phone, matches_phone, max_by_id, set_requires_login, is_disconnect, phone_of,
  or_text,
}
use senderplatformtest.ResultsConsumer.Draining.{
  IsConsumed, consume_whatsapp_results_batch-IsConsumed, drain, drain-all, decoded,
}
use senderplatformtest.ResultsConsumer.Disconnecting.{
  IsLoggedOut, disconnected, consume_session_status_batch-IsLoggedOut,
}
use senderplatformtest.RateLimit.{is_min_delay_active, set_min_delay}
use senderplatformtest.Controls.{from_redis, set_kill_switch, get_account_delay, set_account_delay}
use senderplatformtest.Controls.Switching.{set_kill_switch-run_once}
use senderplatformtest.Controls.Delaying.{delay_key_shared}
use senderplatformtest.Validation.{QueueItem}
use senderplatformtest.SingleWorker.{BaseWorker, SinglePorts}
use senderplatformtest.SingleWorker
use senderplatformtest.SingleWorker.Matching.{ports_of_one, of_one, ended, run_once-agrees}
use senderplatformtest.Tests.{payload, sent_result, queue_item, surroundings, worker, no_rows}

abbrev Raw : Type 0
Raw = Option BaileysItem

abbrev lists : Redis Raw
lists = memory Raw

abbrev parse : Raw → Option BaileysItem
parse raw = raw

abbrev delivered : BaileysItem
delivered = record {
  job_id = some (codes "job-1");
  message_id = none;
  account_id_camel = some (codes "989120000000");
  account_id = none;
  jid = some (codes "989130000000@s.whatsapp.net");
  recipient = none;
  message_text = some (codes "hello");
  text = none;
  status = some (codes "delivered");
  kind = none;
  reason = none;
  error = none;
  platform_message_id = some (codes "wa-1");
  route = none;
  timestamp = none;
}

-- Two results around an entry that is no JSON object.
abbrev reported : Memory Raw
reported =
    lists.rpush results_list (some delivered)
      (lists.rpush results_list none (lists.rpush results_list (some delivered) nothing))

consume_whatsapp_results_batch-IsConsumed_example :
    IsConsumed lists parse
      (lrange_first 2 (lists.items results_list reported))
      reported
      []
      (consume_whatsapp_results_batch lists parse true 2 reported [])
consume_whatsapp_results_batch-IsConsumed_example =
    consume_whatsapp_results_batch-IsConsumed lists parse 2 reported []

drain-all_example :
    (lists.items results_list (drain lists parse 2 2 reported []).0 ≡ [])
    × ((drain lists parse 2 2 reported []).1
        ≡ [] ++ map build_audit_row (decoded lists parse (lists.items results_list reported)))
drain-all_example = drain-all lists parse 2 1 reported [] (omega arith)

abbrev accounts : AccountsDb
accounts = record {
  accounts =
      record {
        id = 1;
        platform = PlatformType.whatsapp;
        status = AccountStatus.active;
        phone_number = some "+98 912 000 0000";
      }
      ∷ record {
        id = 2;
        platform = PlatformType.whatsapp;
        status = AccountStatus.active;
        phone_number = some "+98 935 000 0000";
      }
      ∷ [];
  sessions = [];
}

abbrev logged_out_event : BaileysItem
logged_out_event = record delivered { status = some (codes "session_invalid") }

abbrev events : Memory Raw
events = lists.rpush session_status_list (some logged_out_event) nothing

consume_session_status_batch-IsLoggedOut_example :
    IsLoggedOut lists parse
      (lrange_first 100 (lists.items session_status_list events))
      events
      accounts
      (consume_whatsapp_session_status_batch lists parse true 100 events accounts)
consume_session_status_batch-IsLoggedOut_example =
    consume_session_status_batch-IsLoggedOut lists parse 100 events accounts

-- Account 1 has lost its login.
abbrev tables : Tables
tables = record {
  campaign_status = λ i. some CampaignStatus.running;
  accounts =
      record {
        id = 1;
        platform = PlatformType.whatsapp;
        status = AccountStatus.requires_login;
        phone_number = some "+98 912 000 0000";
      }
      ∷ record {
        id = 2;
        platform = PlatformType.whatsapp;
        status = AccountStatus.active;
        phone_number = some "+98 935 000 0000";
      }
      ∷ [];
  consent = record { contact = λ i. none; events = []; audits = [] };
}

abbrev environment : Environment
environment = record {
  real_queue_push_enabled = true;
  baileys_mode = false;
  locked = λ i. false;
  reachable = λ i. true;
}

abbrev staged : StagedQueueItem
staged = record {
  id = 1;
  campaign_id = 3;
  contact_id = 5;
  channel = "whatsapp";
  status = StagedQueueItemStatus.pushing;
  skip_reason = none;
  queue_payload = record {
    campaign_id = 3;
    contact_id = 5;
    rendered_message_id = some 7;
    channel = "whatsapp";
    phone = "+989120000000";
    channel_handle = none;
    final_text = "hello";
    account_id = none;
  };
}

abbrev pushed : StagedQueueItem
pushed = record staged { queue_payload = record staged.queue_payload { account_id = some 2 } }

abbrev bridge : Redis Entry
bridge = memory Entry

after_batch :
    tables.accounts
    ≡ (consume_whatsapp_session_status_batch lists parse true 100 events accounts).2.accounts
unfolding consume_whatsapp_session_status_batch consume_events session_events session_event
    count_event mark_baileys_session_disconnected mark_account resolve_account_by_phone
    matches_phone max_by_id set_requires_login is_disconnect phone_of lrange_first or_text digits
after_batch = refl

abbrev idle : Progress bridge
idle = record { rr_cursor = λ p. 0; counts = no_counts; store = nothing }

disconnected_not_pushed_example :
    (id : ℕ) × ((process_item bridge environment tables staged idle).0.queue_payload.account_id
      ≡ some id)
    × (contains id (
          disconnected lists parse accounts.accounts
            (lrange_first 100 (lists.items session_status_list events)))
        ≡ false)
unfolding process_item get_consent_block_reason platform_of route assign push
disconnected_not_pushed_example =
    disconnected_not_pushed lists parse 100 events accounts bridge environment tables staged idle
      after_batch refl

render_injective_example : hourly_rate_key 12 "2024010110" ≡ hourly_rate_key 12 "2024010110"
render_injective_example =
    render_injective (hourly_rate_key 12 "2024010110") (hourly_rate_key 12 "2024010110") refl refl
      refl

-- The owner "a" asks again in vain and no longer releases; the key runs out.
abbrev calls : List Call
calls =
    acquires "a"
    ∷ acquires "b"
    ∷ releases "b"
    ∷ acquires "a"
    ∷ releases "a"
    ∷ expires
    ∷ acquires "b"
    ∷ releases "b"
    ∷ []

abbrev nobody : Beliefs
nobody token = false

performed-refines_example :
    let out = performed (memory QueueItem) (whatsapp_browser_lock_key 1) 120 calls nobody nothing in
    (out.0 ≡ (specified calls none nobody).0)
    × (out.1 ≡ (specified calls none nobody).2)
    × Represents
        (memory QueueItem)
        (whatsapp_browser_lock_key 1)
        120
        out.2
        (specified calls none nobody).1
performed-refines_example =
    performed-refines (memory QueueItem) (whatsapp_browser_lock_key 1) 120 calls nobody nothing none
      refl

abbrev queues : Redis QueueItem
queues = memory QueueItem

-- One entry waits for account 1.
abbrev waiting : Memory QueueItem
waiting = queues.rpush (queue_key "whatsapp" 1) queue_item nothing

set_kill_switch-run_once_example :
    run_once queues
      (pool_ports queues surroundings (λ r. none))
      worker
      (set_kill_switch queues true true waiting).1
      no_rows
    ≡ (paused_by_kill_switch, worker, (set_kill_switch queues true true waiting).1, no_rows)
set_kill_switch-run_once_example =
    set_kill_switch-run_once queues (pool_ports queues surroundings (λ r. none)) worker waiting
      no_rows

delay_key_shared_example :
    (is_min_delay_active queues 1
        (set_account_delay queues true 1 60 (set_min_delay queues 1 90 nothing)).1
      ≡ false)
    × (get_account_delay queues true 1
          (set_min_delay queues 1 90 (set_min_delay queues 1 90 nothing))
        ≡ ok (record { account_id = 1; delay_seconds = pos 1; source = from_redis }))
delay_key_shared_example =
    delay_key_shared queues 1 60 89 (set_min_delay queues 1 90 nothing) (omega arith) (omega arith)

abbrev single_ports : SinglePorts queues ℕ
single_ports = record {
  validate = λ item. ok payload;
  send_message = λ p s. (ok sent_result, s);
  update_result = λ report db. ok (suc db);
}

abbrev single : BaseWorker
single = record { platform = "whatsapp"; account_id = 1 }

run_once-agrees_example :
    SingleWorker.run_once queues single_ports single waiting 0
    ≡ ended queues single_ports
        (λ item p. item)
        (run_once queues
          (ports_of_one queues single_ports (λ item p. item))
          (of_one single)
          waiting
          0)
unfolding Worker.is_redis_truthy
run_once-agrees_example = run_once-agrees queues single_ports (λ item p. item) single waiting 0 refl
