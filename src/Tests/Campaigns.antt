-- ===== src/Tests/Campaigns.antt =====
-- The lock, the bridge, the campaigns and consent.
use Prim.Native.Char.{nul}
use senderplatformtest.Prelude.{
  ℕ, zero, suc, ◌≤◌, ◌≡◌, ◌≢◌, refl, ap, true, false, Option, none, some, List, [], ◌∷◌, String,
  length, ◌==◌, ◌⊎◌, ◌↔◌, if◌then◌else◌,
}
use senderplatformtest.Redis.{RedisKey, whatsapp_browser_lock_key, campaign_pause_key, text, Redis}
use senderplatformtest.Redis.Memory.{memory, nothing}
use senderplatformtest.Lock.Replicas.{
  System as Replicas, here, next, acquires, acquired, mutual_exclusion,
}
use senderplatformtest.Platform.{whatsapp, active, running, paused, ready}
use senderplatformtest.Worker.{is_redis_truthy}
use senderplatformtest.Consent.{
  Contact, ConsentDb, record_opt_out, has_opted_in, record_event, get_consent_block_reason,
}
use senderplatformtest.Consent.Laws.{opt_out_blocks, block_reason-has_opted_in}
use senderplatformtest.QueueBridge.{
  StagedQueueItem, Account, Entry, Tables, Environment, claimable, claim, no_counts, Progress,
  process_item, push_staged_items_to_worker_queue,
}
use senderplatformtest.QueueBridge.Claiming.{claimed}
use senderplatformtest.QueueBridge.Rows.{total, Settled, process_item-Settled}
use senderplatformtest.QueueBridge.Pushing.{Bridged, push_staged_items_accounts}
use senderplatformtest.CampaignControl.{Response, Health, System, stop_campaign}
use senderplatformtest.CampaignControl.Effects.{stop_campaign_halts}

abbrev lock_store : Redis ℕ
lock_store = memory ℕ

abbrev key : RedisKey
key = whatsapp_browser_lock_key 1

-- The tokens of the replicas: texts of different lengths.
abbrev token : ℕ → String
token zero = ""
token (suc n) = String.◌∷◌ nul (token n)

distinct : (i j : ℕ) → token i ≡ token j → i ≡ j
distinct zero zero e = refl
distinct zero (suc j) e = cc
distinct (suc i) zero e = cc
distinct (suc i) (suc j) e = let same : token i ≡ token j = cc in ap suc (distinct i j same)

abbrev idle : Replicas lock_store key 120 token
idle = record { store = nothing; held = λ i. false }

abbrev holder : ℕ
holder = 1

abbrev taken : Replicas lock_store key 120 token
taken = record {
  store = (lock_store.set_nx_ex key (text (token 1)) 120 nothing).1;
  held = λ i. i == 1;
}

-- The lock of replica 1 has run out, and the replica does not know.
abbrev expired : Replicas lock_store key 120 token
expired = record taken { store = nothing }

abbrev bridge_store : Redis Entry
bridge_store = memory Entry

abbrev sender : Account
sender = record { id = 1; platform = whatsapp; status = active; phone_number = some "+98912" }

abbrev consents : ConsentDb
consents = record {
  contact = λ i. if i == 5 then some (record { blacklisted = false }) else none;
  events = [];
  audits = [];
}

abbrev tables : Tables
tables = record { campaign_status = λ i. some running; accounts = sender ∷ []; consent = consents }

abbrev environment : Environment
environment = record {
  real_queue_push_enabled = true;
  baileys_mode = false;
  locked = λ i. false;
  reachable = λ i. true;
}

abbrev staged : StagedQueueItem
staged = record {
  id = 9;
  campaign_id = 3;
  contact_id = 5;
  channel = "whatsapp";
  status = ready;
  skip_reason = none;
  queue_payload = record {
    campaign_id = 3;
    contact_id = 5;
    rendered_message_id = some 7;
    channel = "whatsapp";
    phone = "+989120000000";
    channel_handle = none;
    final_text = "hello";
    account_id = none;
  };
}

abbrev staged_rows : List StagedQueueItem
staged_rows = staged ∷ record staged { id = 10 } ∷ record staged { id = 11 } ∷ []

abbrev start : Progress bridge_store
start = record { rr_cursor = λ p. 0; counts = no_counts; store = nothing }

abbrev healthy : Health
healthy = record { ping = true; answers = true; claims = true }

-- The bridge does not get to its commit.
abbrev no_claim : Health
no_claim = record { ping = true; answers = true; claims = false }

abbrev campaigns : System bridge_store
campaigns = record { db = tables; items = staged_rows; store = nothing }

abbrev stopped : Response
stopped = record { already = false; bridge_result = none }

abbrev channel : Option String
channel = some "whatsapp"

abbrev elsewhere : Option String
elsewhere = some "bale"

abbrev refused : ConsentDb
refused = record_event false "record_opt_out" consents 5 channel "" "admin"

abbrev agreed : ConsentDb
agreed = record_event true "record_opt_in" consents 5 channel "" "admin"

mutual_exclusion_example : holder ≡ holder
unfolding acquired
mutual_exclusion_example =
    mutual_exclusion lock_store key 120 token distinct holder holder (λ k. refl)
      (next here (acquires idle 1)) refl refl

process_item-Settled_example :
    Settled bridge_store environment tables staged start
      (process_item bridge_store environment tables staged start)
process_item-Settled_example = process_item-Settled bridge_store environment tables staged start

push_staged_items_accounts_example :
    let out =
      push_staged_items_to_worker_queue bridge_store environment tables 500 staged_rows nothing in
    ((environment.real_queue_push_enabled ≡ false) × (out ≡ (staged_rows, no_counts, nothing)))
    ⊎ ((environment.real_queue_push_enabled ≡ true)
        × Bridged bridge_store environment tables staged_rows out.0
        × (length out.0 ≡ length staged_rows)
        × (total out.1 ≡ claimed (claim environment tables 500 staged_rows))
        × (total out.1 ≤ 500))
push_staged_items_accounts_example =
    push_staged_items_accounts bridge_store environment tables 500 staged_rows nothing

stop_campaign_halts_example :
    let sys' = (stop_campaign bridge_store healthy 3 running campaigns).1 in
    (sys'.db.campaign_status 3 ≡ some paused)
    × (is_redis_truthy (bridge_store.get (campaign_pause_key 3) sys'.store) ≡ true)
    × ((item : StagedQueueItem) → item.campaign_id ≡ 3 → claimable environment sys'.db item ≡ false)
unfolding stop_campaign
stop_campaign_halts_example =
    stop_campaign_halts bridge_store healthy environment false 3 running campaigns stopped refl

opt_out_blocks_example :
    (get_consent_block_reason refused 5 elsewhere ≢ none)
    × (has_opted_in refused 5 elsewhere ≡ false)
    × ((d : ℕ)
        → d ≢ 5
        → get_consent_block_reason refused d elsewhere
          ≡ get_consent_block_reason consents d elsewhere)
unfolding record_opt_out record_event
opt_out_blocks_example = opt_out_blocks consents refused 5 channel "" "admin" refl elsewhere

block_reason-has_opted_in_example :
    (((contact : Contact) × (consents.contact 5 ≡ some contact))
      × ((get_consent_block_reason consents 5 channel ≡ none)
          ↔ (has_opted_in consents 5 channel ≡ true)))
    ⊎ ((consents.contact 5 ≡ none)
        × (get_consent_block_reason consents 5 channel ≡ none)
        × (has_opted_in consents 5 channel ≡ false))
block_reason-has_opted_in_example = block_reason-has_opted_in consents 5 channel
