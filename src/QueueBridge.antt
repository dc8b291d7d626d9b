-- ===== src/QueueBridge.antt =====
-- From staged rows to the workers' queues: multi-messaging-platform/core_engine/services/
-- queue_bridge.py. The tables are the state; the rows stand by ascending id, as the query orders
-- them. Rows that another transaction has locked, and pushes that Redis refuses, are arguments.
pub mod Claiming
pub mod Rows
pub mod Pushing
use senderplatformtest.Prelude.{
  ℕ, zero, suc, ◌+◌, ◌%◌, Bool, true, false, not, ◌&&◌, Option, none, some, List, [], ◌∷◌, String,
  ◌==◌, if◌then◌else◌, length, get_elem?, filter, map,
}
use senderplatformtest.Redis.{RedisKey, queue_key, Redis}
use senderplatformtest.Platform.{
  PlatformType, whatsapp, AccountStatus, active, CampaignStatus, running, StagedQueueItemStatus,
  ready, pushing, skipped, queued, platform_eq, platform_of,
}
use senderplatformtest.Consent.{ConsentDb, BlockReason, get_consent_block_reason}
use senderplatformtest.Baileys.{QueuePayload, BaileysJob, raw_outgoing_list, baileys_job}

pub data SkipReason : Type 0 where
  consent_blocked : BlockReason → SkipReason
  invalid_platform : String → SkipReason
  bridge_failed : SkipReason

pub record StagedQueueItem : Type 0 where
  pub id : ℕ
  pub campaign_id : ℕ
  pub contact_id : ℕ
  pub channel : String
  pub status : StagedQueueItemStatus
  pub skip_reason : Option SkipReason
  pub queue_payload : QueuePayload

pub record Account : Type 0 where
  pub id : ℕ
  pub platform : PlatformType
  pub status : AccountStatus
  pub phone_number : Option String

-- An entry of a list in Redis.
pub data Entry : Type 0 where
  worker_payload : QueuePayload → Entry
  job : BaileysJob → Entry

pub record Tables : Type 0 where
  pub campaign_status : ℕ → Option CampaignStatus
  pub accounts : List Account
  pub consent : ConsentDb

pub record Environment : Type 0 where
  pub real_queue_push_enabled : Bool
  pub baileys_mode : Bool
  -- the rows that FOR UPDATE SKIP LOCKED leaves out
  pub locked : ℕ → Bool
  -- whether Redis takes the push of a row
  pub reachable : ℕ → Bool

abbrev pub is_ready : StagedQueueItemStatus → Bool
is_ready ready = true
is_ready _ = false

abbrev pub is_running : Option CampaignStatus → Bool
is_running (some running) = true
is_running _ = false

abbrev pub is_active : AccountStatus → Bool
is_active active = true
is_active _ = false

-- The query's filter.
unfoldable pub claimable : Environment → Tables → StagedQueueItem → Bool
claimable env db item =
    is_ready item.status
    && is_running (db.campaign_status item.campaign_id)
    && not (env.locked item.id)

-- The claim: the first rows that pass, at most `limit`, are set to PUSHING and marked with `true`.
unfoldable pub claim :
    Environment → Tables → ℕ → List StagedQueueItem → List (Bool × StagedQueueItem)
claim env db limit [] = []
claim env db zero (item ∷ items) = (false, item) ∷ claim env db zero items
claim env db (suc limit) (item ∷ items) =
    let taken = (true, record item { status = pushing }) ∷ claim env db limit items in
    let passed = (false, item) ∷ claim env db (suc limit) items in
    if claimable env db item then taken else passed

pub record Counts : Type 0 where
  pub pushed : ℕ
  pub skipped_consent : ℕ
  pub skipped_no_account : ℕ
  pub failed : ℕ

abbrev pub no_counts : Counts
no_counts = record { pushed = 0; skipped_consent = 0; skipped_no_account = 0; failed = 0 }

-- The accounts' query.
abbrev pub serves : PlatformType → Account → Bool
serves platform account = platform_eq account.platform platform && is_active account.status

abbrev pub is_whatsapp : PlatformType → Bool
is_whatsapp whatsapp = true
is_whatsapp _ = false

module _ (redis : Redis Entry) where
  open redis use {Store, rpush}

  -- What the loop carries: the round-robin cursors, the counts and the store.
  pub record Progress : Type 0 where
    pub rr_cursor : PlatformType → ℕ
    pub counts : Counts
    pub store : Store

  abbrev pub finish :
      StagedQueueItem
      → StagedQueueItemStatus
      → Option SkipReason
      → Counts
      → Progress
      → StagedQueueItem × Progress
  finish item status reason counts progress =
      (record item { status = status; skip_reason = reason }, record progress { counts = counts })

  -- The push itself; None stands for an exception.
  unfoldable pub push :
      Environment → PlatformType → Account → StagedQueueItem → QueuePayload → Store → Option Store
  push env platform account item payload s =
      if not (env.reachable item.id)
      then none
      else if is_whatsapp platform && env.baileys_mode
      then elim (baileys_job account.phone_number payload "campaign") [
        | none ↦ none
        | some j ↦ some (rpush raw_outgoing_list (job j) s)
      ]
      else some (rpush (queue_key item.channel account.id) (worker_payload payload) s)

  -- A row with an account: the cursor moves and the payload gets the account before the push.
  unfoldable pub assign :
      Environment
      → PlatformType
      → ℕ
      → Account
      → StagedQueueItem
      → Progress
      → StagedQueueItem × Progress
  assign env platform idx account item progress =
      let c = progress.counts in
      let payload = record item.queue_payload { account_id = some account.id } in
      let item' = record item { queue_payload = payload } in
      let progress' = record progress {
        rr_cursor = λ p. if platform_eq p platform then idx + 1 else progress.rr_cursor p;
      } in
      elim (push env platform account item payload progress.store) [
        | none ↦
            finish item' ready (some bridge_failed) (record c { failed = c.failed + 1 }) progress'
        | some s ↦
            finish item' queued none (record c { pushed = c.pushed + 1 })
              (record progress' { store = s })
      ]

  -- A row of a known platform: a row with no account goes back to READY, and keeps its reason.
  unfoldable pub route :
      Environment → Tables → PlatformType → StagedQueueItem → Progress → StagedQueueItem × Progress
  route env db platform item progress =
      let c = progress.counts in
      let accounts = filter (serves platform) db.accounts in
      let idx = progress.rr_cursor platform % length accounts in
      elim (get_elem? accounts idx) [
        | none ↦
            finish item ready item.skip_reason
              (record c { skipped_no_account = c.skipped_no_account + 1 }) progress
        | some account ↦ assign env platform idx account item progress
      ]

  -- One round of the loop.
  unfoldable pub process_item :
      Environment → Tables → StagedQueueItem → Progress → StagedQueueItem × Progress
  process_item env db item progress =
      let c = progress.counts in
      elim (get_consent_block_reason db.consent item.contact_id (some item.channel)) [
        | some reason ↦
            finish item skipped (some (consent_blocked reason))
              (record c { skipped_consent = c.skipped_consent + 1 }) progress
        | none ↦ elim (platform_of item.channel) [
          | none ↦
              finish item skipped (some (invalid_platform item.channel))
                (record c { failed = c.failed + 1 }) progress
          | some platform ↦ route env db platform item progress
        ]
      ]

  unfoldable pub process_items :
      Environment
      → Tables
      → List (Bool × StagedQueueItem)
      → Progress
      → List StagedQueueItem × Progress
  process_items env db [] progress = ([], progress)
  process_items env db ((false, item) ∷ rows) progress =
      let (items, progress') = process_items env db rows progress in (item ∷ items, progress')
  process_items env db ((true, item) ∷ rows) progress =
      let (item', progress') = process_item env db item progress in
      let (items, progress'') = process_items env db rows progress' in (item' ∷ items, progress'')

  unfoldable pub push_staged_items_to_worker_queue :
      Environment
      → Tables
      → ℕ
      → List StagedQueueItem
      → Store
      → List StagedQueueItem × Counts × Store
  push_staged_items_to_worker_queue env db batch_size items s =
      if not env.real_queue_push_enabled
      then (items, no_counts, s)
      else let start : Progress = record { rr_cursor = λ _. 0; counts = no_counts; store = s } in
        let (items', progress) = process_items env db (claim env db batch_size items) start in
        (items', progress.counts, progress.store)
