-- ===== src/CampaignControl.antt =====
-- Starting and stopping a campaign: multi-messaging-platform/core_engine/services/
-- campaign_control.py. Whether Redis answers the ping, and the command after it, and whether the
-- bridge fails before the commit of its claim, are arguments; a failure of the bridge after that
-- commit is left out.
pub mod Effects
use senderplatformtest.Prelude.{
  ℕ, Bool, true, false, not, ◌&&◌, Option, none, some, List, [], ◌∷◌, String, ◌==◌, if◌then◌else◌,
  Result, ok, raise,
}
use senderplatformtest.Redis.{RedisKey, campaign_pause_key, Value, text, Redis}
use senderplatformtest.Platform.{
  CampaignStatus, draft, prepared, paused, archived, running, completed, failed, cancelled,
}
use senderplatformtest.QueueBridge.{
  StagedQueueItem, Entry, Tables, Environment, Counts, push_staged_items_to_worker_queue,
}

pub data HttpError : Type 0 where
  bad_request : HttpError
  redis_unavailable : HttpError
  -- any other exception: a 500 of the endpoint
  bridge_failed : HttpError

abbrev pub startable : CampaignStatus → Bool
startable draft = true
startable prepared = true
startable paused = true
startable running = true
startable _ = false

abbrev pub stoppable : CampaignStatus → Bool
stoppable running = true
stoppable paused = true
stoppable prepared = true
stoppable _ = false

abbrev pub is_paused : CampaignStatus → Bool
is_paused paused = true
is_paused _ = false

abbrev pub is_running_status : CampaignStatus → Bool
is_running_status running = true
is_running_status _ = false

abbrev pub set_status : ℕ → CampaignStatus → Tables → Tables
set_status campaign_id status db = record db {
  campaign_status = λ i. if i == campaign_id then some status else db.campaign_status i;
}

pub record Response : Type 0 where
  pub already : Bool
  pub bridge_result : Option Counts

pub record Health : Type 0 where
  pub ping : Bool
  pub answers : Bool
  -- the bridge gets as far as the commit of its claim
  pub claims : Bool

module _ (redis : Redis Entry) where
  open redis use {Store, set, delete}

  pub record System : Type 0 where
    pub db : Tables
    pub items : List StagedQueueItem
    pub store : Store

  -- `_require_redis`, then the command; None stands for `CampaignControlError`.
  pause_command : Health → Store → Option Store
  pause_command health s = if not health.ping then none else if health.answers then some s else none

  unfoldable pub clear_campaign_pause : Health → ℕ → Store → Option Store
  unfolding pause_command
  clear_campaign_pause health campaign_id s =
      pause_command health (delete (campaign_pause_key campaign_id) s)

  unfoldable pub set_campaign_pause : Health → ℕ → Store → Option Store
  unfolding pause_command
  set_campaign_pause health campaign_id s =
      pause_command health (set (campaign_pause_key campaign_id) (text "true") s)

  -- the call of the bridge at the end
  bridge : Environment → Bool → Bool → System → Response × System
  bridge env false already sys = (record { already = already; bridge_result = none }, sys)
  bridge env true already sys =
      let (items, counts, store) =
        push_staged_items_to_worker_queue redis env sys.db 500 sys.items sys.store in
      (
        record { already = already; bridge_result = some counts },
        record sys { items = items; store = store },
      )

  -- The rollback of a session: what was written since the last commit is gone, in the tables alone.
  abbrev rolled_back : System → System → System
  rolled_back committed sys = record committed { store = sys.store }

  -- The endpoint rolls back as well, whatever is raised.
  unfoldable pub start_campaign :
      Health → Environment → Bool → ℕ → CampaignStatus → System → Result HttpError Response × System
  unfolding clear_campaign_pause bridge
  start_campaign health env trigger_bridge campaign_id status sys =
      if not (startable status)
      then (raise bad_request, sys)
      else elim (clear_campaign_pause health campaign_id sys.store) [
        | none ↦ (
          raise redis_unavailable,
          rolled_back sys (record sys { db = set_status campaign_id running sys.db }),
        )
        | some s ↦
            let started = record sys { db = set_status campaign_id running sys.db; store = s } in
            let (response, sys') = bridge env trigger_bridge (is_running_status status) started in
            if trigger_bridge && (env.real_queue_push_enabled && not health.claims)
            then (raise bridge_failed, rolled_back sys started)
            else (ok response, sys')
      ]

  unfoldable pub stop_campaign :
      Health → ℕ → CampaignStatus → System → Result HttpError Response × System
  unfolding set_campaign_pause
  stop_campaign health campaign_id status sys =
      if not (stoppable status)
      then (raise bad_request, sys)
      else elim (set_campaign_pause health campaign_id sys.store) [
        | none ↦ (
          raise redis_unavailable,
          rolled_back sys (record sys { db = set_status campaign_id paused sys.db }),
        )
        | some s ↦ (
          ok (record { already = is_paused status; bridge_result = none }),
          record sys { db = set_status campaign_id paused sys.db; store = s },
        )
      ]
