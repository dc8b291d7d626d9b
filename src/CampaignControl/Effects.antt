-- ===== src/CampaignControl/Effects.antt =====
-- A start and a stop against the workers' checks and the bridge.
use senderplatformtest.Prelude.{ℕ, ◌≡◌, Bool, true, false, ◌&&◌, none, some, arith, ok, raise, ◌⊎◌}
use senderplatformtest.Redis.{campaign_pause_key, text, Redis}
use senderplatformtest.Platform.{CampaignStatus, paused, running}
use senderplatformtest.Worker.{is_redis_truthy}
use senderplatformtest.QueueBridge.{StagedQueueItem, Entry, Environment, claimable}
use senderplatformtest.QueueBridge.Pushing.{push_staged-get}
use senderplatformtest.CampaignControl.{
  HttpError, bad_request, redis_unavailable, stoppable, set_status, Response, Health, System,
  pause_command, clear_campaign_pause, set_campaign_pause, bridge, start_campaign, stop_campaign,
}

module _ (redis : Redis Entry) (health : Health) (env : Environment) (trigger : Bool) (id : ℕ)
    (status : CampaignStatus) (sys : System redis) where
  open redis use {Store, get, get-set_self, get-delete_self}

  -- A stop that returns leaves the campaign PAUSED, with a pause key that the workers' check reads as
  -- true, and none of the campaign's rows claimable for the bridge, whatever their state.
  pub stop_campaign_halts :
      (r : Response)
      → (stop_campaign redis health id status sys).0 ≡ ok r
      → let sys' = (stop_campaign redis health id status sys).1 in
        (sys'.db.campaign_status id ≡ some paused)
        × (is_redis_truthy (get (campaign_pause_key id) sys'.store) ≡ true)
        × ((item : StagedQueueItem) → item.campaign_id ≡ id → claimable env sys'.db item ≡ false)
  unfolding stop_campaign set_campaign_pause pause_command is_redis_truthy claimable
  stop_campaign_halts r e = (
    ground arith,
    ground (arith, get-set_self (campaign_pause_key id) (text "true") sys.store),
    λ item same. ground arith,
  )

  -- A start that returns leaves the campaign RUNNING, and its pause key is not read as true by the
  -- workers' check, also behind the call of the bridge.
  pub start_campaign_runs :
      (r : Response)
      → (start_campaign redis health env trigger id status sys).0 ≡ ok r
      → let sys' = (start_campaign redis health env trigger id status sys).1 in
        (sys'.db.campaign_status id ≡ some running)
        × (is_redis_truthy (get (campaign_pause_key id) sys'.store) ≡ false)
  unfolding start_campaign clear_campaign_pause pause_command is_redis_truthy bridge
  start_campaign_runs r e =
      let k = campaign_pause_key id in
      let s = redis.delete k sys.store in
      let gone : get k s ≡ none = get-delete_self k sys.store in
      (
        ground arith,
        ground (
          arith,
          gone,
          push_staged-get redis env (set_status id running sys.db) 500 sys.items s k,
        ),
      )

  -- A stop that raises changes nothing. It raises a 400 for a status that cannot be stopped, and a
  -- 503 only where Redis does not answer.
  pub stop_campaign_errors :
      (e : HttpError)
      → (stop_campaign redis health id status sys).0 ≡ raise e
      → ((stop_campaign redis health id status sys).1 ≡ sys)
        × (((e ≡ bad_request) × (stoppable status ≡ false))
            ⊎ ((e ≡ redis_unavailable) × (health.ping && health.answers ≡ false)))
  unfolding stop_campaign set_campaign_pause pause_command
  stop_campaign_errors e h = (ground arith, ground arith)
