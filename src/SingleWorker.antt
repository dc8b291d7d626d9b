-- ===== src/SingleWorker.antt =====
-- A worker of one account: multi-messaging-platform/workers/base_worker.py. As for the worker of
-- several accounts, what a subclass or another module supplies (sending, the write of a result) is a
-- record; the outcomes are the same. `handle_error` only logs, so that it is the outcome `failed`.
pub mod Matching
use senderplatformtest.Prelude.{
  ℕ, ◌+◌, Bool, true, false, not, Option, none, some, List, String, ◌==◌, if◌then◌else◌, Result, ok,
  raise,
}
use senderplatformtest.Prelude.Text.{codes, text_eq}
use senderplatformtest.Redis.{
  RedisKey, queue_key, kill_switch_key, account_pause_key, campaign_pause_key, Redis,
}
use senderplatformtest.Payloads.{
  WorkerPayload, WorkerResult, WorkerException, payload_validation_error,
}
use senderplatformtest.Validation.{QueueItem, has_required, payload_of, platform_text, is_blank}
use senderplatformtest.Results.{Report}
use senderplatformtest.PoolWorker.Assembly.{coerce_message_id}
use senderplatformtest.Worker.{
  Outcome, paused_by_kill_switch, queue_empty, account_paused, campaign_paused, processed, failed,
  is_redis_truthy,
}

pub record BaseWorker : Type 0 where
  pub platform : String
  pub account_id : ℕ

-- `validate_payload` after the required fields
unfoldable pub check_payload : BaseWorker → QueueItem → Result WorkerException WorkerPayload
check_payload w item =
    let payload = payload_of w.platform item in
    if not (text_eq (platform_text item) (codes w.platform))
    then raise payload_validation_error
    else if not (payload.account_id == w.account_id)
    then raise payload_validation_error
    else if is_blank payload.recipient
    then raise payload_validation_error
    else if is_blank payload.message_text
    then raise payload_validation_error
    else if is_blank payload.dedupe_key
    then raise payload_validation_error
    else ok payload

-- `validate_payload`; an entry that is no JSON object is none.
unfoldable pub validate_payload :
    BaseWorker → Option QueueItem → Result WorkerException WorkerPayload
validate_payload w none = raise payload_validation_error
validate_payload w (some item) =
    if not (has_required item) then raise payload_validation_error else check_payload w item

-- The call of update_message_attempt_result in `handle_result`, which gives neither the account nor a
-- reason for a failure.
unfoldable pub single_report : WorkerPayload → WorkerResult → Report
single_report payload result = record {
  message_id = coerce_message_id payload.message_id;
  attempt_no = payload.attempt;
  status = result.status;
  platform_message_id = result.platform_message_id;
  error_code = result.error_code;
  campaign_id = some payload.campaign_id;
  contact_id = some payload.contact_id;
  account_id = none;
  failure_reason = none;
  success = some result.success;
}

module _ {Item : Type 0} (redis : Redis Item) where
  open redis use {Store, get, lpop, lpush}

  -- What a worker is built on, over a database `Db`.
  pub record SinglePorts (Db : Type 0) : Type 0 where
    pub validate : Item → Result WorkerException WorkerPayload
    pub send_message : WorkerPayload → Store → Result WorkerException WorkerResult × Store
    -- `update_message_attempt_result`
    pub update_result : Report → Db → Result WorkerException Db

  abbrev pub get_queue_key : BaseWorker → RedisKey
  get_queue_key w = queue_key w.platform w.account_id

  module _ {Db : Type 0} (ports : SinglePorts Db) where
    open ports use {validate, send_message, update_result}

    -- `handle_result`, which sends nothing off again
    unfoldable pub handle_result :
        BaseWorker → WorkerPayload → WorkerResult → Store → Db → Outcome × Store × Db
    handle_result w payload result s db = elim (update_result (single_report payload result) db) [
      | raise e ↦ (failed w.account_id e, s, db)
      | ok db' ↦ (processed w.account_id result none, s, db')
    ]

    -- the part after validation, with `check_campaign_paused`
    unfoldable pub deliver : BaseWorker → Item → WorkerPayload → Store → Db → Outcome × Store × Db
    deliver w raw payload s db =
        if is_redis_truthy (get (campaign_pause_key payload.campaign_id) s)
        then (campaign_paused w.account_id, lpush (get_queue_key w) raw s, db)
        else let (sent, s') = send_message payload s in
          elim sent [
            | raise e ↦ (failed w.account_id e, s', db)
            | ok result ↦ handle_result w payload result s' db
          ]

    unfoldable pub process : BaseWorker → Option Item → Store → Db → Outcome × Store × Db
    process w none s db = (queue_empty, s, db)
    process w (some raw) s db = elim (validate raw) [
      | raise e ↦ (failed w.account_id e, s, db)
      | ok payload ↦ deliver w raw payload s db
    ]

    unfoldable pub run_once : BaseWorker → Store → Db → Outcome × Store × Db
    run_once w s db =
        if is_redis_truthy (get kill_switch_key s)
        then (paused_by_kill_switch, s, db)
        else if is_redis_truthy (get (account_pause_key w.account_id) s)
        then (account_paused w.account_id, s, db)
        else let (popped, s') = lpop (get_queue_key w) s in process w popped s' db
