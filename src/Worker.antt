-- ===== src/Worker.antt =====
-- A worker that polls the queues of several accounts: multi-messaging-platform/workers/retry.py and
-- workers/multi_account_worker.py. What a subclass or another module supplies (validation, sending,
-- the write of a result to the database, a retry's entry) is the record `Ports`, which
-- PoolWorker/Assembly fills for the WhatsApp pool; waiting is left out, and an outcome says how long
-- it is.
pub mod Polling
pub mod Rounds
pub mod Draining
use senderplatformtest.Prelude.{
  ℕ, zero, suc, ◌+◌, ◌-◌, ◌*◌, ◌%◌, ◌^◌, max, Bool, true, false, not, ◌&&◌, Option, none, some,
  List, [], ◌∷◌, String, ltb, leb, ◌==◌, if◌then◌else◌, length, get_elem?, Result, ok, raise,
  str_eq,
}
use senderplatformtest.Prelude.Text.{codes, strip, lower, text_eq}
use senderplatformtest.Prelude.Sort.{sorted, unique}
use senderplatformtest.Redis.{
  RedisKey, queue_key, kill_switch_key, account_pause_key, campaign_pause_key, Value, text, number,
  Redis,
}
use senderplatformtest.Payloads.{
  WorkerPayload, WorkerResult, WorkerException, payload_validation_error, other_exception,
}

-- `compute_retry_delay_seconds`, over whole units of the base delay; a base of 0 stands for those
-- that are not positive.
unfoldable pub compute_retry_delay_seconds : ℕ → ℕ → ℕ
compute_retry_delay_seconds attempt zero = 0
compute_retry_delay_seconds attempt (suc base) = suc base * 2 ^ (max attempt 1 - 1)

unfoldable pub should_schedule_retry : WorkerPayload → WorkerResult → ℕ → Bool
should_schedule_retry payload result max_retry_attempts =
    if leb max_retry_attempts 0
    then false
    else if not result.retryable
    then false
    else ltb payload.attempt max_retry_attempts

-- `is_redis_truthy` of workers/worker_runtime.py
unfoldable pub is_redis_truthy : Option Value → Bool
is_redis_truthy none = false
is_redis_truthy (some (number n)) = false
is_redis_truthy (some (text s)) = text_eq (lower (strip (codes s))) (codes "true")

pub record MultiAccountWorker : Type 0 where
  pub platform : String
  pub account_ids : List ℕ
  pub round_robin_index : ℕ
  pub max_retry_attempts : ℕ
  pub retry_base_delay_seconds : ℕ

-- `__init__`; the `ValueError` is `none`.
unfoldable pub new_worker : String → List ℕ → ℕ → ℕ → Option MultiAccountWorker
unfolding sorted unique
new_worker platform [] max_retries base = none
new_worker platform (a ∷ ids) max_retries base = some (record {
  platform = platform;
  account_ids = sorted (unique (a ∷ ids));
  round_robin_index = 0;
  max_retry_attempts = max_retries;
  retry_base_delay_seconds = base;
})

-- How a call of `run_once` ended.
pub data Outcome : Type 0 where
  paused_by_kill_switch : Outcome
  queue_empty : Outcome
  account_paused : ℕ → Outcome
  campaign_paused : ℕ → Outcome
  -- account, whether the message was sent off again, and the delay before that
  processed : ℕ → WorkerResult → Option ℕ → Outcome
  failed : ℕ → WorkerException → Outcome

module _ {Item : Type 0} (redis : Redis Item) where
  open redis use {Store, get, items, lpop, lpush, rpush}

  -- What a worker is built on, over a database `Db`.
  pub record Ports (Db : Type 0) : Type 0 where
    pub validate : MultiAccountWorker → Item → Result WorkerException WorkerPayload
    pub send_message : WorkerPayload → Store → Result WorkerException WorkerResult × Store
    -- `update_message_attempt_result`
    pub update_result : WorkerPayload → WorkerResult → Db → Result WorkerException Db
    -- `build_retry_queue_payload`
    pub retry_item : Item → WorkerPayload → Item

  abbrev pub queue_of : MultiAccountWorker → ℕ → RedisKey
  queue_of w account_id = queue_key w.platform account_id

  -- What was read: the index and the account it stands at, and the queue's entry.
  pub record Reading : Type 0 where
    pub index : ℕ
    pub account_id : ℕ
    pub raw : Item

  -- The loop of `read_next_payload` with `left` rounds to go.
  unfoldable pub scan : MultiAccountWorker → ℕ → ℕ → Store → Option Reading × Store
  scan w zero step s = (none, s)
  scan w (suc left) step s =
      let index = (w.round_robin_index + step) % length w.account_ids in
      elim (get_elem? w.account_ids index) [
        | none ↦ (none, s)
        | some account_id ↦
            let (popped, s') = lpop (queue_of w account_id) s in
            elim popped [
              | none ↦ scan w left (suc step) s'
              | some raw ↦ (some (record { index = index; account_id = account_id; raw = raw }), s')
            ]
      ]

  unfoldable pub read_next_payload :
      MultiAccountWorker → Store → Option Reading × MultiAccountWorker × Store
  read_next_payload w s =
      let (found, s') = scan w (length w.account_ids) 0 s in
      elim found [
        | none ↦ (none, w, s')
        | some r ↦
            (some r, record w { round_robin_index = (r.index + 1) % length w.account_ids }, s')
      ]

  module _ {Db : Type 0} (ports : Ports Db) where
    open ports use {validate, send_message, update_result, retry_item}

    -- `handle_result`, with `_schedule_retry`
    unfoldable pub handle_result :
        MultiAccountWorker
        → ℕ
        → Item
        → WorkerPayload
        → WorkerResult
        → Store
        → Db
        → Outcome × Store × Db
    handle_result w account_id raw payload result s db = elim (update_result payload result db) [
      | raise e ↦ (failed account_id e, s, db)
      | ok db' ↦
          if should_schedule_retry payload result w.max_retry_attempts
          then (
            processed account_id result (
                some
                  (compute_retry_delay_seconds (payload.attempt + 1) w.retry_base_delay_seconds)),
            rpush (queue_of w account_id) (retry_item raw payload) s,
            db',
          )
          else (processed account_id result none, s, db')
    ]

    -- the part after validation
    unfoldable pub deliver :
        MultiAccountWorker → ℕ → Item → WorkerPayload → Store → Db → Outcome × Store × Db
    deliver w account_id raw payload s db =
        if is_redis_truthy (get (campaign_pause_key payload.campaign_id) s)
        then (campaign_paused account_id, lpush (queue_of w account_id) raw s, db)
        else let (sent, s') = send_message payload s in
          elim sent [
            | raise e ↦ (failed account_id e, s', db)
            | ok result ↦ handle_result w account_id raw payload result s' db
          ]

    -- the part after a payload was read
    unfoldable pub process : MultiAccountWorker → ℕ → Item → Store → Db → Outcome × Store × Db
    process w account_id raw s db =
        if is_redis_truthy (get (account_pause_key account_id) s)
        then (account_paused account_id, rpush (queue_of w account_id) raw s, db)
        else elim (validate w raw) [
          | raise e ↦ (failed account_id e, s, db)
          | ok payload ↦ deliver w account_id raw payload s db
        ]

    unfoldable pub run_once :
        MultiAccountWorker → Store → Db → Outcome × MultiAccountWorker × Store × Db
    run_once w s db =
        if is_redis_truthy (get kill_switch_key s)
        then (paused_by_kill_switch, w, s, db)
        else let (found, w', s') = read_next_payload w s in
          elim found [
            | none ↦ (queue_empty, w', s', db)
            | some r ↦
                let (outcome, s'', db') = process w' r.account_id r.raw s' db in
                (outcome, w', s'', db')
          ]
