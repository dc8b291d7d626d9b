-- ===== src/PoolWorker/Assembly.antt =====
-- The pool's worker put together: the payloads of Validation, the sends of PoolWorker and the
-- records of Results, in the loop of Worker. The text of a result's error is an argument.
use senderplatformtest.Prelude.{
  ℕ, ◌<◌, ◌≡◌, false, Option, none, some, [], ◌⊎◌, String, length, Mem, ◌≤◌, All, refl,
}
use senderplatformtest.Redis.{kill_switch_key, Redis}
use senderplatformtest.Payloads.{MessageId, numbered, paired, WorkerPayload, WorkerResult}
use senderplatformtest.Validation.{QueueItem, validate_worker_payload, build_retry_queue_payload}
use senderplatformtest.Results.{Report, Db, update_message_attempt_result}
use senderplatformtest.Worker.{
  MultiAccountWorker, is_redis_truthy, queue_empty, Ports, Reading, queue_of, read_next_payload,
  run_once,
}
use senderplatformtest.Worker.Polling.{Found}
use senderplatformtest.Worker.Rounds.{QueueAfter, OthersKept, run_once_queues}
use senderplatformtest.Worker.Draining.{
  IsWork, CountsRetries, work_left, run_rounds, run_rounds-drain,
}
use senderplatformtest.Validation.Requeueing.{retry_counts}
use senderplatformtest.PoolWorker.{Surroundings, send_message}
use senderplatformtest.PoolWorker.Sending.{send_message-keeps_queues}

-- `_coerce_int` of a message id: `f"{campaign_id}:{contact_id}"` is no number.
unfoldable pub coerce_message_id : MessageId → Option ℕ
coerce_message_id (numbered n) = some n
coerce_message_id (paired campaign contact) = none

-- The call of update_message_attempt_result in `handle_result`.
unfoldable pub report_of : (WorkerResult → Option String) → WorkerPayload → WorkerResult → Report
report_of error_message payload result = record {
  message_id = coerce_message_id payload.message_id;
  attempt_no = payload.attempt;
  status = result.status;
  platform_message_id = result.platform_message_id;
  error_code = result.error_code;
  campaign_id = some payload.campaign_id;
  contact_id = some payload.contact_id;
  account_id = some payload.account_id;
  failure_reason = error_message result;
  success = some result.success;
}

module _ (redis : Redis QueueItem) (env : Surroundings)
    (error_message : WorkerResult → Option String) where
  open redis use {Store, get, items}

  unfoldable pub pool_ports : Ports redis Db
  pool_ports = record {
    validate = λ w raw. validate_worker_payload w.platform w.account_ids (some raw);
    send_message = λ payload s. send_message redis env payload s;
    update_result = λ payload result db.
        update_message_attempt_result (report_of error_message payload result) db;
    retry_item = build_retry_queue_payload;
  }

  -- One call of `run_once` of the pool's worker, with the kill switch off and a round-robin index in
  -- range. Either every queue of the worker is empty and nothing changes, or one entry is read, the
  -- head of the first queue in the round that is not empty; every other queue stays as it is, and
  -- the entry's queue is as the outcome says: the entry is requeued where its account or campaign
  -- is paused, its retry is queued where the result is retryable below the limit, and else it is
  -- gone.
  pub pool_round_queues :
      (w : MultiAccountWorker) (s : Store) (db : Db)
      → is_redis_truthy (get kill_switch_key s) ≡ false
      → w.round_robin_index < length w.account_ids
      → let out = run_once redis pool_ports w s db in
        let w' = (read_next_payload redis w s).1 in
        let s' = (read_next_payload redis w s).2 in
        ((out ≡ (queue_empty, w, s, db))
          × ((a : ℕ) → Mem a w.account_ids → items (queue_of redis w a) s ≡ []))
        ⊎ ((r : Reading redis) × Found redis w s s' 0 (length w.account_ids) r
            × (out.1 ≡ w')
            × QueueAfter redis pool_ports w' r.account_id r.raw s' out.2 out.0
            × OthersKept redis pool_ports (queue_of redis w r.account_id) s out.2)
  unfolding pool_ports
  pool_round_queues w s db off h =
      run_once_queues redis pool_ports w s db off h
        (λ p t q b. send_message-keeps_queues redis env p t q b)

  pool_ports-CountsRetries : CountsRetries redis pool_ports
  unfolding pool_ports
  pool_ports-CountsRetries = record {
    ignores_index = λ w i raw. refl;
    counts = λ w raw payload. retry_counts w.platform w.account_ids raw payload;
  }

  -- Calls of `run_once` of the pool's worker one after another, with a round-robin index in range,
  -- none of them stopped by a kill switch or a paused account or campaign. After as many calls as
  -- there is work left at the start (an entry counts once, and once more for each attempt that its
  -- payload has below the limit), or more, the queue of every account of the worker is empty,
  -- whatever the sends and the retries were.
  pub pool_rounds-drain :
      (n : ℕ) (w : MultiAccountWorker) (s : Store) (db : Db)
      → w.round_robin_index < length w.account_ids
      → work_left redis pool_ports w s ≤ n
      → All IsWork (run_rounds redis pool_ports n w s db).0
      → (a : ℕ) → Mem a w.account_ids
      → items (queue_of redis w a) (run_rounds redis pool_ports n w s db).2 ≡ []
  unfolding pool_ports
  pool_rounds-drain =
      run_rounds-drain redis pool_ports pool_ports-CountsRetries
        (λ p t q b. send_message-keeps_queues redis env p t q b)
