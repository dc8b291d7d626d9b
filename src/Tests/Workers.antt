-- ===== src/Tests/Workers.antt =====
-- The workers' theorems at concrete stores.
use senderplatformtest.Prelude.{
  ℕ, suc, ◌+◌, ◌%◌, ◌≤◌, ◌<◌, ◌≡◌, refl, true, false, Option, none, some, List, [], ◌∷◌, String, ok,
  length, Mem, arith, ◌⊎◌,
}
use senderplatformtest.Redis.{queue_key, whatsapp_browser_lock_key, kill_switch_key, Redis}
use senderplatformtest.Redis.Memory.{Memory, memory, nothing}
use senderplatformtest.Payloads.{WorkerResult}
use senderplatformtest.Validation.{QueueItem}
use senderplatformtest.RateLimit.{get_daily_count, can_send_daily}
use senderplatformtest.Worker.{
  Reading, queue_of, queue_empty, read_next_payload, run_once, is_redis_truthy,
}
use senderplatformtest.Worker.Polling.{Found, read_next_payload-fair}
use senderplatformtest.Worker.Rounds.{KeepsQueues, QueueAfter, OthersKept, run_once_queues}
use senderplatformtest.PoolWorker.{send_message}
use senderplatformtest.PoolWorker.Sending.{
  send_message-keeps_queues, send_message-lock_kept, send_message-daily_cap,
}
use senderplatformtest.PoolWorker.Assembly.{pool_ports}
use senderplatformtest.Tests.{payload, account, surroundings, queue_item, worker, no_rows}

abbrev pub redis : Redis QueueItem
redis = memory QueueItem

-- One entry waits for account 1.
abbrev pub store : Memory QueueItem
store = redis.rpush (queue_key "whatsapp" 1) queue_item nothing

abbrev pub no_reason : WorkerResult → Option String
no_reason result = none

abbrev active_ids : List ℕ
active_ids = 5 ∷ 4 ∷ 5 ∷ []

off : is_redis_truthy (redis.get kill_switch_key store) ≡ false
unfolding is_redis_truthy
off = refl

keeps : KeepsQueues redis (pool_ports redis surroundings no_reason)
unfolding pool_ports
keeps p s q b = send_message-keeps_queues redis surroundings p s q b

send_message-lock_kept_example :
    redis.get
      (whatsapp_browser_lock_key payload.account_id)
      (send_message redis surroundings payload store).1
    ≡ redis.get (whatsapp_browser_lock_key payload.account_id) store
send_message-lock_kept_example = send_message-lock_kept redis surroundings payload store

send_message-daily_cap_example :
    let out = send_message redis surroundings payload store in
    let before = get_daily_count redis surroundings.day payload.account_id store in
    let after = get_daily_count redis surroundings.day payload.account_id out.1 in
    let cap =
      (can_send_daily redis surroundings.day surroundings.worker_settings.whatsapp_daily_send_cap
        account store).2 in
    (after ≡ before)
    ⊎ ((after ≡ suc before)
        × (after ≤ cap)
        × ((r : WorkerResult) × (out.0 ≡ ok r) × (r.success ≡ true)))
send_message-daily_cap_example =
    send_message-daily_cap redis surroundings payload store account refl refl tt

read_next_payload-fair_example :
    let out = read_next_payload redis worker store in
    ((out.0 ≡ none)
      × (out.1 ≡ worker)
      × (out.2 ≡ store)
      × ((a : ℕ) → Mem a worker.account_ids → redis.items (queue_of redis worker a) store ≡ []))
    ⊎ ((r : Reading redis) × (out.0 ≡ some r)
        × Found redis worker store out.2 0 (length worker.account_ids) r
        × (out.1 ≡ record worker { round_robin_index = (r.index + 1) % length worker.account_ids })
        × (out.1.round_robin_index < length worker.account_ids))
read_next_payload-fair_example = read_next_payload-fair redis worker store (omega arith)

run_once_queues_example :
    let out = run_once redis (pool_ports redis surroundings no_reason) worker store no_rows in
    let w' = (read_next_payload redis worker store).1 in
    let s' = (read_next_payload redis worker store).2 in
    ((out ≡ (queue_empty, worker, store, no_rows))
      × ((a : ℕ) → Mem a worker.account_ids → redis.items (queue_of redis worker a) store ≡ []))
    ⊎ ((r : Reading redis) × Found redis worker store s' 0 (length worker.account_ids) r
        × (out.1 ≡ w')
        × QueueAfter redis
            (pool_ports redis surroundings no_reason)
            w'
            r.account_id
            r.raw
            s'
            out.2
            out.0
        × OthersKept redis
            (pool_ports redis surroundings no_reason)
            (queue_of redis worker r.account_id)
            store
            out.2)
run_once_queues_example =
    run_once_queues redis (pool_ports redis surroundings no_reason) worker store no_rows off
      (omega arith) keeps
