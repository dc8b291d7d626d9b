-- ===== src/SingleWorker/Matching.antt =====
-- The worker of one account against the worker of several.
use senderplatformtest.Prelude.{
  ◌+◌, ◌%◌, ◌≡◌, refl, sym, ap, ◌∙◌, true, false, Option, none, some, [], ◌∷◌, arith, Bool-cases,
  Option-cases, Result-cases, inl, inr,
}
use senderplatformtest.Redis.{kill_switch_key, account_pause_key, campaign_pause_key, Redis}
use senderplatformtest.Payloads.{WorkerPayload, WorkerResult}
use senderplatformtest.Validation.{QueueItem, payload_of, is_acceptable, validate_worker_payload}
use senderplatformtest.Worker.{
  MultiAccountWorker, Ports, Outcome, is_redis_truthy, should_schedule_retry,
}
use senderplatformtest.SingleWorker.{
  BaseWorker, SinglePorts, single_report, check_payload, validate_payload, get_queue_key,
  handle_result, deliver, process, run_once,
}
use senderplatformtest.Worker

-- The worker of one account accepts the entries that the shared validation accepts for that account
-- alone, and makes the same payloads of them.
pub validate_payload-agrees :
    (w : BaseWorker) (raw : Option QueueItem)
    → validate_payload w raw ≡ validate_worker_payload w.platform (w.account_id ∷ []) raw
unfolding validate_payload check_payload validate_worker_payload is_acceptable payload_of
validate_payload-agrees w none = refl
validate_payload-agrees w (some item) = ground arith

-- The worker of several accounts that polls one account and never retries.
abbrev pub of_one : BaseWorker → MultiAccountWorker
of_one w = record {
  platform = w.platform;
  account_ids = w.account_id ∷ [];
  round_robin_index = 0;
  max_retry_attempts = 0;
  retry_base_delay_seconds = 0;
}

module _ {Item : Type 0} (redis : Redis Item) {Db : Type 0} (ports : SinglePorts redis Db)
    (retry_item : Item → WorkerPayload → Item) where
  open redis use {Store, get, items, lpop, get-lpop}

  abbrev pub ports_of_one : Ports redis Db
  ports_of_one = record {
    validate = λ w raw. ports.validate raw;
    send_message = ports.send_message;
    update_result = λ payload result db. ports.update_result (single_report payload result) db;
    retry_item = retry_item;
  }

  handle_result-agrees :
      (w : BaseWorker) (raw : Item) (payload : WorkerPayload) (result : WorkerResult) (s : Store)
      (db : Db)
      → Worker.handle_result redis ports_of_one (of_one w) w.account_id raw payload result s db
        ≡ handle_result redis ports w payload result s db
  unfolding Worker.handle_result handle_result should_schedule_retry
  handle_result-agrees w raw payload result s db =
      elim (Result-cases (ports.update_result (single_report payload result) db)) [
        | inl (db', done) ↦ rw (Worker.handle_result, handle_result, done)
        | inr (e, failing) ↦ rw (Worker.handle_result, handle_result, failing)
      ]

  deliver-agrees :
      (w : BaseWorker) (raw : Item) (payload : WorkerPayload) (s : Store) (db : Db)
      → Worker.deliver redis ports_of_one (of_one w) w.account_id raw payload s db
        ≡ deliver redis ports w raw payload s db
  unfolding Worker.deliver deliver
  deliver-agrees w raw payload s db =
      elim (Bool-cases (is_redis_truthy (get (campaign_pause_key payload.campaign_id) s))) [
        | inl t ↦ rw (Worker.deliver, deliver, t)
        | inr f ↦ elim (Result-cases (ports.send_message payload s).0) [
          | inl (result, sent) ↦
              rw (Worker.deliver, deliver, f, sent)
                (handle_result-agrees w raw payload result (ports.send_message payload s).1 db)
          | inr (e, failing) ↦ rw (Worker.deliver, deliver, f, failing)
        ]
      ]

  process-agrees :
      (w : BaseWorker) (raw : Item) (s : Store) (db : Db)
      → is_redis_truthy (get (account_pause_key w.account_id) s) ≡ false
      → Worker.process redis ports_of_one (of_one w) w.account_id raw s db
        ≡ process redis ports w (some raw) s db
  unfolding Worker.process process
  process-agrees w raw s db running = elim (Result-cases (ports.validate raw)) [
    | inl (payload, valid) ↦
        rw (Worker.process, process, running, valid) (deliver-agrees w raw payload s db)
    | inr (e, invalid) ↦ rw (Worker.process, process, running, invalid)
  ]

  scan_one-empty :
      (w : BaseWorker) (s : Store)
      → (lpop (get_queue_key redis w) s).0 ≡ none
      → Worker.scan redis (of_one w) 1 0 s ≡ (none, (lpop (get_queue_key redis w) s).1)
  unfolding Worker.scan
  scan_one-empty w s empty = rw empty refl

  scan_one-popped :
      (w : BaseWorker) (raw : Item) (s : Store)
      → (lpop (get_queue_key redis w) s).0 ≡ some raw
      → Worker.scan redis (of_one w) 1 0 s ≡ (
        some (record { index = 0; account_id = w.account_id; raw = raw }),
        (lpop (get_queue_key redis w) s).1,
      )
  unfolding Worker.scan
  scan_one-popped w raw s popped = rw popped refl

  -- What `read_next_payload` and `run_once` do with what they have read.
  abbrev advanced :
      BaseWorker
      → Option (Worker.Reading redis) × Store
      → Option (Worker.Reading redis) × MultiAccountWorker × Store
  advanced w (found, s') = elim found [
    | none ↦ (none, of_one w, s')
    | some r ↦ (some r, record (of_one w) { round_robin_index = (r.index + 1) % 1 }, s')
  ]

  abbrev ran :
      Db
      → Option (Worker.Reading redis) × MultiAccountWorker × Store
      → Outcome × MultiAccountWorker × Store × Db
  ran db (found, w', s') = elim found [
    | none ↦ (Worker.queue_empty, w', s', db)
    | some r ↦
        let (outcome, s'', db') = Worker.process redis ports_of_one w' r.account_id r.raw s' db in
        (outcome, w', s'', db')
  ]

  abbrev pub ended : Outcome × MultiAccountWorker × Store × Db → Outcome × Store × Db
  ended out = (out.0, out.2, out.3)

  read_one :
      (w : BaseWorker) (s : Store)
      → Worker.read_next_payload redis (of_one w) s
        ≡ advanced w (Worker.scan redis (of_one w) 1 0 s)
  unfolding Worker.read_next_payload
  read_one w s = refl

  run_one :
      (w : BaseWorker) (s : Store) (db : Db)
      → is_redis_truthy (get kill_switch_key s) ≡ false
      → Worker.run_once redis ports_of_one (of_one w) s db
        ≡ ran db (advanced w (Worker.scan redis (of_one w) 1 0 s))
  unfolding Worker.run_once
  run_one w s db off =
      let same : Worker.run_once redis ports_of_one (of_one w) s db
          ≡ ran db (Worker.read_next_payload redis (of_one w) s) =
        rw (Worker.run_once, off) refl in
      same ∙ ap (ran db) (read_one w s)

  single :
      (w : BaseWorker) (s : Store) (db : Db) (o : Option Item)
      → is_redis_truthy (get kill_switch_key s) ≡ false
      → is_redis_truthy (get (account_pause_key w.account_id) s) ≡ false
      → (lpop (get_queue_key redis w) s).0 ≡ o
      → run_once redis ports w s db ≡ process redis ports w o (lpop (get_queue_key redis w) s).1 db
  unfolding run_once
  single w s db o off running popped =
      let same : run_once redis ports w s db
          ≡ process redis ports w (lpop (get_queue_key redis w) s).0
              (lpop (get_queue_key redis w) s).1 db =
        rw (run_once, off, running) refl in
      same ∙ ap (λ x. process redis ports w x (lpop (get_queue_key redis w) s).1 db) popped

  both_stopped :
      (w : BaseWorker) (s : Store) (db : Db)
      → is_redis_truthy (get kill_switch_key s) ≡ true
      → run_once redis ports w s db ≡ ended (Worker.run_once redis ports_of_one (of_one w) s db)
  unfolding run_once Worker.run_once
  both_stopped w s db on = rw (run_once, Worker.run_once, on)

  -- Where its account is not paused, a call of `run_once` of the worker of one account ends as a
  -- call of the worker of several accounts does that polls that account only, has no retries, and
  -- names neither the account nor a reason for a failure in its reports: with the same outcome, the
  -- same store and the same database.
  pub run_once-agrees :
      (w : BaseWorker) (s : Store) (db : Db)
      → is_redis_truthy (get (account_pause_key w.account_id) s) ≡ false
      → run_once redis ports w s db ≡ ended (Worker.run_once redis ports_of_one (of_one w) s db)
  unfolding process
  run_once-agrees w s db running = elim (Bool-cases (is_redis_truthy (get kill_switch_key s))) [
    | inl t ↦ both_stopped w s db t
    | inr off ↦ elim (Option-cases (lpop (get_queue_key redis w) s).0) [
      | inl empty ↦
          single w s db none off running empty
          ∙ sym (
              ap ended
                (run_one w s db off ∙ ap (λ r. ran db (advanced w r)) (scan_one-empty w s empty)))
      | inr (raw, popped) ↦
          let still : is_redis_truthy
                (get (account_pause_key w.account_id) (lpop (get_queue_key redis w) s).1)
              ≡ false =
            ap is_redis_truthy (get-lpop (get_queue_key redis w) (account_pause_key w.account_id) s)
            ∙ running in
          single w s db (some raw) off running popped
          ∙ sym (process-agrees w raw (lpop (get_queue_key redis w) s).1 db still)
          ∙ sym (
              ap ended (
                run_one w s db off
                ∙ ap (λ r. ran db (advanced w r)) (scan_one-popped w raw s popped)))
    ]
  ]
