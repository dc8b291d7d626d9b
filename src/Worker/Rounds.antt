-- ===== src/Worker/Rounds.antt =====
-- What one call of `run_once` does to the queues, on every path.
use senderplatformtest.Prelude.{
  ℕ, zero, suc, ◌+◌, ◌*◌, ◌-◌, max, ◌≤◌, ◌<◌, ◌≡◌, ◌≢◌, refl, ap, ◌∙◌, true, false, none, some, [],
  ◌∷◌, ◌++◌, arith, ok, raise, ◌⊎◌, inl, inr, Bool-cases, Result-cases, String, length, Mem,
}
use native.Mathlib.Nat.{pow-suc}
use native.Mathlib.Numerals.{add-one}
use senderplatformtest.Redis.{
  RedisKey, queue_key, kill_switch_key, account_pause_key, campaign_pause_key, Redis,
}
use senderplatformtest.Payloads.{WorkerPayload, WorkerResult, WorkerException}
use senderplatformtest.Worker.Polling.{Found, read_next_payload-fair}
use senderplatformtest.Worker.{
  compute_retry_delay_seconds, should_schedule_retry, is_redis_truthy, MultiAccountWorker, Outcome,
  paused_by_kill_switch, queue_empty, account_paused, campaign_paused, processed, failed, Ports,
  Reading, queue_of, read_next_payload, handle_result, deliver, process, run_once,
}

-- A retry is asked for by a retryable result and stays below the limit.
pub should_schedule_retry_lem :
    (payload : WorkerPayload) (result : WorkerResult) (limit : ℕ)
    → should_schedule_retry payload result limit ≡ true
    → (result.retryable ≡ true) × (payload.attempt < limit)
unfolding should_schedule_retry
should_schedule_retry_lem payload result limit h = ground arith

-- Each further attempt waits twice as long as the one before.
pub retry_delay_doubles :
    (attempt base : ℕ)
    → 1 ≤ attempt
    → compute_retry_delay_seconds (suc attempt) base ≡ compute_retry_delay_seconds attempt base * 2
unfolding compute_retry_delay_seconds
retry_delay_doubles attempt zero h = refl
retry_delay_doubles zero (suc base) h = elim h [ ]
retry_delay_doubles (suc k) (suc base) h =
    let more : max (suc (suc k)) 1 - 1 ≡ suc k = omega arith in
    let less : max (suc k) 1 - 1 ≡ k = omega arith in rw (more, less, pow-suc) (omega arith)

module _ {Item Db : Type 0} (redis : Redis Item) (ports : Ports redis Db) where
  open redis use {
    Store, get, items, lpush, rpush, items-lpush_self, items-lpush_ne, items-rpush_self,
    items-rpush_ne,
  }
  open ports use {validate, send_message, update_result, retry_item}

  -- Sending leaves the workers' queues alone.
  abbrev pub KeepsQueues : Type 0
  KeepsQueues =
      (p : WorkerPayload) (s : Store) (q : String) (b : ℕ)
      → items (queue_key q b) (send_message p s).1 ≡ items (queue_key q b) s

  -- Neither the account nor the campaign of the entry's payload is paused.
  abbrev pub Unpaused : MultiAccountWorker → ℕ → Item → Store → Type 0
  Unpaused w a raw s =
      (is_redis_truthy (get (account_pause_key a) s) ≡ false)
      × ((p : WorkerPayload) × (validate w raw ≡ ok p)
          × (is_redis_truthy (get (campaign_pause_key p.campaign_id) s) ≡ false))

  -- What becomes of the entry that was read, by outcome: `s` is the store after the read, and `s'`
  -- the one at the end.
  abbrev pub QueueAfter : MultiAccountWorker → ℕ → Item → Store → Store → Outcome → Type 0
  QueueAfter w a raw s s' paused_by_kill_switch = ⊥
  QueueAfter w a raw s s' queue_empty = ⊥
  QueueAfter w a raw s s' (account_paused b) =
      (b ≡ a)
      × (items (queue_of redis w a) s' ≡ items (queue_of redis w a) s ++ raw ∷ [])
      × (is_redis_truthy (get (account_pause_key a) s) ≡ true)
  QueueAfter w a raw s s' (campaign_paused b) =
      (b ≡ a)
      × (items (queue_of redis w a) s' ≡ raw ∷ items (queue_of redis w a) s)
      × (is_redis_truthy (get (account_pause_key a) s) ≡ false)
      × ((p : WorkerPayload) × (validate w raw ≡ ok p)
          × (is_redis_truthy (get (campaign_pause_key p.campaign_id) s) ≡ true))
  QueueAfter w a raw s s' (processed b result none) =
      (b ≡ a) × (items (queue_of redis w a) s' ≡ items (queue_of redis w a) s) × Unpaused w a raw s
  QueueAfter w a raw s s' (processed b result (some delay)) =
      (b ≡ a)
      × Unpaused w a raw s
      × ((p : WorkerPayload) × (validate w raw ≡ ok p)
          × (p.attempt < w.max_retry_attempts)
          × (result.retryable ≡ true)
          × (items (queue_of redis w a) s' ≡ items (queue_of redis w a) s ++ retry_item raw p ∷ [])
          × (delay ≡ compute_retry_delay_seconds (suc p.attempt) w.retry_base_delay_seconds))
  QueueAfter w a raw s s' (failed b e) =
      (b ≡ a)
      × (items (queue_of redis w a) s' ≡ items (queue_of redis w a) s)
      × (((x : WorkerException) × (validate w raw ≡ raise x)
            × (is_redis_truthy (get (account_pause_key a) s) ≡ false))
          ⊎ Unpaused w a raw s)

  abbrev pub OthersKept : RedisKey → Store → Store → Type 0
  OthersKept k s s' =
      (q : String) (b : ℕ) → queue_key q b ≢ k → items (queue_key q b) s' ≡ items (queue_key q b) s

  module _ (w : MultiAccountWorker) (a : ℕ) (raw : Item) where
    retried :
        (p : WorkerPayload) (result : WorkerResult) (s : Store) (db db' : Db)
        → update_result p result db ≡ ok db'
        → should_schedule_retry p result w.max_retry_attempts ≡ true
        → handle_result redis ports w a raw p result s db ≡ (
          processed a result
              (some (compute_retry_delay_seconds (p.attempt + 1) w.retry_base_delay_seconds)),
          rpush (queue_of redis w a) (retry_item raw p) s,
          db',
        )
    unfolding handle_result
    retried p result s db db' saved again = rw (handle_result, saved, again)

    not_retried :
        (p : WorkerPayload) (result : WorkerResult) (s : Store) (db db' : Db)
        → update_result p result db ≡ ok db'
        → should_schedule_retry p result w.max_retry_attempts ≡ false
        → handle_result redis ports w a raw p result s db ≡ (processed a result none, s, db')
    unfolding handle_result
    not_retried p result s db db' saved done = rw (handle_result, saved, done)

    lost_result :
        (p : WorkerPayload) (result : WorkerResult) (s : Store) (db : Db) (e : WorkerException)
        → update_result p result db ≡ raise e
        → handle_result redis ports w a raw p result s db ≡ (failed a e, s, db)
    unfolding handle_result
    lost_result p result s db e lost = rw (handle_result, lost)

    handle_result_lem :
        (p : WorkerPayload) (result : WorkerResult) (s s' : Store) (db : Db)
        → validate w raw ≡ ok p
        → Unpaused w a raw s
        → ((q : String) (b : ℕ) → items (queue_key q b) s' ≡ items (queue_key q b) s)
        → let out = handle_result redis ports w a raw p result s' db in
          QueueAfter w a raw s out.1 out.0 × OthersKept (queue_of redis w a) s out.1
    handle_result_lem p result s s' db valid free same =
        elim (Result-cases (update_result p result db)) [
          | inr (e, lost) ↦
              rw (lost_result p result s' db e lost)
                ((refl, same w.platform a, inr free), λ q b ne. same q b)
          | inl (db', saved) ↦
              elim (Bool-cases (should_schedule_retry p result w.max_retry_attempts)) [
                | inr done ↦
                    rw (not_retried p result s' db db' saved done)
                      ((refl, same w.platform a, free), λ q b ne. same q b)
                | inl again ↦
                    let (retryable, below) =
                      should_schedule_retry_lem p result w.max_retry_attempts again in
                    rw (retried p result s' db db' saved again) (
                      (
                        refl,
                        free,
                        (
                          p,
                          valid,
                          below,
                          retryable,
                          items-rpush_self (queue_of redis w a) (retry_item raw p) s'
                              ∙ ap (λ l. l ++ retry_item raw p ∷ []) (same w.platform a),
                          rw add-one,
                        ),
                      ),
                      λ q b ne.
                          items-rpush_ne (queue_of redis w a) (queue_key q b) (retry_item raw p) s'
                            ne
                          ∙ same q b,
                    )
              ]
        ]

    deliver_lem :
        (p : WorkerPayload) (s : Store) (db : Db)
        → KeepsQueues
        → validate w raw ≡ ok p
        → is_redis_truthy (get (account_pause_key a) s) ≡ false
        → let out = deliver redis ports w a raw p s db in
          QueueAfter w a raw s out.1 out.0 × OthersKept (queue_of redis w a) s out.1
    deliver_lem p s db keeps valid active =
        elim (Bool-cases (is_redis_truthy (get (campaign_pause_key p.campaign_id) s))) [
          | inl paused ↦
              let e : deliver redis ports w a raw p s db
                  ≡ (campaign_paused a, lpush (queue_of redis w a) raw s, db) =
                unfold deliver in rw (deliver, paused) in
              rw e (
                (refl, items-lpush_self (queue_of redis w a) raw s, active, (p, valid, paused)),
                λ q b ne. items-lpush_ne (queue_of redis w a) (queue_key q b) raw s ne,
              )
          | inr running ↦ elim (Result-cases (send_message p s).0) [
            | inr (x, lost) ↦
                let e : deliver redis ports w a raw p s db
                    ≡ (failed a x, (send_message p s).1, db) =
                  unfold deliver in rw (deliver, running, lost) in
                rw e (
                  (refl, keeps p s w.platform a, inr (active, (p, valid, running))),
                  λ q b ne. keeps p s q b,
                )
            | inl (result, sent) ↦
                let e : deliver redis ports w a raw p s db
                    ≡ handle_result redis ports w a raw p result (send_message p s).1 db =
                  unfold deliver in rw (deliver, running, sent) in
                rw e (
                  handle_result_lem p result s (send_message p s).1 db valid
                    (active, (p, valid, running)) (keeps p s))
          ]
        ]

    -- The queues after an entry has been read, whatever happens to it.
    pub process_lem :
        (s : Store) (db : Db)
        → KeepsQueues
        → let out = process redis ports w a raw s db in
          QueueAfter w a raw s out.1 out.0 × OthersKept (queue_of redis w a) s out.1
    process_lem s db keeps = elim (Bool-cases (is_redis_truthy (get (account_pause_key a) s))) [
      | inl paused ↦
          let e : process redis ports w a raw s db
              ≡ (account_paused a, rpush (queue_of redis w a) raw s, db) =
            unfold process in rw (process, paused) in
          rw e (
            (refl, items-rpush_self (queue_of redis w a) raw s, paused),
            λ q b ne. items-rpush_ne (queue_of redis w a) (queue_key q b) raw s ne,
          )
      | inr running ↦ elim (Result-cases (validate w raw)) [
        | inr (x, invalid) ↦
            let e : process redis ports w a raw s db ≡ (failed a x, s, db) =
              unfold process in rw (process, running, invalid) in
            rw e ((refl, refl, inl (x, invalid, running)), λ q b ne. refl)
        | inl (p, valid) ↦
            let e : process redis ports w a raw s db ≡ deliver redis ports w a raw p s db =
              unfold process in rw (process, running, valid) in
            rw e (deliver_lem p s db keeps valid running)
      ]
    ]

  -- The kill switch stops a call of `run_once` before it touches anything.
  pub kill_switch_stops :
      (w : MultiAccountWorker) (s : Store) (db : Db)
      → is_redis_truthy (get kill_switch_key s) ≡ true
      → run_once redis ports w s db ≡ (paused_by_kill_switch, w, s, db)
  unfolding run_once
  kill_switch_stops w s db on = rw (run_once, on)

  -- One call of `run_once`, with the kill switch off, a round-robin index in range and a sender that
  -- leaves the queues alone. Either every queue of the worker is empty and nothing changes, or
  -- exactly one entry is read, the head of a queue of the worker, and all other queues stay as they
  -- are. The outcome says that its account is paused exactly where it is, and then the entry goes to
  -- the end of its queue; and that its campaign is paused exactly where the account is not, the entry
  -- is valid and its campaign is paused, and then it goes back to the head, so that the queue is as
  -- before. Every other outcome is of an entry with neither of them paused, or one that is not valid.
  -- A result is retried only if it is retryable and the attempts are below the limit, with the retry
  -- entry at the end of the queue after the delay of the next attempt; otherwise the entry is gone.
  pub run_once_queues :
      (w : MultiAccountWorker) (s : Store) (db : Db)
      → is_redis_truthy (get kill_switch_key s) ≡ false
      → w.round_robin_index < length w.account_ids
      → KeepsQueues
      → let out = run_once redis ports w s db in
        let w' = (read_next_payload redis w s).1 in
        let s' = (read_next_payload redis w s).2 in
        ((out ≡ (queue_empty, w, s, db))
          × ((a : ℕ) → Mem a w.account_ids → items (queue_of redis w a) s ≡ []))
        ⊎ ((r : Reading redis) × Found redis w s s' 0 (length w.account_ids) r
            × (out.1 ≡ w')
            × QueueAfter w' r.account_id r.raw s' out.2 out.0
            × OthersKept (queue_of redis w r.account_id) s out.2)
  unfolding run_once
  run_once_queues w s db off h keeps = elim (read_next_payload-fair redis w s h) [
    | inl (nothing, same_w, same_s, empty) ↦ inl (
      (unfold run_once in
          rw (run_once, off, nothing)
            (ap (λ v. (queue_empty, v, (read_next_payload redis w s).2, db)) same_w
              ∙ ap (λ v. (queue_empty, w, v, db)) same_s)),
      empty,
    )
    | inr (r, e, found, moved, in_range) ↦
        let w' = (read_next_payload redis w s).1 in
        let s' = (read_next_payload redis w s).2 in
        let (after, kept) = process_lem w' r.account_id r.raw s' db keeps in
        let out = process redis ports w' r.account_id r.raw s' db in
        let ran : run_once redis ports w s db ≡ (out.0, w', out.1, out.2) = rw (run_once, off, e) in
        let same_key : queue_of redis w' r.account_id ≡ queue_of redis w r.account_id =
          ap (λ v. queue_of redis v r.account_id) moved in
        inr (
          r,
          found,
          ap (λ v. v.1) ran,
          rw ran after,
          λ q b ne.
              ap (λ v. items (queue_key q b) v.2) ran
              ∙ kept q b (λ same. ne (same ∙ same_key))
              ∙ found.popped.others (queue_key q b) ne,
        )
  ]
