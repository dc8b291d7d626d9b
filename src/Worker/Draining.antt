-- ===== src/Worker/Draining.antt =====
-- Why a worker comes to an end of its queues: each read makes the work that is left less, and a retry
-- is less work than what it repeats.
use senderplatformtest.Prelude.{
  ℕ, zero, suc, ◌+◌, ◌-◌, ◌%◌, ◌≤◌, ◌<◌, ◌≡◌, refl, sym, ap, ◌∙◌, subst, none, some, List, [], ◌∷◌,
  ◌++◌, arith, ok, raise, Result, length, Mem, All, inl, inr, Bool-cases, List-cases, get_elem?-Mem,
}
use senderplatformtest.Redis.{kill_switch_key, Redis}
use senderplatformtest.Redis.Memory.{RedisKey-discrete}
use senderplatformtest.Payloads.{WorkerPayload, WorkerException}
use senderplatformtest.Worker.{
  MultiAccountWorker, Outcome, paused_by_kill_switch, queue_empty, account_paused, campaign_paused,
  processed, failed, is_redis_truthy, Ports, Reading, queue_of, read_next_payload, run_once,
}
use senderplatformtest.Worker.Polling.{Found, read_next_payload-fair}
use senderplatformtest.Worker.Rounds.{
  KeepsQueues, QueueAfter, OthersKept, kill_switch_stops, run_once_queues,
}

-- The call was not stopped by a switch.
abbrev pub IsWork : Outcome → Type 0
IsWork paused_by_kill_switch = ⊥
IsWork (account_paused a) = ⊥
IsWork (campaign_paused a) = ⊥
IsWork queue_empty = Unit
IsWork (processed a result delay) = Unit
IsWork (failed a e) = Unit

module _ {Item Db : Type 0} (redis : Redis Item) (ports : Ports redis Db) where
  open redis use {Store, get, items}
  open ports use {validate, retry_item}

  abbrev weight_of : ℕ → Result WorkerException WorkerPayload → ℕ
  weight_of limit (raise e) = 1
  weight_of limit (ok payload) = suc (limit - payload.attempt)

  -- How often an entry can still be read: once, and once more for each attempt that is left.
  unfoldable pub weight : MultiAccountWorker → Item → ℕ
  weight w raw = weight_of w.max_retry_attempts (validate w raw)

  unfoldable pub total_weight : MultiAccountWorker → List Item → ℕ
  unfolding weight
  total_weight w [] = 0
  total_weight w (raw ∷ raws) = weight w raw + total_weight w raws

  unfoldable pub work_of : MultiAccountWorker → List ℕ → Store → ℕ
  unfolding total_weight
  work_of w [] s = 0
  work_of w (a ∷ ids) s = total_weight w (items (queue_of redis w a) s) + work_of w ids s

  -- The work that is left in the queues of the worker.
  unfoldable pub work_left : MultiAccountWorker → Store → ℕ
  unfolding work_of
  work_left w s = work_of w w.account_ids s

  -- Calls of `run_once` one after another, as `run_forever` makes them.
  unfoldable pub run_rounds :
      ℕ → MultiAccountWorker → Store → Db → List Outcome × MultiAccountWorker × Store × Db
  run_rounds zero w s db = ([], w, s, db)
  run_rounds (suc n) w s db =
      let (outcome, w', s', db') = run_once redis ports w s db in
      let (outcomes, w'', s'', db'') = run_rounds n w' s' db' in
      (outcome ∷ outcomes, w'', s'', db'')

  -- What the validation and the retry's entry have to have in common: where the round stands plays
  -- no part, and the retry of an accepted entry is accepted, with the next attempt.
  pub record CountsRetries : Type 0 where
    pub ignores_index :
        (w : MultiAccountWorker) (i : ℕ) (raw : Item)
        → validate (record w { round_robin_index = i }) raw ≡ validate w raw
    pub counts :
        (w : MultiAccountWorker) (raw : Item) (payload : WorkerPayload)
        → validate w raw ≡ ok payload
        → (again : WorkerPayload) × (validate w (retry_item raw payload) ≡ ok again)
          × (again.attempt ≡ suc payload.attempt)

  weight_of-positive :
      (limit : ℕ) (r : Result WorkerException WorkerPayload) → 1 ≤ weight_of limit r
  weight_of-positive limit (raise e) = omega arith
  weight_of-positive limit (ok payload) = omega arith

  weight-positive : (w : MultiAccountWorker) (raw : Item) → 1 ≤ weight w raw
  unfolding weight
  weight-positive w raw = weight_of-positive w.max_retry_attempts (validate w raw)

  total_weight-append :
      (w : MultiAccountWorker) (xs ys : List Item)
      → total_weight w (xs ++ ys) ≡ total_weight w xs + total_weight w ys
  unfolding total_weight
  total_weight-append w [] ys = omega arith
  total_weight-append w (x ∷ xs) ys = omega (arith, total_weight-append w xs ys)

  weight-retry :
      CountsRetries
      → (w : MultiAccountWorker) (raw : Item) (payload : WorkerPayload)
      → validate w raw ≡ ok payload
      → payload.attempt < w.max_retry_attempts
      → weight w (retry_item raw payload) < weight w raw
  unfolding weight
  weight-retry retries w raw payload valid low =
      let (again, accepted, next) = retries.counts w raw payload valid in
      rw (valid, accepted) (omega (arith, next, low))

  -- Queues that are not longer make no more work, and a shorter one makes less.
  work_of-le :
      (w : MultiAccountWorker) (ids : List ℕ) (s s' : Store)
      → ((a : ℕ)
          → Mem a ids
          → total_weight w (items (queue_of redis w a) s')
            ≤ total_weight w (items (queue_of redis w a) s))
      → work_of w ids s' ≤ work_of w ids s
  unfolding work_of
  work_of-le w [] s s' each = omega arith
  work_of-le w (a ∷ ids) s s' each =
      omega (arith, each a (inl refl), work_of-le w ids s s' (λ b m. each b (inr m)))

  work_of-lt :
      (w : MultiAccountWorker) (ids : List ℕ) (s s' : Store) (a : ℕ)
      → Mem a ids
      → total_weight w (items (queue_of redis w a) s')
        < total_weight w (items (queue_of redis w a) s)
      → ((b : ℕ)
          → Mem b ids
          → total_weight w (items (queue_of redis w b) s')
            ≤ total_weight w (items (queue_of redis w b) s))
      → work_of w ids s' < work_of w ids s
  unfolding work_of
  work_of-lt w (b ∷ ids) s s' a (inl same) less each =
      let here =
        subst
          (λ x.
            total_weight w (items (queue_of redis w x) s')
            < total_weight w (items (queue_of redis w x) s))
          same less in
      omega (arith, here, work_of-le w ids s s' (λ c m. each c (inr m)))
  work_of-lt w (b ∷ ids) s s' a (inr m) less each =
      omega (arith, each b (inl refl), work_of-lt w ids s s' a m less (λ c n. each c (inr n)))
  work_of-lt w [] s s' a m less each = elim m [ ]

  work_of-empty :
      (w : MultiAccountWorker) (ids : List ℕ) (s : Store)
      → work_of w ids s ≡ 0
      → (a : ℕ) → Mem a ids
      → items (queue_of redis w a) s ≡ []
  unfolding work_of total_weight
  work_of-empty w (b ∷ ids) s none_left a (inl same) =
      elim (List-cases (items (queue_of redis w b) s)) [
        | inl e ↦ ap (λ x. items (queue_of redis w x) s) same ∙ e
        | inr (raw, raws, e) ↦
            let some_left : total_weight w (items (queue_of redis w b) s)
                ≡ weight w raw + total_weight w raws =
              rw e refl in
            absurd (omega (arith, none_left, some_left, weight-positive w raw))
      ]
  work_of-empty w (b ∷ ids) s none_left a (inr m) =
      work_of-empty w ids s (omega (arith, none_left)) a m
  work_of-empty w [] s none_left a m = elim m [ ]

  empty-work_of :
      (w : MultiAccountWorker) (ids : List ℕ) (s : Store)
      → ((a : ℕ) → Mem a ids → items (queue_of redis w a) s ≡ [])
      → work_of w ids s ≡ 0
  unfolding work_of total_weight
  empty-work_of w [] s each = refl
  empty-work_of w (a ∷ ids) s each =
      rw (each a (inl refl)) (omega (arith, empty-work_of w ids s (λ b m. each b (inr m))))

  abbrev at_index : MultiAccountWorker → ℕ → MultiAccountWorker
  at_index w i = record w { round_robin_index = i }

  total_weight-index :
      CountsRetries
      → (w : MultiAccountWorker) (i : ℕ) (raws : List Item)
      → total_weight (at_index w i) raws ≡ total_weight w raws
  unfolding total_weight weight
  total_weight-index retries w i [] = refl
  total_weight-index retries w i (raw ∷ raws) =
      rw (retries.ignores_index w i raw, total_weight-index retries w i raws) refl

  work_of-index :
      CountsRetries
      → (w : MultiAccountWorker) (i : ℕ) (ids : List ℕ) (s : Store)
      → work_of (at_index w i) ids s ≡ work_of w ids s
  unfolding work_of
  work_of-index retries w i [] s = refl
  work_of-index retries w i (a ∷ ids) s =
      rw
        (
          total_weight-index retries w i (items (queue_of redis w a) s),
          work_of-index retries w i ids s,
        )
        refl

  -- The queue that was read is lighter at the end of the call than before it.
  queue_lighter :
      CountsRetries
      → (w : MultiAccountWorker) (a : ℕ) (raw : Item) (s s' s'' : Store) (o : Outcome) → IsWork o
      → items (queue_of redis w a) s ≡ raw ∷ items (queue_of redis w a) s'
      → QueueAfter redis ports w a raw s' s'' o
      → total_weight w (items (queue_of redis w a) s'')
        < total_weight w (items (queue_of redis w a) s)
  unfolding total_weight
  queue_lighter retries w a raw s s' s'' queue_empty work front after = elim after [ ]
  queue_lighter retries w a raw s s' s'' (processed b result none) work front (same, left, free) =
      rw (front, left) (omega (arith, weight-positive w raw))
  queue_lighter retries w a raw s s' s'' (failed b e) work front (same, left, free) =
      rw (front, left) (omega (arith, weight-positive w raw))
  queue_lighter retries w a raw s s' s'' (processed b result (some delay)) work front
        (same, free, (p, valid, below, retryable, left, wait)) =
      rw
        (front, left, total_weight-append w (items (queue_of redis w a) s') (retry_item raw p ∷ []))
        (omega (arith, weight-retry retries w raw p valid below))
  queue_lighter retries w a raw s s' s'' paused_by_kill_switch work front after = elim work [ ]
  queue_lighter retries w a raw s s' s'' (account_paused b) work front after = elim work [ ]
  queue_lighter retries w a raw s s' s'' (campaign_paused b) work front after = elim work [ ]

  -- The entry that was read makes its queue lighter, and no other queue is touched.
  read_lightens :
      CountsRetries
      → (w : MultiAccountWorker) (i : ℕ) (s s' s'' : Store) (r : Reading redis) (o : Outcome)
      → IsWork o
      → Found redis w s s' 0 (length w.account_ids) r
      → QueueAfter redis ports (at_index w i) r.account_id r.raw s' s'' o
      → OthersKept redis ports (queue_of redis w r.account_id) s s''
      → work_left w s'' < work_left w s
  unfolding work_left
  read_lightens retries w i s s' s'' r o work found after kept =
      let a = r.account_id in
      let lighter =
        queue_lighter retries (at_index w i) a r.raw s s' s'' o work found.popped.front after in
      let less : total_weight w (items (queue_of redis w a) s'')
          < total_weight w (items (queue_of redis w a) s) =
        omega (
          arith,
          lighter,
          total_weight-index retries w i (items (queue_of redis w a) s),
          total_weight-index retries w i (items (queue_of redis w a) s''),
        ) in
      work_of-lt w w.account_ids s s'' a (get_elem?-Mem w.account_ids r.index a found.account) less
        (λ b m. elim (RedisKey-discrete (queue_of redis w b) (queue_of redis w a)) [
          | yes same ↦
              subst (λ k. total_weight w (items k s'') ≤ total_weight w (items k s)) (sym same)
                (omega (arith, less))
          | no other ↦ rw (kept w.platform b other) (omega arith)
        ])

  -- Only the index of the worker moves, and where work is left, it becomes less.
  abbrev Progress : MultiAccountWorker → Store → Outcome × MultiAccountWorker × Store × Db → Type 0
  Progress w s out =
      (i : ℕ) × (i < length w.account_ids)
      × (out.1 ≡ at_index w i)
      × (work_left w out.2 ≤ work_left w s - 1)

  -- Only the round-robin index of the worker moves, and it stays in range.
  read_next_payload-index :
      (w : MultiAccountWorker) (s : Store)
      → w.round_robin_index < length w.account_ids
      → (i : ℕ) × (i < length w.account_ids) × ((read_next_payload redis w s).1 ≡ at_index w i)
  read_next_payload-index w s h = elim (read_next_payload-fair redis w s h) [
    | inl (nothing, same_w, same_s, empty) ↦ (w.round_robin_index, h, same_w)
    | inr (r, e, found, moved, in_range) ↦ (
      (r.index + 1) % length w.account_ids,
      subst (λ v. v.round_robin_index < length w.account_ids) moved in_range,
      moved,
    )
  ]

  progress :
      CountsRetries
      → KeepsQueues redis ports
      → (w : MultiAccountWorker) (s : Store) (db : Db) → w.round_robin_index < length w.account_ids
      → IsWork (run_once redis ports w s db).0
      → Progress w s (run_once redis ports w s db)
  unfolding work_left work_of
  progress retries keeps w s db h work =
      elim (Bool-cases (is_redis_truthy (get kill_switch_key s))) [
        | inl on ↦
            elim (subst (λ out. IsWork out.0) (kill_switch_stops redis ports w s db on) work) [ ]
        | inr off ↦ elim (run_once_queues redis ports w s db off h keeps) [
          | inl (idle, empty) ↦ (
            w.round_robin_index,
            h,
            ap (λ out. out.1) idle,
            let none_left = empty-work_of w w.account_ids s empty in
                let same : work_left w (run_once redis ports w s db).2 ≡ work_left w s =
                  ap (λ out. work_left w out.2) idle in
                omega (arith, same, none_left),
          )
          | inr (r, found, same_w, after, kept) ↦
              let (i, in_range, moved) = read_next_payload-index w s h in
              let out = run_once redis ports w s db in
              let after_w =
                subst
                  (λ v.
                    QueueAfter redis ports v r.account_id r.raw (read_next_payload redis w s).2
                      out.2 out.0)
                  moved after in
              let less =
                read_lightens retries w i s (read_next_payload redis w s).2 out.2 r out.0 work found
                  after_w kept in
              (i, in_range, same_w ∙ moved, omega (arith, less))
        ]
      ]

  -- Calls of `run_once` one after another, none of which is stopped by a switch, as many as there is
  -- work left at the start or more: at the end the queue of every account of the worker is empty.
  -- The round-robin index is in range, sending leaves the queues alone, and the retry of an accepted
  -- entry is accepted with the next attempt.
  pub run_rounds-drain :
      CountsRetries
      → KeepsQueues redis ports
      → (n : ℕ) (w : MultiAccountWorker) (s : Store) (db : Db)
      → w.round_robin_index < length w.account_ids
      → work_left w s ≤ n
      → All IsWork (run_rounds n w s db).0
      → (a : ℕ) → Mem a w.account_ids
      → items (queue_of redis w a) (run_rounds n w s db).2 ≡ []
  unfolding run_rounds work_left
  run_rounds-drain retries keeps zero w s db h enough all a m =
      work_of-empty w w.account_ids s (omega (arith, enough)) a m
  run_rounds-drain retries keeps (suc n) w s db h enough (work, all) a m =
      let (i, in_range, moved, fewer) = progress retries keeps w s db h work in
      let out = run_once redis ports w s db in
      let (there, left, member) =
        subst
          (λ v.
            (v.round_robin_index < length v.account_ids)
            × (work_left v out.2 ≤ n)
            × Mem a v.account_ids)
          (sym moved)
          (
            in_range,
            omega (arith, fewer, enough, work_of-index retries w i w.account_ids out.2),
            m,
          ) in
      ap (λ v. items (queue_of redis v a) (run_rounds n out.1 out.2 out.3).2) (sym moved)
      ∙ run_rounds-drain retries keeps n out.1 out.2 out.3 there left all a member
