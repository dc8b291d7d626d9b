-- ===== src/QueueBridge/Pushing.antt =====
-- What becomes of the claimed rows.
use senderplatformtest.Prelude.{
  ℕ, suc, ◌+◌, ◌≤◌, ◌≡◌, ◌≢◌, refl, ap, ◌∙◌, Bool, true, false, some, List, [], ◌∷◌, arith, length,
  Bool-cases, Option-cases, inl, inr, ◌⊎◌,
}
use senderplatformtest.Platform.{PlatformType, running, ready, pushing}
use senderplatformtest.Redis.{RedisKey, queue_key, Redis}
use senderplatformtest.Baileys.{QueuePayload, raw_outgoing_list, baileys_job}
use senderplatformtest.QueueBridge.{
  StagedQueueItem, Account, Entry, worker_payload, job, Tables, Environment, no_counts, Progress,
  push, process_item, process_items, claim, push_staged_items_to_worker_queue,
}
use senderplatformtest.QueueBridge.Claiming.{claimed, Claims, Claims-length, claim_lem}
use senderplatformtest.QueueBridge.Rows.{total, Settled, process_item-Settled}

module _ (redis : Redis Entry) (env : Environment) (db : Tables) where
  open redis use {Store}

  process_items-total :
      (rows : List (Bool × StagedQueueItem)) (progress : Progress redis)
      → (total (process_items redis env db rows progress).1.counts
          ≡ claimed rows + total progress.counts)
        × (length (process_items redis env db rows progress).0 ≡ length rows)
  unfolding process_items
  process_items-total [] progress = (omega arith, refl)
  process_items-total ((false, item) ∷ rows) progress =
      let (t, l) = process_items-total rows progress in (t, ap suc l)
  process_items-total ((true, item) ∷ rows) progress =
      let next = (process_item redis env db item progress).1 in
      let (t, l) = process_items-total rows next in
      (omega (arith, t, (process_item-Settled redis env db item progress).1), ap suc l)

  -- A row is as it was, or was READY in a RUNNING campaign and is not left PUSHING.
  abbrev pub BridgedRow : StagedQueueItem → StagedQueueItem → Type 0
  BridgedRow item item' =
      (item' ≡ item)
      ⊎ ((item.status ≡ ready)
          × (db.campaign_status item.campaign_id ≡ some running)
          × (item'.status ≢ pushing)
          × (item'.id ≡ item.id))

  abbrev pub Bridged : List StagedQueueItem → List StagedQueueItem → Type 0
  Bridged [] [] = Unit {0}
  Bridged (item ∷ items) (item' ∷ items') = BridgedRow item item' × Bridged items items'
  Bridged _ _ = ⊥

  Settled-ne-pushing :
      (item : StagedQueueItem) (progress : Progress redis) (out : StagedQueueItem × Progress redis)
      → Settled redis env db item progress out
      → out.0.status ≢ pushing
  Settled-ne-pushing item progress out (inl (inl e, _, _), _, _, _, _) p = cc (e, p)
  Settled-ne-pushing item progress out (inl (inr e, _, _), _, _, _, _) p = cc (e, p)
  Settled-ne-pushing item progress out (inr (e, _, _), _, _, _, _) p = cc (e, p)

  process_items-Bridged :
      (items : List StagedQueueItem) (rows : List (Bool × StagedQueueItem))
      (progress : Progress redis)
      → Claims env db items rows
      → Bridged items (process_items redis env db rows progress).0
  unfolding process_items
  process_items-Bridged [] [] progress c = tt
  process_items-Bridged [] (row ∷ rows) progress c = elim c [ ]
  process_items-Bridged (item ∷ items) [] progress c = elim c [ ]
  process_items-Bridged (item ∷ items) ((false, same) ∷ rows) progress c =
      (inl c.0, process_items-Bridged items rows progress c.1)
  process_items-Bridged (item ∷ items) ((true, marked) ∷ rows) progress c =
      let out = process_item redis env db marked progress in
      let settled = process_item-Settled redis env db marked progress in
      (
        inr (
          c.0.1,
          c.0.2,
          Settled-ne-pushing marked progress out settled,
          settled.2 ∙ ap (λ i. i.id) c.0.0,
        ),
        process_items-Bridged items rows out.1 c.1,
      )

  -- With the real push disabled nothing changes. With it enabled, every row is as it was, or was
  -- READY in a RUNNING campaign and is not left PUSHING; no row is added or lost; and the four
  -- counts together are the number of rows that were claimed, at most the batch size.
  pub push_staged_items_accounts :
      (batch_size : ℕ) (items : List StagedQueueItem) (s : Store)
      → let out = push_staged_items_to_worker_queue redis env db batch_size items s in
        ((env.real_queue_push_enabled ≡ false) × (out ≡ (items, no_counts, s)))
        ⊎ ((env.real_queue_push_enabled ≡ true)
            × Bridged items out.0
            × (length out.0 ≡ length items)
            × (total out.1 ≡ claimed (claim env db batch_size items))
            × (total out.1 ≤ batch_size))
  unfolding push_staged_items_to_worker_queue
  push_staged_items_accounts batch_size items s =
      let start : Progress redis = record { rr_cursor = λ _. 0; counts = no_counts; store = s } in
      let rows = claim env db batch_size items in
      let (claims, few) = claim_lem env db batch_size items in
      let (t, l) = process_items-total rows start in
      elim (Bool-cases env.real_queue_push_enabled) [
        | inr off ↦ inl (off, ground arith)
        | inl on ↦
            let out = process_items redis env db rows start in
            let e : push_staged_items_to_worker_queue redis env db batch_size items s
                ≡ (out.0, out.1.counts, out.1.store) =
              ground arith in
            inr (
              on,
              rw e (process_items-Bridged items rows start claims),
              rw e (l ∙ Claims-length env db items rows claims),
              rw e (omega (arith, t)),
              rw e (omega (arith, t)),
            )
      ]

  open redis use {get, get-rpush}

  push-get :
      (platform : PlatformType) (account : Account) (item : StagedQueueItem)
      (payload : QueuePayload) (s s' : Store)
      → push redis env platform account item payload s ≡ some s'
      → (j : RedisKey) → get j s' ≡ get j s
  unfolding push
  push-get platform account item payload s s' e j =
      let plain = get-rpush (queue_key item.channel account.id) j (worker_payload payload) s in
      elim (Option-cases (baileys_job account.phone_number payload "campaign")) [
        | inl no_job ↦ ground (arith, plain)
        | inr (b, made) ↦ ground (arith, plain, get-rpush raw_outgoing_list j (job b) s)
      ]

  Settled-get :
      (item : StagedQueueItem) (progress : Progress redis) (out : StagedQueueItem × Progress redis)
      → Settled redis env db item progress out
      → (j : RedisKey) → get j out.1.store ≡ get j progress.store
  Settled-get item progress out (inl (_, same, _), _, _, _, _) j = ap (get j) same
  Settled-get item progress out (inr (_, _, p), _, _, _, _) j =
      push-get p.platform p.account item out.0.queue_payload progress.store out.1.store p.store j

  process_items-get :
      (rows : List (Bool × StagedQueueItem)) (progress : Progress redis) (j : RedisKey)
      → get j (process_items redis env db rows progress).1.store ≡ get j progress.store
  unfolding process_items
  process_items-get [] progress j = refl
  process_items-get ((false, item) ∷ rows) progress j = process_items-get rows progress j
  process_items-get ((true, item) ∷ rows) progress j =
      let out = process_item redis env db item progress in
      process_items-get rows out.1 j
      ∙ Settled-get item progress out (process_item-Settled redis env db item progress) j

  -- The bridge writes no value in Redis, only lists.
  pub push_staged-get :
      (batch_size : ℕ) (items : List StagedQueueItem) (s : Store) (j : RedisKey)
      → get j (push_staged_items_to_worker_queue redis env db batch_size items s).2 ≡ get j s
  unfolding push_staged_items_to_worker_queue
  push_staged-get batch_size items s j =
      let start : Progress redis = record { rr_cursor = λ _. 0; counts = no_counts; store = s } in
      ground (arith, process_items-get (claim env db batch_size items) start j)
