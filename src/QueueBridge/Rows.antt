-- ===== src/QueueBridge/Rows.antt =====
-- What becomes of one claimed row.
use senderplatformtest.Prelude.{
  ℕ, suc, ◌+◌, ◌≡◌, refl, true, none, some, arith, length, get_elem?, get_elem?-Mem, filter,
  filter-mem, Mem, Option-cases, inl, inr, ◌⊎◌, ◌%◌,
}
use native.Mathlib.Numerals.{add-one}
use senderplatformtest.Platform.{PlatformType, ready, skipped, queued, platform_of}
use senderplatformtest.Redis.{Redis}
use senderplatformtest.Consent.{get_consent_block_reason}
use senderplatformtest.QueueBridge.{
  StagedQueueItem, Account, Entry, Tables, Environment, Counts, serves, Progress, push, assign,
  route, process_item,
}

abbrev pub total : Counts → ℕ
total c = c.pushed + c.skipped_consent + c.skipped_no_account + c.failed

module _ (redis : Redis Entry) (env : Environment) (db : Tables) where
  open redis use {Store}

  -- The row was pushed: nothing blocks its contact, and the push to an active account of its
  -- platform, which the payload now names, gave the store.
  pub record IsPushed (item item' : StagedQueueItem) (s s' : Store) : Type 0 where
    pub platform : PlatformType
    pub known : platform_of item.channel ≡ some platform
    pub free : get_consent_block_reason db.consent item.contact_id (some item.channel) ≡ none
    pub account : Account
    pub listed : Mem account db.accounts
    pub serving : serves platform account ≡ true
    pub payload : item'.queue_payload ≡ record item.queue_payload { account_id = some account.id }
    pub store : push redis env platform account item item'.queue_payload s ≡ some s'

  -- A row after its round: not PUSHING any more, and the store as before, or QUEUED and pushed.
  abbrev pub Settled : StagedQueueItem → Progress redis → StagedQueueItem × Progress redis → Type 0
  Settled item progress out =
      ((((out.0.status ≡ skipped) ⊎ (out.0.status ≡ ready))
          × (out.1.store ≡ progress.store)
          × (out.1.counts.pushed ≡ progress.counts.pushed))
        ⊎ ((out.0.status ≡ queued)
            × (out.1.counts.pushed ≡ suc progress.counts.pushed)
            × IsPushed item out.0 progress.store out.1.store))
      × (total out.1.counts ≡ suc (total progress.counts))
      × (out.0.id ≡ item.id)
      × (out.0.contact_id ≡ item.contact_id)
      × (out.0.channel ≡ item.channel)

  assign-Settled :
      (platform : PlatformType) (idx : ℕ) (account : Account) (item : StagedQueueItem)
      (progress : Progress redis)
      → get_consent_block_reason db.consent item.contact_id (some item.channel) ≡ none
      → platform_of item.channel ≡ some platform
      → Mem account (filter (serves platform) db.accounts)
      → Settled item progress (assign redis env platform idx account item progress)
  unfolding assign
  assign-Settled platform idx account item progress free known m =
      let payload = record item.queue_payload { account_id = some account.id } in
      elim (Option-cases (push redis env platform account item payload progress.store)) [
        | inl refused ↦
            rw (assign, refused) (inl (inr refl, refl, refl), omega arith, refl, refl, refl)
        | inr (s, taken) ↦
            rw (assign, taken)
              (
                inr (
                  refl,
                  rw add-one,
                  record {
                    platform = platform;
                    known = known;
                    free = free;
                    account = account;
                    listed = (filter-mem (serves platform) account db.accounts m).0;
                    serving = (filter-mem (serves platform) account db.accounts m).1;
                    payload = refl;
                    store = taken;
                  },
                ),
                omega arith,
                refl,
                refl,
                refl,
              )
      ]

  route-Settled :
      (platform : PlatformType) (item : StagedQueueItem) (progress : Progress redis)
      → get_consent_block_reason db.consent item.contact_id (some item.channel) ≡ none
      → platform_of item.channel ≡ some platform
      → Settled item progress (route redis env db platform item progress)
  unfolding route
  route-Settled platform item progress free known =
      let accounts = filter (serves platform) db.accounts in
      let idx = progress.rr_cursor platform % length accounts in
      elim (Option-cases (get_elem? accounts idx)) [
        | inl nobody ↦
            rw (route, nobody) (inl (inr refl, refl, refl), omega arith, refl, refl, refl)
        | inr (account, chosen) ↦
            let e : route redis env db platform item progress
                ≡ assign redis env platform idx account item progress =
              rw (route, chosen) in
            rw e (
              assign-Settled platform idx account item progress free known
                (get_elem?-Mem accounts idx account chosen))
      ]

  -- A claimed row does not stay PUSHING, and exactly one of the four counts goes up, by one. Either
  -- the row is SKIPPED or READY again and the store is as before, or it is QUEUED, with nothing
  -- blocking its contact, and was pushed to an active account of its platform. The row keeps its
  -- id, its contact and its channel.
  pub process_item-Settled :
      (item : StagedQueueItem) (progress : Progress redis)
      → Settled item progress (process_item redis env db item progress)
  unfolding process_item
  process_item-Settled item progress =
      elim (Option-cases
        (get_consent_block_reason db.consent item.contact_id (some item.channel))) [
          | inr (reason, blocked) ↦
              rw (process_item, blocked) (inl (inl refl, refl, refl), omega arith, refl, refl, refl)
          | inl free ↦ elim (Option-cases (platform_of item.channel)) [
            | inl unknown ↦
                rw (process_item, free, unknown)
                  (inl (inl refl, refl, refl), omega arith, refl, refl, refl)
            | inr (platform, known) ↦
                let e : process_item redis env db item progress
                    ≡ route redis env db platform item progress =
                  rw (process_item, free, known) in
                rw e (route-Settled platform item progress free known)
          ]
        ]
