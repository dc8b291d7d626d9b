-- ===== src/ResultsConsumer/Serving.antt =====
-- A session that is reported invalid and the bridge's choice of an account.
use senderplatformtest.Prelude.{
  ℕ, ◌≡◌, refl, ap, ◌∙◌, subst, true, false, Option, some, List, [], ◌∷◌, map, Bool-cases, inl, inr,
  Mem,
}
use senderplatformtest.Prelude.Sort.{contains}
use senderplatformtest.Platform.{PlatformType, platform_eq, queued}
use senderplatformtest.Redis.{Redis}
use senderplatformtest.QueueBridge.{
  Account, Entry, Tables, Environment, StagedQueueItem, serves, Progress, process_item,
}
use senderplatformtest.QueueBridge.Rows.{IsPushed, process_item-Settled}
use senderplatformtest.ResultsConsumer.{
  BaileysItem, AccountsDb, lrange_first, consume_whatsapp_session_status_batch, session_status_list,
}
use senderplatformtest.ResultsConsumer.Disconnecting.{
  logged_out, disconnected, consume_session_status_batch-IsLoggedOut,
}

logged_out-serves :
    (platform : PlatformType) (ids : List ℕ) (a : Account)
    → contains (logged_out ids a).id ids ≡ true
    → serves platform (logged_out ids a) ≡ false
unfolding logged_out
logged_out-serves platform ids a named = elim (Bool-cases (contains a.id ids)) [
  | inl t ↦ rw t (elim (Bool-cases (platform_eq a.platform platform)) [
    | inl same ↦ rw same refl
    | inr other ↦ rw other refl
  ])
  | inr f ↦
      let plain : logged_out ids a ≡ a = rw f refl in
      absurd (cc (f, subst (λ b. contains b.id ids ≡ true) plain named))
]

map-logged_out-serves :
    (platform : PlatformType) (ids : List ℕ) (accounts : List Account) (b : Account)
    → Mem b (map (logged_out ids) accounts)
    → contains b.id ids ≡ true
    → serves platform b ≡ false
map-logged_out-serves platform ids [] b m named = elim m [ ]
map-logged_out-serves platform ids (a ∷ rest) b (inl e) named =
    ap (serves platform) e
    ∙ logged_out-serves platform ids a (subst (λ x. contains x.id ids ≡ true) e named)
map-logged_out-serves platform ids (a ∷ rest) b (inr m) named =
    map-logged_out-serves platform ids rest b m named

module _ {Item : Type 0} (events : Redis Item) (parse_json : Item → Option BaileysItem) where
  open events use {Store, items}

  pushed_elsewhere :
      (batch_size : ℕ) (s : Store) (before : AccountsDb) (redis : Redis Entry) (env : Environment)
      (db : Tables) (item item' : StagedQueueItem) (t t' : redis.Store)
      → db.accounts
        ≡ (consume_whatsapp_session_status_batch events parse_json true batch_size s
            before).2.accounts
      → (pushed : IsPushed redis env db item item' t t')
      → contains pushed.account.id (
          disconnected events parse_json before.accounts
            (lrange_first batch_size (items session_status_list s)))
        ≡ false
  pushed_elsewhere batch_size s before redis env db item item' t t' same pushed =
      let read = lrange_first batch_size (items session_status_list s) in
      let ids = disconnected events parse_json before.accounts read in
      let (_, rows, _) =
        consume_session_status_batch-IsLoggedOut events parse_json batch_size s before in
      elim (Bool-cases (contains pushed.account.id ids)) [
        | inr f ↦ f
        | inl named ↦
            let listed : Mem pushed.account (map (logged_out ids) before.accounts) =
              subst (λ l. Mem pushed.account l) (same ∙ rows) pushed.listed in
            let idle : serves pushed.platform pushed.account ≡ false =
              map-logged_out-serves pushed.platform ids before.accounts pushed.account listed
                named in
            absurd (cc (idle, pushed.serving))
      ]

  -- An account that a batch of session events has sent back to the login gets no message from the
  -- bridge: over the accounts that the batch leaves, a row that the bridge's round leaves QUEUED has
  -- the id of another account in its payload.
  pub disconnected_not_pushed :
      (batch_size : ℕ) (s : Store) (before : AccountsDb) (redis : Redis Entry) (env : Environment)
      (db : Tables) (item : StagedQueueItem) (progress : Progress redis)
      → db.accounts
        ≡ (consume_whatsapp_session_status_batch events parse_json true batch_size s
            before).2.accounts
      → (process_item redis env db item progress).0.status ≡ queued
      → (id : ℕ) × ((process_item redis env db item progress).0.queue_payload.account_id ≡ some id)
        × (contains id (
              disconnected events parse_json before.accounts
                (lrange_first batch_size (items session_status_list s)))
            ≡ false)
  disconnected_not_pushed batch_size s before redis env db item progress same is_queued =
      let (ending, _, _, _, _) = process_item-Settled redis env db item progress in
      elim ending [
        | inl (inl is_skipped, _, _) ↦ absurd (cc (is_queued, is_skipped))
        | inl (inr is_ready, _, _) ↦ absurd (cc (is_queued, is_ready))
        | inr (_, _, pushed) ↦ (
          pushed.account.id,
          ap (λ p. p.account_id) pushed.payload,
          pushed_elsewhere batch_size s before redis env db item
              (process_item redis env db item progress).0 progress.store
              (process_item redis env db item progress).1.store same pushed,
        )
      ]
