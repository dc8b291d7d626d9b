-- ===== src/PoolWorker/Sending.antt =====
-- What a send of the pool's worker does to the store, whatever the delivery gives.
use senderplatformtest.Prelude.{
  ℕ, suc, ◌≤◌, ◌<◌, ◌≡◌, sym, ap, ◌∙◌, subst, true, some, String, ◌⊎◌, inl, inr, arith, ok,
}
use senderplatformtest.Redis.{
  queue_key, hourly_rate_key, daily_rate_key, whatsapp_browser_lock_key, number, Redis,
}
use senderplatformtest.Payloads.{WorkerPayload, WorkerResult}
use senderplatformtest.RateLimit.{
  Account, count_of, record_successful_send, incr_daily_count, can_send_daily, get_daily_count,
  bump,
}
use senderplatformtest.RateLimit.Counting.{IsCounter, bump-Counted, bump-get_ne, can_send_daily-lt}
use senderplatformtest.PoolWorker.{Surroundings, get_account_delay, within_daily_cap, send_message}
use senderplatformtest.PoolWorker.Shape.{
  booked, set_min_delay-get, booked-items, booked-get, send_message-Shape,
}

module _ {Item : Type 0} (redis : Redis Item) (env : Surroundings) where
  open redis use {
    Store, get, items, ttl, set_ex, set_nx_ex, delete, set_nx_ex_free, set_nx_ex_taken,
    get-set_nx_ex_ne, items-set_nx_ex, get-delete_self, get-delete_ne, items-delete_ne,
    get-set_ex_ne, items-set_ex_ne, ttl-set_ex_self,
  }

  -- A send leaves the queues of all accounts and platforms as they were, so that a worker built on
  -- it reads and requeues as `run_once` says.
  pub send_message-keeps_queues :
      (p : WorkerPayload) (s : Store) (q : String) (b : ℕ)
      → items (queue_key q b) (send_message redis env p s).1 ≡ items (queue_key q b) s
  send_message-keeps_queues p s q b = elim (send_message-Shape redis env p s) [
    | inr near ↦ near.1 q b
    | inl ((s1, near, how), within) ↦ elim how [
      | inl same ↦ ap (items (queue_key q b)) same ∙ near.1 q b
      | inr (sent, r) ↦
          ap (items (queue_key q b)) sent ∙ booked-items redis env p.account_id q b s1 ∙ near.1 q b
    ]
  ]

  -- Whether the delivery succeeds, fails or raises, and whatever check stops it, the key of the
  -- account's browser lock is afterwards as it was before: a free lock is given back, and the lock
  -- of another replica stays where it is.
  pub send_message-lock_kept :
      (p : WorkerPayload) (s : Store)
      → get (whatsapp_browser_lock_key p.account_id) (send_message redis env p s).1
        ≡ get (whatsapp_browser_lock_key p.account_id) s
  send_message-lock_kept p s =
      let k = whatsapp_browser_lock_key p.account_id in
      elim (send_message-Shape redis env p s) [
        | inr near ↦ near.0 k (λ e. ground arith)
        | inl ((s1, near, how), within) ↦ elim how [
          | inl same ↦ ap (get k) same ∙ near.0 k (λ e. ground arith)
          | inr (sent, r) ↦
              ap (get k) sent
              ∙ booked-get redis env p.account_id k s1 (λ e. ground arith) (λ e. ground arith)
                  (λ e. ground arith)
              ∙ near.0 k (λ e. ground arith)
        ]
      ]

  booked-daily :
      (a : ℕ) (s : Store)
      → IsCounter (get (daily_rate_key a env.day) s)
      → get (daily_rate_key a env.day) (booked redis env a s)
        ≡ some (number (suc (count_of (get (daily_rate_key a env.day) s))))
  unfolding booked record_successful_send incr_daily_count
  booked-daily a s c =
      let k = daily_rate_key a env.day in
      let s1 = (bump redis (hourly_rate_key a env.hour) 7200 s).1 in
      let (lo, hi) = get_account_delay env a in
      let same : get k s1 ≡ get k s =
        bump-get_ne redis (hourly_rate_key a env.hour) k 7199 s (λ e. ground arith) in
      set_min_delay-get redis env a (env.uniform lo hi) k (bump redis k 172800 s1).1
        (λ e. ground arith)
      ∙ (bump-Counted redis k 172799 s1 (subst IsCounter (sym same) c)).1.stored
      ∙ ap (λ o. some (number (suc (count_of o)))) same

  within_cap-lt :
      (a : ℕ) (account : Account) (s : Store)
      → env.load_account a ≡ some account
      → account.id ≡ a
      → within_daily_cap redis env a s ≡ true
      → get_daily_count redis env.day a s
        < (can_send_daily redis env.day env.worker_settings.whatsapp_daily_send_cap account s).2
  unfolding within_daily_cap
  within_cap-lt a account s loaded same_id within =
      let cap = env.worker_settings.whatsapp_daily_send_cap in
      let allowed : (can_send_daily redis env.day cap account s).0 ≡ true =
        rw (loaded, within_daily_cap) at within in
      subst
        (λ b. get_daily_count redis env.day b s < (can_send_daily redis env.day cap account s).2)
        same_id (can_send_daily-lt redis env.day cap account s allowed)

  -- A send of an account that could be loaded changes the day's count of the account only where the
  -- delivery reports a success and the count was below the cap of the day, and then by one: the
  -- count never passes the cap. The stored counter must be one that INCR wrote, or absent.
  pub send_message-daily_cap :
      (p : WorkerPayload) (s : Store) (account : Account)
      → env.load_account p.account_id ≡ some account
      → account.id ≡ p.account_id
      → IsCounter (get (daily_rate_key p.account_id env.day) s)
      → let out = send_message redis env p s in
        let before = get_daily_count redis env.day p.account_id s in
        let after = get_daily_count redis env.day p.account_id out.1 in
        let cap =
          (can_send_daily redis env.day env.worker_settings.whatsapp_daily_send_cap account s).2 in
        (after ≡ before)
        ⊎ ((after ≡ suc before)
            × (after ≤ cap)
            × ((r : WorkerResult) × (out.0 ≡ ok r) × (r.success ≡ true)))
  unfolding get_daily_count count_of
  send_message-daily_cap p s account loaded same_id c =
      let k = daily_rate_key p.account_id env.day in
      elim (send_message-Shape redis env p s) [
        | inr near ↦ inl (ap count_of (near.0 k (λ e. ground arith)))
        | inl ((s1, near, how), within) ↦ elim how [
          | inl same ↦ inl (ap count_of (ap (get k) same ∙ near.0 k (λ e. ground arith)))
          | inr (sent, r) ↦
              let was : get k s1 ≡ get k s = near.0 k (λ e. ground arith) in
              let now : count_of (get k (send_message redis env p s).1) ≡ suc (count_of (get k s)) =
                ap count_of
                  (ap (get k) sent ∙ booked-daily p.account_id s1 (subst IsCounter (sym was) c))
                ∙ ap (λ o. suc (count_of o)) was in
              inr (
                now,
                omega (arith, now, within_cap-lt p.account_id account s loaded same_id within),
                r,
              )
        ]
      ]
