-- ===== src/PoolWorker/Shape.antt =====
-- What a send of the pool's worker does to the store, path by path.
use senderplatformtest.Prelude.{
  ℕ, zero, suc, ◌≡◌, ◌≢◌, refl, sym, ◌∙◌, true, false, none, some, String, ◌⊎◌, inl, inr, arith,
  Result, ok, raise, Bool-cases, Option-cases, eq_iff,
}
use senderplatformtest.Redis.{
  RedisKey, queue_key, delay_key, hourly_rate_key, daily_rate_key, daily_cap_alert_key,
  whatsapp_browser_lock_key, Value, text, Redis,
}
use senderplatformtest.Redis.Memory.{RedisKey-discrete}
use senderplatformtest.Payloads.{WorkerPayload, WorkerResult, WorkerException}
use senderplatformtest.Lock.{DistributedLock, new_lock, acquire, release, release_script}
use senderplatformtest.RateLimit.{
  is_min_delay_active, set_min_delay, is_hourly_cap_reached, record_successful_send,
  incr_daily_count, bump,
}
use senderplatformtest.RateLimit.Counting.{bump-get_ne, bump-items}
use senderplatformtest.PoolWorker.{
  Surroundings, get_account_delay, settle, locked_send, within_daily_cap, send_message, delivered,
  alert_daily_cap_once,
}

module _ {Item : Type 0} (redis : Redis Item) (env : Surroundings) where
  open redis use {
    Store, get, items, ttl, set_ex, set_nx_ex, delete, set_nx_ex_free, set_nx_ex_taken,
    get-set_nx_ex_ne, items-set_nx_ex, get-delete_self, get-delete_ne, items-delete_ne,
    get-set_ex_ne, items-set_ex_ne, ttl-set_ex_self,
  }

  -- The bookkeeping of a successful send.
  unfoldable pub booked : ℕ → Store → Store
  booked a s =
      let s1 = (record_successful_send redis env.hour a s).1 in
      let s2 = (incr_daily_count redis env.day a s1).1 in
      let (lo, hi) = get_account_delay env a in set_min_delay redis a (env.uniform lo hi) s2

  settle-cases :
      (a : ℕ) (d : Result WorkerException WorkerResult) (s : Store)
      → ((settle redis env a d s).1 ≡ s)
        ⊎ (((settle redis env a d s).1 ≡ booked a s)
            × ((r : WorkerResult) × (d ≡ ok r) × (r.success ≡ true)))
  unfolding settle booked
  settle-cases a (raise e) s = inl refl
  settle-cases a (ok r) s = elim (Bool-cases r.success) [
    | inl yes_sent ↦ inr (ground arith, (r, refl, yes_sent))
    | inr not_sent ↦ inl (ground arith)
  ]

  pub set_min_delay-get :
      (a d : ℕ) (j : RedisKey) (s : Store)
      → j ≢ delay_key a
      → get j (set_min_delay redis a d s) ≡ get j s
  unfolding set_min_delay
  set_min_delay-get a zero j s ne = refl
  set_min_delay-get a (suc d) j s ne = get-set_ex_ne (delay_key a) j (text "1") (suc d) s ne

  set_min_delay-items :
      (a d : ℕ) (j : RedisKey) (s : Store)
      → j ≢ delay_key a
      → items j (set_min_delay redis a d s) ≡ items j s
  unfolding set_min_delay
  set_min_delay-items a zero j s ne = refl
  set_min_delay-items a (suc d) j s ne = items-set_ex_ne (delay_key a) j (text "1") (suc d) s ne

  pub booked-items :
      (a : ℕ) (q : String) (b : ℕ) (s : Store)
      → items (queue_key q b) (booked a s) ≡ items (queue_key q b) s
  unfolding booked record_successful_send incr_daily_count
  booked-items a q b s =
      let s1 = (bump redis (hourly_rate_key a env.hour) 7200 s).1 in
      let (lo, hi) = get_account_delay env a in
      set_min_delay-items a (env.uniform lo hi) (queue_key q b)
        (bump redis (daily_rate_key a env.day) 172800 s1).1 (λ e. ground arith)
      ∙ bump-items redis (daily_rate_key a env.day) (queue_key q b) 172799 s1
      ∙ bump-items redis (hourly_rate_key a env.hour) (queue_key q b) 7199 s

  pub booked-get :
      (a : ℕ) (j : RedisKey) (s : Store)
      → j ≢ delay_key a
      → j ≢ daily_rate_key a env.day
      → j ≢ hourly_rate_key a env.hour
      → get j (booked a s) ≡ get j s
  unfolding booked record_successful_send incr_daily_count
  booked-get a j s nd ny nh =
      let s1 = (bump redis (hourly_rate_key a env.hour) 7200 s).1 in
      let (lo, hi) = get_account_delay env a in
      set_min_delay-get a (env.uniform lo hi) j (bump redis (daily_rate_key a env.day) 172800 s1).1
        nd
      ∙ bump-get_ne redis (daily_rate_key a env.day) j 172799 s1 ny
      ∙ bump-get_ne redis (hourly_rate_key a env.hour) j 7199 s nh

  lock_for : ℕ → DistributedLock
  lock_for a =
      new_lock (whatsapp_browser_lock_key a) env.settings.whatsapp_distributed_lock_ttl_seconds
        env.token

  -- `s1` has the values of `s`, but for the flag of the alert, and its queues.
  abbrev pub Near : ℕ → Store → Store → Type 0
  Near a s s1 =
      ((j : RedisKey) → j ≢ daily_cap_alert_key a env.day → get j s1 ≡ get j s)
      × ((q : String) (b : ℕ) → items (queue_key q b) s1 ≡ items (queue_key q b) s)

  Near-refl : (a : ℕ) (s : Store) → Near a s s
  Near-refl a s = (λ j ne. refl, λ q b. refl)

  acquire_taken :
      (a : ℕ) (w : Value) (s : Store)
      → get (whatsapp_browser_lock_key a) s ≡ some w
      → ((acquire redis (lock_for a) s).0 ≡ false) × ((acquire redis (lock_for a) s).2 ≡ s)
  unfolding acquire lock_for new_lock
  acquire_taken a w s taken =
      set_nx_ex_taken (whatsapp_browser_lock_key a) (text env.token) w
        env.settings.whatsapp_distributed_lock_ttl_seconds s taken

  -- The store behind an `acquire` that succeeds and the `release` that follows it.
  after_release : ℕ → Store → Store
  after_release a s =
      (release redis (acquire redis (lock_for a) s).1 (acquire redis (lock_for a) s).2).1

  acquire_free :
      (a : ℕ) (s : Store)
      → get (whatsapp_browser_lock_key a) s ≡ none
      → ((acquire redis (lock_for a) s).0 ≡ true)
        × (after_release a s
            ≡ delete (whatsapp_browser_lock_key a) (acquire redis (lock_for a) s).2)
  unfolding after_release acquire release release_script lock_for new_lock
  acquire_free a s free =
      let k = whatsapp_browser_lock_key a in
      let (got, stored) =
        set_nx_ex_free k (text env.token) env.settings.whatsapp_distributed_lock_ttl_seconds s
          free in
      (got, ground (arith, eq_iff env.token env.token))

  released_get :
      (a : ℕ) (s : Store)
      → get (whatsapp_browser_lock_key a) s ≡ none
      → (j : RedisKey)
      → get j (delete (whatsapp_browser_lock_key a) (acquire redis (lock_for a) s).2) ≡ get j s
  unfolding acquire lock_for new_lock
  released_get a s free j =
      let k = whatsapp_browser_lock_key a in
      let n = env.settings.whatsapp_distributed_lock_ttl_seconds in
      let s1 = (set_nx_ex k (text env.token) n s).1 in
      elim (RedisKey-discrete j k) [
        | yes same ↦ rw same (get-delete_self k s1 ∙ sym free)
        | no ne ↦ get-delete_ne k j s1 ne ∙ get-set_nx_ex_ne k j (text env.token) n s ne
      ]

  released-Near :
      (a : ℕ) (s : Store)
      → get (whatsapp_browser_lock_key a) s ≡ none
      → Near a s (after_release a s)
  released-Near a s free =
      let k = whatsapp_browser_lock_key a in
      let s1 = (acquire redis (lock_for a) s).2 in
      rw (acquire_free a s free).1 (
        λ j ne. released_get a s free j,
        λ q b.
            items-delete_ne k (queue_key q b) s1 (λ e. ground arith)
            ∙ unfold acquire lock_for new_lock in
              items-set_nx_ex k (queue_key q b) (text env.token)
                env.settings.whatsapp_distributed_lock_ttl_seconds s,
      )

  -- A send ends in a store near the first one, or in such a store with the send booked.
  abbrev pub Shape : ℕ → Store → Result WorkerException WorkerResult × Store → Type 0
  Shape a s out =
      (s1 : Store) × Near a s s1
      × ((out.1 ≡ s1)
          ⊎ ((out.1 ≡ booked a s1) × ((r : WorkerResult) × (out.0 ≡ ok r) × (r.success ≡ true))))

  settle-result :
      (a : ℕ) (d : Result WorkerException WorkerResult) (s : Store) → (settle redis env a d s).0 ≡ d
  unfolding settle
  settle-result a (raise e) s = refl
  settle-result a (ok r) s = ground arith

  settle-Shape :
      (a : ℕ) (d : Result WorkerException WorkerResult) (s s1 : Store)
      → Near a s s1
      → Shape a s (settle redis env a d s1)
  settle-Shape a d s s1 near = elim (settle-cases a d s1) [
    | inl kept ↦ (s1, near, inl kept)
    | inr (sent, (r, e, success)) ↦ (s1, near, inr (sent, (r, settle-result a d s1 ∙ e, success)))
  ]

  locked_send-Shape :
      (p : WorkerPayload) (s : Store) → Shape p.account_id s (locked_send redis env p s)
  unfolding locked_send
  locked_send-Shape p s =
      let a = p.account_id in
      elim (Bool-cases env.settings.whatsapp_distributed_lock_enabled) [
        | inr off ↦
            let e : locked_send redis env p s ≡ settle redis env a (delivered redis env p) s =
              rw (locked_send, off) in
            rw e (settle-Shape a (delivered redis env p) s s (Near-refl a s))
        | inl on ↦ elim (Option-cases (get (whatsapp_browser_lock_key a) s)) [
          | inl free ↦
              let e : locked_send redis env p s
                  ≡ settle redis env a (delivered redis env p) (after_release a s) =
                unfold lock_for after_release in rw (locked_send, on, (acquire_free a s free).0) in
              rw e (
                settle-Shape a (delivered redis env p) s (after_release a s)
                  (released-Near a s free))
          | inr (w, taken) ↦
              let e : (locked_send redis env p s).1 ≡ s =
                unfold lock_for in
                rw (locked_send, on, (acquire_taken a w s taken).0) (acquire_taken a w s taken).1 in
              (s, Near-refl a s, inl e)
        ]
      ]

  alert-Near : (a : ℕ) (s : Store) → Near a s (alert_daily_cap_once redis env a s)
  unfolding alert_daily_cap_once
  alert-Near a s =
      let k = daily_cap_alert_key a env.day in
      (
        λ j ne. get-set_nx_ex_ne k j (text "1") 172800 s ne,
        λ q b. items-set_nx_ex k (queue_key q b) (text "1") 172800 s,
      )

  -- The store is booked only where the day's cap allows it.
  pub send_message-Shape :
      (p : WorkerPayload) (s : Store)
      → (Shape p.account_id s (send_message redis env p s)
          × (within_daily_cap redis env p.account_id s ≡ true))
        ⊎ Near p.account_id s (send_message redis env p s).1
  unfolding send_message
  send_message-Shape p s =
      let a = p.account_id in
      elim (Bool-cases (is_min_delay_active redis a s)) [
        | inl waits ↦ inr (rw (send_message, waits) (Near-refl a s))
        | inr free ↦
            elim (Bool-cases
              (is_hourly_cap_reached redis env.hour a env.settings.whatsapp_hourly_send_cap s)) [
                | inl full ↦ inr (rw (send_message, free, full) (Near-refl a s))
                | inr room ↦ elim (Bool-cases (within_daily_cap redis env a s)) [
                  | inr spent ↦ inr (rw (send_message, free, room, spent) (alert-Near a s))
                  | inl within ↦
                      let e : send_message redis env p s ≡ locked_send redis env p s =
                        rw (send_message, free, room, within) in
                      inl (rw e (locked_send-Shape p s), within)
                ]
              ]
      ]
