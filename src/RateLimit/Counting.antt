-- ===== src/RateLimit/Counting.antt =====
-- The counters of sends count: one more send is one more in the hour and in the day, and nothing
-- else in the store changes.
use senderplatformtest.Prelude.{
  ℕ, suc, ◌≤◌, ◌<◌, ◌≡◌, ◌≢◌, refl, ap, ◌∙◌, Bool, true, false, Option, none, some, String, leb,
  ◌==◌, if◌then◌else◌, arith,
}
use senderplatformtest.Redis.{RedisKey, hourly_rate_key, daily_rate_key, Value, text, number, Redis}
use senderplatformtest.RateLimit.{
  count_of, Account, hourly_send_count, is_hourly_cap_reached, bump, record_successful_send,
  get_daily_count, incr_daily_count, can_send_daily,
}

-- What INCR leaves at a key, and finds at one that it has not met.
abbrev pub IsCounter : Option Value → Type 0
IsCounter none = Unit
IsCounter (some (number n)) = Unit
IsCounter (some (text s)) = ⊥

module _ {Item : Type 0} (redis : Redis Item) where
  open redis use {
    Store, get, items, incr, expire, incr_absent, incr_present, get-incr_ne, items-incr, get-expire,
    items-expire,
  }

  -- `s'` is `s` with the counter at `key` one higher.
  pub record Counted (key : RedisKey) (s s' : Store) : Type 0 where
    pub stored : get key s' ≡ some (number (suc (count_of (get key s))))
    pub others : (j : RedisKey) → j ≢ key → get j s' ≡ get j s
    pub lists : (j : RedisKey) → items j s' ≡ items j s

  incr-count :
      (key : RedisKey) (s : Store) (o : Option Value)
      → get key s ≡ o
      → IsCounter o
      → ((incr key s).0 ≡ suc (count_of (get key s)))
        × (get key (incr key s).1 ≡ some (number (suc (count_of (get key s)))))
  unfolding count_of
  incr-count key s none e c = rw e (incr_absent key s e)
  incr-count key s (some (number n)) e c = rw e (incr_present key n s e)
  incr-count key s (some (text t)) e c = absurd c

  expire_if :
      (b : Bool) (key j : RedisKey) (n : ℕ) (s : Store)
      → (get j (if b then expire key (suc n) s else s) ≡ get j s)
        × (items j (if b then expire key (suc n) s else s) ≡ items j s)
  expire_if true key j n s = (get-expire key j n s, items-expire key j n s)
  expire_if false key j n s = (refl, refl)

  pub bump-Counted :
      (key : RedisKey) (n : ℕ) (s : Store)
      → IsCounter (get key s)
      → ((bump redis key (suc n) s).0 ≡ suc (count_of (get key s)))
        × Counted key s (bump redis key (suc n) s).1
  unfolding bump
  bump-Counted key n s c =
      let (counted, stored) = incr-count key s (get key s) refl c in
      let new = (incr key s).0 == 1 in
      let after = (incr key s).1 in
      (
        counted,
        record {
          stored = (expire_if new key key n after).0 ∙ stored;
          others = λ j ne. (expire_if new key j n after).0 ∙ get-incr_ne key j s ne;
          lists = λ j. (expire_if new key j n after).1 ∙ items-incr key j s;
        },
      )

  -- A recorded send raises the hour's count of its account by one, so the cap of the hour is reached
  -- exactly when that sum is at or above the cap (a cap of 0 is never reached); no other account's
  -- count changes. The stored counter must be one that INCR wrote, or absent.
  pub record_successful_send-counts :
      (hour : String) (account_id : ℕ) (cap : ℕ) (s : Store)
      → IsCounter (get (hourly_rate_key account_id hour) s)
      → let s' = (record_successful_send redis hour account_id s).1 in
        (hourly_send_count redis hour account_id s'
          ≡ suc (hourly_send_count redis hour account_id s))
        × (is_hourly_cap_reached redis hour account_id (suc cap) s'
            ≡ leb (suc cap) (suc (hourly_send_count redis hour account_id s)))
        × (is_hourly_cap_reached redis hour account_id 0 s' ≡ false)
        × ((b : ℕ)
            → b ≢ account_id
            → hourly_send_count redis hour b s' ≡ hourly_send_count redis hour b s)
  unfolding record_successful_send hourly_send_count is_hourly_cap_reached count_of
  record_successful_send-counts hour account_id cap s c =
      let key = hourly_rate_key account_id hour in
      let counted = (bump-Counted key 7199 s c).1 in
      let raised : count_of (get key (bump redis key 7200 s).1) ≡ suc (count_of (get key s)) =
        ap count_of counted.stored in
      (
        raised,
        ap (leb (suc cap)) raised,
        refl,
        λ b ne. ap count_of (counted.others (hourly_rate_key b hour) (λ same. ne (ground arith))),
      )

  -- A send that `can_send_daily` allows and that is then counted keeps the day's count within the
  -- day's cap; the count is one higher, and stays one that INCR wrote.
  pub daily_send_within_cap :
      (day : String) (setting_cap : ℕ) (account : Account) (s : Store)
      → IsCounter (get (daily_rate_key account.id day) s)
      → (can_send_daily redis day setting_cap account s).0 ≡ true
      → let s' = (incr_daily_count redis day account.id s).1 in
        (get_daily_count redis day account.id s' ≡ suc (get_daily_count redis day account.id s))
        × (get_daily_count redis day account.id s'
            ≤ (can_send_daily redis day setting_cap account s).2)
        × IsCounter (get (daily_rate_key account.id day) s')
  unfolding incr_daily_count get_daily_count can_send_daily count_of
  daily_send_within_cap day setting_cap account s c allowed =
      let key = daily_rate_key account.id day in
      let counted = (bump-Counted key 172799 s c).1 in
      let raised : count_of (get key (bump redis key 172800 s).1) ≡ suc (count_of (get key s)) =
        ap count_of counted.stored in
      (raised, ground arith, rw counted.stored tt)

  -- The same with no condition on what is stored, for all that is not the counter.
  pub bump-get_ne :
      (key j : RedisKey) (n : ℕ) (s : Store)
      → j ≢ key
      → get j (bump redis key (suc n) s).1 ≡ get j s
  unfolding bump
  bump-get_ne key j n s ne =
      (expire_if ((incr key s).0 == 1) key j n (incr key s).1).0 ∙ get-incr_ne key j s ne

  pub bump-items :
      (key j : RedisKey) (n : ℕ) (s : Store) → items j (bump redis key (suc n) s).1 ≡ items j s
  unfolding bump
  bump-items key j n s =
      (expire_if ((incr key s).0 == 1) key j n (incr key s).1).1 ∙ items-incr key j s

  pub can_send_daily-lt :
      (day : String) (setting_cap : ℕ) (account : Account) (s : Store)
      → (can_send_daily redis day setting_cap account s).0 ≡ true
      → get_daily_count redis day account.id s < (can_send_daily redis day setting_cap account s).2
  unfolding can_send_daily
  can_send_daily-lt day setting_cap account s allowed = ground arith
