-- ===== src/Controls/Delaying.antt =====
-- The delay of an account between the dashboard and the pool worker, which use one key for it.
use senderplatformtest.Prelude.{
  ℕ, suc, ◌≡◌, ◌≤◌, ◌<◌, ◌⊎◌, refl, ap, ◌∙◌, Bool, true, false, some, arith, ltb, inl, inr, ok,
  raise,
}
use senderplatformtest.Prelude.Int.{pos}
use senderplatformtest.Prelude.Decimal.{
  str, isdigit-str, strip-digits, all-isdigit, int_text, int_text-str, nonempty-isdigit,
}
use senderplatformtest.Redis.{delay_key, text, number, Redis}
use senderplatformtest.RateLimit.{is_min_delay_active, set_min_delay}
use senderplatformtest.Controls.{
  from_redis, delay_out_of_range, value_text, delay_of, get_account_delay, set_account_delay,
}

delay_of-number :
    (account_id n : ℕ)
    → delay_of account_id (some (number n))
      ≡ ok (record { account_id = account_id; delay_seconds = pos n; source = from_redis })
unfolding delay_of value_text
delay_of-number account_id n =
    let stripped = strip-digits (str n) (all-isdigit (str n) (isdigit-str n)) in
    rw (stripped, nonempty-isdigit (str n) (isdigit-str n), int_text-str n) refl

module _ {Item : Type 0} (redis : Redis Item) where
  open redis use {Store, get, set, get-set_self, get-set_ne, ttl-set_self, get-set_ex_self}

  -- The dashboard reads back the delay that it has set, between 1 and 3600 seconds.
  pub get-set_account_delay :
      (account_id delay_seconds : ℕ) (s : Store)
      → 1 ≤ delay_seconds
      → delay_seconds ≤ 3600
      → get_account_delay redis true account_id
          (set_account_delay redis true account_id delay_seconds s).1
        ≡ ok (record {
          account_id = account_id;
          delay_seconds = pos delay_seconds;
          source = from_redis;
        })
  unfolding get_account_delay set_account_delay
  get-set_account_delay account_id delay_seconds s low high =
      let inside : (ltb delay_seconds 1 ≡ false) × (ltb 3600 delay_seconds ≡ false) =
        (ground arith, ground arith) in
      rw (inside.0, inside.1)
        (ap (delay_of account_id) (get-set_self (delay_key account_id) (number delay_seconds) s)
          ∙ delay_of-number account_id delay_seconds)

  -- A delay that is 0 or above 3600 is refused, and nothing is stored.
  pub set_account_delay_refused :
      (reachable : Bool) (account_id delay_seconds : ℕ) (s : Store)
      → (delay_seconds < 1) ⊎ (3600 < delay_seconds)
      → set_account_delay redis reachable account_id delay_seconds s ≡ (raise delay_out_of_range, s)
  unfolding set_account_delay
  set_account_delay_refused reachable account_id delay_seconds s (inl low) =
      let below : ltb delay_seconds 1 ≡ true = ground arith in rw below refl
  set_account_delay_refused reachable account_id delay_seconds s (inr high) =
      let within : ltb delay_seconds 1 ≡ false = ground arith in
      let above : ltb 3600 delay_seconds ≡ true = ground arith in rw (within, above) refl

  -- Both directions of the shared key. A delay between 1 and 3600 seconds that the dashboard sets ends
  -- the account's running cooldown, whatever was left of it; and directly after the pool worker has
  -- started a cooldown of at least a second, the dashboard reads a delay of 1 second from Redis,
  -- whatever delay was set before.
  pub delay_key_shared :
      (account_id delay_seconds cooldown : ℕ) (s : Store)
      → 1 ≤ delay_seconds
      → delay_seconds ≤ 3600
      → (is_min_delay_active redis account_id
            (set_account_delay redis true account_id delay_seconds s).1
          ≡ false)
        × (get_account_delay redis true account_id (set_min_delay redis account_id (suc cooldown) s)
            ≡ ok (record { account_id = account_id; delay_seconds = pos 1; source = from_redis }))
  unfolding get_account_delay set_account_delay is_min_delay_active set_min_delay delay_of
      value_text int_text
  delay_key_shared account_id delay_seconds cooldown s low high =
      let inside : (ltb delay_seconds 1 ≡ false) × (ltb 3600 delay_seconds ≡ false) =
        (ground arith, ground arith) in
      (
        rw (inside.0, inside.1, ttl-set_self (delay_key account_id) (number delay_seconds) s) refl,
        rw (get-set_ex_self (delay_key account_id) (text "1") (suc cooldown) s) refl,
      )
