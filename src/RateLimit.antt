-- ===== src/RateLimit.antt =====
-- Per-account send limits: multi-messaging-platform/workers/rate_limit.py. The clock's texts for
-- the hour and the day are arguments, as are the dates' difference in days.
pub mod Caps
pub mod Counting
use senderplatformtest.Prelude.{
  ℕ, zero, suc, ◌≡◌, Bool, true, false, not, ◌&&◌, Option, none, some, String, ltb, leb, ◌==◌, min,
  if◌then◌else◌,
}
use senderplatformtest.Prelude.Text.{codes, strip, isdigit, int_from}
use senderplatformtest.Prelude.Int.{ℤ, pos_part}
use senderplatformtest.Redis.{
  RedisKey, delay_key, hourly_rate_key, daily_rate_key, Value, text, number, Redis,
}

abbrev pub daily_counter_ttl_seconds : ℕ
daily_counter_ttl_seconds = 172800

-- int(value), with 0 for None and where the conversion fails
unfoldable pub count_of : Option Value → ℕ
count_of none = 0
count_of (some (number n)) = n
count_of (some (text s)) = let t = strip (codes s) in if isdigit t then int_from 0 t else 0

unfoldable pub warming_ramp : ℕ → ℕ
warming_ramp day = if leb day 2 then 5 else if leb day 6 then 15 else if leb day 13 then 50 else 150

-- `none` is an account whose warming has not started; otherwise the days since the start, which may
-- be negative.
unfoldable pub compute_warming_day : Option ℤ → ℕ
compute_warming_day none = 0
compute_warming_day (some delta_days) = pos_part delta_days

unfoldable pub effective_daily_cap : ℕ → Option ℕ → ℕ → ℕ
unfolding warming_ramp
effective_daily_cap warming_day none setting_cap = min (warming_ramp warming_day) setting_cap
effective_daily_cap warming_day (some policy_daily_cap) setting_cap =
    min (warming_ramp warming_day) policy_daily_cap

-- What `can_send_daily` reads of an account.
pub record Account : Type 0 where
  pub id : ℕ
  pub policy_daily_cap : Option ℕ
  pub warming_days : Option ℤ

module _ {Item : Type 0} (redis : Redis Item) where
  open redis use {Store, get, ttl, set_ex, incr, expire}

  unfoldable pub is_min_delay_active : ℕ → Store → Bool
  is_min_delay_active account_id s = ltb 0 (ttl (delay_key account_id) s)

  unfoldable pub set_min_delay : ℕ → ℕ → Store → Store
  set_min_delay account_id zero s = s
  set_min_delay account_id (suc delay) s = set_ex (delay_key account_id) (text "1") (suc delay) s

  unfoldable pub hourly_send_count : String → ℕ → Store → ℕ
  unfolding count_of
  hourly_send_count hour account_id s = count_of (get (hourly_rate_key account_id hour) s)

  unfoldable pub is_hourly_cap_reached : String → ℕ → ℕ → Store → Bool
  unfolding hourly_send_count
  is_hourly_cap_reached hour account_id zero s = false
  is_hourly_cap_reached hour account_id (suc cap) s =
      leb (suc cap) (hourly_send_count hour account_id s)

  -- `incr`, and `expire` if the counter is new: both counters are kept so.
  unfoldable pub bump : RedisKey → ℕ → Store → ℕ × Store
  bump key seconds s =
      let (count, s') = incr key s in (count, if count == 1 then expire key seconds s' else s')

  unfoldable pub record_successful_send : String → ℕ → Store → ℕ × Store
  unfolding bump
  record_successful_send hour account_id s = bump (hourly_rate_key account_id hour) 7200 s

  unfoldable pub get_daily_count : String → ℕ → Store → ℕ
  unfolding count_of
  get_daily_count day account_id s = count_of (get (daily_rate_key account_id day) s)

  unfoldable pub incr_daily_count : String → ℕ → Store → ℕ × Store
  unfolding bump
  incr_daily_count day account_id s =
      bump (daily_rate_key account_id day) daily_counter_ttl_seconds s

  -- (allowed, count, cap); the reason's text is left out.
  unfoldable pub can_send_daily : String → ℕ → Account → Store → Bool × ℕ × ℕ
  unfolding compute_warming_day get_daily_count effective_daily_cap
  can_send_daily day setting_cap account s =
      let warming_day = compute_warming_day account.warming_days in
      let count = get_daily_count day account.id s in
      let cap = effective_daily_cap warming_day account.policy_daily_cap setting_cap in
      (ltb count cap, count, cap)
