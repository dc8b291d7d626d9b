-- ===== src/RateLimit/Caps.antt =====
-- The warming ramp and the cap of a day.
use senderplatformtest.Prelude.{ℕ, ◌≤◌, ◌≡◌, Option, none, some, arith}
use senderplatformtest.RateLimit.{warming_ramp, effective_daily_cap}

-- The longer an account has warmed, the more it may send, and the ramp stays within 5 and 150.
pub warming_ramp_mono :
    (d e : ℕ)
    → d ≤ e
    → (warming_ramp d ≤ warming_ramp e) × (5 ≤ warming_ramp d) × (warming_ramp e ≤ 150)
unfolding warming_ramp
warming_ramp_mono d e h = ground arith

-- The cap of a day is at most the ramp and at most the cap that applies, the account's own where it
-- has one and the setting otherwise; a later day's cap is never below an earlier one's.
pub effective_daily_cap_bounds :
    (d e : ℕ) (policy : Option ℕ) (setting : ℕ)
    → d ≤ e
    → (effective_daily_cap d policy setting ≤ warming_ramp d)
      × (effective_daily_cap d none setting ≤ setting)
      × ((p : ℕ) → policy ≡ some p → effective_daily_cap d policy setting ≤ p)
      × (effective_daily_cap d policy setting ≤ effective_daily_cap e policy setting)
unfolding effective_daily_cap
effective_daily_cap_bounds d e none setting h =
    (omega arith, omega arith, λ p n. cc, omega (arith, warming_ramp_mono d e h))
effective_daily_cap_bounds d e (some q) setting h =
    (omega arith, omega arith, λ p same. ground arith, omega (arith, warming_ramp_mono d e h))
