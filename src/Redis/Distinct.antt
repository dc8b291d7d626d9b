-- ===== src/Redis/Distinct.antt =====
-- Different keys have different texts: what lets the interface take keys for texts.
use senderplatformtest.Prelude.{
  ℕ, ◌≡◌, ◌≢◌, refl, sym, ap, ◌∙◌, Bool, true, false, not, ◌||◌, [], ◌∷◌, ◌++◌, String, arith, ◌==◌,
  if◌then◌else◌, drop,
}
use Prim.Native.Char.{Char, code}
use text.Mathlib.TextEquality.{codes_equal}
use senderplatformtest.Prelude.Text.{Text, codes, all_digits, isdigit, starts_with}
use senderplatformtest.Prelude.Decimal.{str, isdigit-str, str_injective, all-isdigit, head_digit}
use senderplatformtest.Redis.{
  RedisKey, queue_key, delay_key, hourly_rate_key, daily_rate_key, daily_cap_alert_key,
  hourly_config_key, kill_switch_key, whatsapp_send_kill_switch_key, account_pause_key,
  campaign_pause_key, whatsapp_browser_lock_key, worker_heartbeat_key, other_key,
}
use senderplatformtest.Redis.Keys.{render}

abbrev has_colon : Text → Bool
has_colon [] = false
has_colon (c ∷ s) = c == 58 || has_colon s

-- A key of redis_keys.py; a platform's name has no colon, which would move the parts of a key.
abbrev pub is_plain : RedisKey → Bool
is_plain (other_key name) = false
is_plain (queue_key platform account_id) = not (has_colon (codes platform))
is_plain (worker_heartbeat_key platform hostname) = not (has_colon (codes platform))
is_plain _ = true

code_injective : (c d : Char) → code c ≡ code d → c ≡ d
code_injective c d e = codes_equal c d (ground arith)

heads : (x y : ℕ) (xs ys : Text) → x ∷ xs ≡ y ∷ ys → (x ≡ y) × (xs ≡ ys)
heads x y xs ys e = (cc, cc)

codes_injective : (p q : String) → codes p ≡ codes q → p ≡ q
codes_injective String.[] String.[] e = refl
codes_injective (String.◌∷◌ c p) (String.◌∷◌ d q) e =
    let (first, rest) = heads (code c) (code d) (codes p) (codes q) e in
    cc (code_injective c d first, codes_injective p q rest)
codes_injective String.[] (String.◌∷◌ d q) e = cc
codes_injective (String.◌∷◌ c p) String.[] e = cc

not_colon : (c : ℕ) (s : Text) → has_colon (c ∷ s) ≡ false → (c ≢ 58) × (has_colon s ≡ false)
not_colon c s h = (ground arith, ground arith)

-- The parts before and after the first colon are determined.
colon_splits :
    (p q s t : Text)
    → has_colon p ≡ false
    → has_colon q ≡ false
    → p ++ 58 ∷ s ≡ q ++ 58 ∷ t
    → (p ≡ q) × (s ≡ t)
colon_splits [] [] s t h g e = (refl, (heads 58 58 s t e).1)
colon_splits [] (d ∷ q) s t h g e =
    absurd ((not_colon d q g).0 (sym (heads 58 d s (q ++ 58 ∷ t) e).0))
colon_splits (c ∷ p) [] s t h g e = absurd ((not_colon c p h).0 (heads c 58 (p ++ 58 ∷ s) t e).0)
colon_splits (c ∷ p) (d ∷ q) s t h g e =
    let (first, rest) = heads c d (p ++ 58 ∷ s) (q ++ 58 ∷ t) e in
    let (same, after) = colon_splits p q s t (not_colon c p h).1 (not_colon d q g).1 rest in
    (cc (first, same), after)

digits_no_colon : (s : Text) → all_digits s ≡ true → has_colon s ≡ false
digits_no_colon [] h = refl
digits_no_colon (c ∷ s) h =
    let (digit, rest) = head_digit c s h in
    let other : c == 58 ≡ false = ground arith in rw (other, digits_no_colon s rest)

str_no_colon : (n : ℕ) → has_colon (str n) ≡ false
str_no_colon n = digits_no_colon (str n) (all-isdigit (str n) (isdigit-str n))

-- The texts of one function of redis_keys.py start alike.
abbrev kind_of : Text → ℕ
kind_of s =
    if starts_with (codes "queue:") s
    then 0
    else if starts_with (codes "config:delay:") s
    then 1
    else if starts_with (codes "config:hours:") s
    then 2
    else if starts_with (codes "rate:daily:") s
    then 3
    else if starts_with (codes "rate:capalert:") s
    then 4
    else if starts_with (codes "rate:") s
    then 5
    else if starts_with (codes "system:kill") s
    then 6
    else if starts_with (codes "system:") s
    then 7
    else if starts_with (codes "account:") s
    then 8
    else if starts_with (codes "campaign:") s
    then 9
    else if starts_with (codes "lock:") s
    then 10
    else 11

abbrev kind : RedisKey → ℕ
kind (queue_key _ _) = 0
kind (delay_key _) = 1
kind (hourly_config_key _) = 2
kind (daily_rate_key _ _) = 3
kind (daily_cap_alert_key _ _) = 4
kind (hourly_rate_key _ _) = 5
kind kill_switch_key = 6
kind whatsapp_send_kill_switch_key = 7
kind (account_pause_key _) = 8
kind (campaign_pause_key _) = 9
kind (whatsapp_browser_lock_key _) = 10
kind (worker_heartbeat_key _ _) = 11
kind (other_key _) = 12

-- The text after "rate:" starts with a digit, and not with a letter.
hourly_kind : (s t : Text) → isdigit s ≡ true → kind_of (codes "rate:" ++ s ++ codes ":" ++ t) ≡ 5
hourly_kind [] t h = cc
hourly_kind (c ∷ s) t h =
    let digit = (head_digit c s h).0 in
    let other : (100 == c ≡ false) × (99 == c ≡ false) = (ground arith, ground arith) in
    rw (other.0, other.1) refl

kind_of-render : (k : RedisKey) → is_plain k ≡ true → kind_of (render k) ≡ kind k
unfolding render
kind_of-render (queue_key p a) h = refl
kind_of-render (delay_key a) h = refl
kind_of-render (hourly_config_key a) h = refl
kind_of-render (daily_rate_key a d) h = refl
kind_of-render (daily_cap_alert_key a d) h = refl
kind_of-render (hourly_rate_key a t) h = hourly_kind (str a) (codes t) (isdigit-str a)
kind_of-render kill_switch_key h = refl
kind_of-render whatsapp_send_kill_switch_key h = refl
kind_of-render (account_pause_key a) h = refl
kind_of-render (campaign_pause_key a) h = refl
kind_of-render (whatsapp_browser_lock_key a) h = refl
kind_of-render (worker_heartbeat_key p t) h = refl
kind_of-render (other_key name) h = cc

rejoin : (p s : Text) → p ++ 58 ∷ [] ++ s ≡ p ++ 58 ∷ s
rejoin [] s = refl
rejoin (c ∷ p) s = ap (λ l. c ∷ l) (rejoin p s)

named_account :
    (a b : ℕ) (s t : String)
    → str a ++ 58 ∷ [] ++ codes s ≡ str b ++ 58 ∷ [] ++ codes t
    → (a ≡ b) × (s ≡ t)
named_account a b s t e =
    let (left, right) =
      colon_splits (str a) (str b) (codes s) (codes t) (str_no_colon a) (str_no_colon b)
        (sym (rejoin (str a) (codes s)) ∙ e ∙ rejoin (str b) (codes t)) in
    (str_injective a b left, codes_injective s t right)

platform_part :
    (p q : String) (s t : Text)
    → not (has_colon (codes p)) ≡ true
    → not (has_colon (codes q)) ≡ true
    → codes p ++ 58 ∷ [] ++ s ≡ codes q ++ 58 ∷ [] ++ t
    → (p ≡ q) × (s ≡ t)
platform_part p q s t h g e =
    let (left, right) =
      colon_splits (codes p) (codes q) s t (ground arith) (ground arith)
        (sym (rejoin (codes p) s) ∙ e ∙ rejoin (codes q) t) in
    (codes_injective p q left, right)

-- Two keys of redis_keys.py with the same text are the same key, where the names of platforms have
-- no colon: the same function of the module, at the same arguments.
pub render_injective :
    (j k : RedisKey) → is_plain j ≡ true → is_plain k ≡ true → render j ≡ render k → j ≡ k
unfolding render
render_injective (queue_key p a) (queue_key q b) h g e =
    let (same, ids) = platform_part p q (str a) (str b) h g (ap (drop 6) e) in
    cc (same, str_injective a b ids)
render_injective (delay_key a) (delay_key b) h g e =
    ap delay_key (str_injective a b (ap (drop 13) e))
render_injective (hourly_config_key a) (hourly_config_key b) h g e =
    ap hourly_config_key (str_injective a b (ap (drop 13) e))
render_injective (hourly_rate_key a s) (hourly_rate_key b t) h g e =
    let (ids, same) = named_account a b s t (ap (drop 5) e) in cc (ids, same)
render_injective (daily_rate_key a s) (daily_rate_key b t) h g e =
    let (ids, same) = named_account a b s t (ap (drop 11) e) in cc (ids, same)
render_injective (daily_cap_alert_key a s) (daily_cap_alert_key b t) h g e =
    let (ids, same) = named_account a b s t (ap (drop 14) e) in cc (ids, same)
render_injective (account_pause_key a) (account_pause_key b) h g e = ap account_pause_key (
    str_injective a b
      (colon_splits (str a) (str b) (codes "paused") (codes "paused") (str_no_colon a)
        (str_no_colon b) (ap (drop 8) e)).0)
render_injective (campaign_pause_key a) (campaign_pause_key b) h g e = ap campaign_pause_key (
    str_injective a b
      (colon_splits (str a) (str b) (codes "paused") (codes "paused") (str_no_colon a)
        (str_no_colon b) (ap (drop 9) e)).0)
render_injective (whatsapp_browser_lock_key a) (whatsapp_browser_lock_key b) h g e =
    ap whatsapp_browser_lock_key (str_injective a b (ap (drop 16) e))
render_injective (worker_heartbeat_key p s) (worker_heartbeat_key q t) h g e =
    let (same, host) = platform_part p q (codes s) (codes t) h g (ap (drop 13) e) in
    cc (same, codes_injective s t host)
render_injective kill_switch_key kill_switch_key h g e = refl
render_injective whatsapp_send_kill_switch_key whatsapp_send_kill_switch_key h g e = refl
render_injective j k h g e =
    let apart : kind j ≡ kind k = sym (kind_of-render j h) ∙ ap kind_of e ∙ kind_of-render k g in cc
