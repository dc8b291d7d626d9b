-- ===== src/Controls/Switching.antt =====
-- The dashboard's kill switch, as the workers see it.
use senderplatformtest.Prelude.{
  ◌≡◌, ◌≢◌, refl, sym, ap, ◌∙◌, Bool, true, false, Option, none, some, [], ◌∷◌, arith, ◌==◌, ok,
}
use senderplatformtest.Prelude.Text.{Text, codes, lower, text_eq, isdigit, to_lower}
use senderplatformtest.Prelude.Decimal.{str, isdigit-str, strip-digits, all-isdigit, head_digit}
use senderplatformtest.Redis.{RedisKey, kill_switch_key, Value, text, number, Redis}
use senderplatformtest.Worker.{
  MultiAccountWorker, Ports, is_redis_truthy, run_once, paused_by_kill_switch,
}
use senderplatformtest.Worker.Rounds.{kill_switch_stops}
use senderplatformtest.Controls.{
  value_text, parse_redis_bool, switch_text, get_kill_switch_status, set_kill_switch,
}

digit_not_t : (s : Text) → isdigit s ≡ true → text_eq (lower s) (codes "true") ≡ false
digit_not_t [] h = cc
digit_not_t (c ∷ s) h =
    let digit = (head_digit c s h).0 in
    let other : to_lower c == 116 ≡ false = ground arith in rw other refl

-- The dashboard and the workers read the kill switch alike: what the one takes for on is on for the
-- others, for every value that may stand under the key.
pub parse_redis_bool-agrees : (o : Option Value) → parse_redis_bool o ≡ is_redis_truthy o
unfolding parse_redis_bool is_redis_truthy value_text
parse_redis_bool-agrees none = refl
parse_redis_bool-agrees (some (text s)) = refl
parse_redis_bool-agrees (some (number n)) =
    rw (strip-digits (str n) (all-isdigit (str n) (isdigit-str n)))
      (digit_not_t (str n) (isdigit-str n))

module _ {Item : Type 0} (redis : Redis Item) where
  open redis use {Store, get, set, get-set_self, get-set_ne}

  switch_value : (enabled : Bool) → parse_redis_bool (some (switch_text enabled)) ≡ enabled
  unfolding parse_redis_bool switch_text value_text
  switch_value true = refl
  switch_value false = refl

  -- Setting the kill switch, on or off, makes its status that value and changes no other key.
  pub set_kill_switch-status :
      (enabled : Bool) (s : Store)
      → (get_kill_switch_status redis true (set_kill_switch redis true enabled s).1 ≡ ok enabled)
        × ((j : RedisKey)
            → j ≢ kill_switch_key
            → get j (set_kill_switch redis true enabled s).1 ≡ get j s)
  unfolding get_kill_switch_status set_kill_switch
  set_kill_switch-status enabled s = (
    ap ok (
        ap parse_redis_bool (get-set_self kill_switch_key (switch_text enabled) s)
        ∙ switch_value enabled),
    λ j other. get-set_ne kill_switch_key j (switch_text enabled) s other,
  )

  -- Once the dashboard has switched the kill switch on, a call of `run_once` of any worker over the
  -- same Redis reads nothing and changes nothing.
  pub set_kill_switch-run_once :
      {Db : Type 0} (ports : Ports redis Db) (w : MultiAccountWorker) (s : Store) (db : Db)
      → run_once redis ports w (set_kill_switch redis true true s).1 db
        ≡ (paused_by_kill_switch, w, (set_kill_switch redis true true s).1, db)
  unfolding set_kill_switch
  set_kill_switch-run_once ports w s db =
      let on = set kill_switch_key (switch_text true) s in
      kill_switch_stops redis ports w on db (
        sym (parse_redis_bool-agrees (get kill_switch_key on))
        ∙ ap parse_redis_bool (get-set_self kill_switch_key (switch_text true) s)
        ∙ switch_value true)
