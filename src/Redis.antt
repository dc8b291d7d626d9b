-- ===== src/Redis.antt =====
-- The Redis commands that the workers and services call, as an interface, and the keys of
-- multi-messaging-platform/workers/redis_keys.py. Redis is not part of the repository: its store is
-- abstract, and the laws are what the documentation of each command says. A key holds either a
-- value or a list, never both, so that list commands leave the values alone and the other way
-- round. Keys that run out between two commands are steps of the environment (Lock/Replicas).
pub mod Memory
pub mod Keys
pub mod Distinct
use senderplatformtest.Prelude.{
  ℕ, suc, ◌≡◌, ◌≢◌, Bool, true, false, Option, none, some, List, [], ◌∷◌, ◌++◌, String, drop,
}

-- One constructor for each function of redis_keys.py; `Keys.render` is the text that it returns.
pub data RedisKey : Type 0 where
  queue_key : String → ℕ → RedisKey
  delay_key : ℕ → RedisKey
  hourly_rate_key : ℕ → String → RedisKey
  daily_rate_key : ℕ → String → RedisKey
  daily_cap_alert_key : ℕ → String → RedisKey
  hourly_config_key : ℕ → RedisKey
  kill_switch_key : RedisKey
  whatsapp_send_kill_switch_key : RedisKey
  account_pause_key : ℕ → RedisKey
  campaign_pause_key : ℕ → RedisKey
  whatsapp_browser_lock_key : ℕ → RedisKey
  worker_heartbeat_key : String → String → RedisKey
  other_key : String → RedisKey

-- A stored value: a text, or a number in the decimal form that INCR keeps.
pub data Value : Type 0 where
  text : String → Value
  number : ℕ → Value

pub record Redis (Item : Type 0) : Type 1 where
  pub Store : Type 0
  -- What GET, LRANGE key 0 -1 and TTL answer; 0 stands for the negative answers of TTL.
  pub get : RedisKey → Store → Option Value
  pub items : RedisKey → Store → List Item
  pub ttl : RedisKey → Store → ℕ
  pub set : RedisKey → Value → Store → Store
  -- SET key value EX seconds
  pub set_ex : RedisKey → Value → ℕ → Store → Store
  -- SET key value NX EX seconds
  pub set_nx_ex : RedisKey → Value → ℕ → Store → Bool × Store
  pub delete : RedisKey → Store → Store
  pub incr : RedisKey → Store → ℕ × Store
  pub expire : RedisKey → ℕ → Store → Store
  pub lpop : RedisKey → Store → Option Item × Store
  pub lpush : RedisKey → Item → Store → Store
  pub rpush : RedisKey → Item → Store → Store
  -- LTRIM key n -1
  pub ltrim : RedisKey → ℕ → Store → Store
  pub get-set_self : (k : RedisKey) (v : Value) (s : Store) → get k (set k v s) ≡ some v
  pub get-set_ne : (k j : RedisKey) (v : Value) (s : Store) → j ≢ k → get j (set k v s) ≡ get j s
  pub items-set_ne :
      (k j : RedisKey) (v : Value) (s : Store) → j ≢ k → items j (set k v s) ≡ items j s
  pub ttl-set_ex_self : (k : RedisKey) (v : Value) (n : ℕ) (s : Store) → ttl k (set_ex k v n s) ≡ n
  pub get-set_ex_self :
      (k : RedisKey) (v : Value) (n : ℕ) (s : Store) → get k (set_ex k v n s) ≡ some v
  -- SET without EX takes away the time to live.
  pub ttl-set_self : (k : RedisKey) (v : Value) (s : Store) → ttl k (set k v s) ≡ 0
  pub get-set_ex_ne :
      (k j : RedisKey) (v : Value) (n : ℕ) (s : Store) → j ≢ k → get j (set_ex k v n s) ≡ get j s
  pub items-set_ex_ne :
      (k j : RedisKey) (v : Value) (n : ℕ) (s : Store)
      → j ≢ k
      → items j (set_ex k v n s) ≡ items j s
  pub set_nx_ex_free :
      (k : RedisKey) (v : Value) (n : ℕ) (s : Store)
      → get k s ≡ none
      → ((set_nx_ex k v n s).0 ≡ true) × (get k (set_nx_ex k v n s).1 ≡ some v)
  pub set_nx_ex_taken :
      (k : RedisKey) (v w : Value) (n : ℕ) (s : Store)
      → get k s ≡ some w
      → ((set_nx_ex k v n s).0 ≡ false) × ((set_nx_ex k v n s).1 ≡ s)
  pub get-set_nx_ex_ne :
      (k j : RedisKey) (v : Value) (n : ℕ) (s : Store)
      → j ≢ k
      → get j (set_nx_ex k v n s).1 ≡ get j s
  pub items-set_nx_ex :
      (k j : RedisKey) (v : Value) (n : ℕ) (s : Store) → items j (set_nx_ex k v n s).1 ≡ items j s
  pub get-delete_self : (k : RedisKey) (s : Store) → get k (delete k s) ≡ none
  pub get-delete_ne : (k j : RedisKey) (s : Store) → j ≢ k → get j (delete k s) ≡ get j s
  pub items-delete_ne : (k j : RedisKey) (s : Store) → j ≢ k → items j (delete k s) ≡ items j s
  pub incr_absent :
      (k : RedisKey) (s : Store)
      → get k s ≡ none
      → ((incr k s).0 ≡ 1) × (get k (incr k s).1 ≡ some (number 1))
  pub incr_present :
      (k : RedisKey) (n : ℕ) (s : Store)
      → get k s ≡ some (number n)
      → ((incr k s).0 ≡ suc n) × (get k (incr k s).1 ≡ some (number (suc n)))
  pub get-incr_ne : (k j : RedisKey) (s : Store) → j ≢ k → get j (incr k s).1 ≡ get j s
  pub items-incr : (k j : RedisKey) (s : Store) → items j (incr k s).1 ≡ items j s
  pub get-expire : (k j : RedisKey) (n : ℕ) (s : Store) → get j (expire k (suc n) s) ≡ get j s
  pub items-expire : (k j : RedisKey) (n : ℕ) (s : Store) → items j (expire k (suc n) s) ≡ items j s
  pub lpop_empty : (k : RedisKey) (s : Store) → items k s ≡ [] → lpop k s ≡ (none, s)
  pub lpop_head :
      (k : RedisKey) (x : Item) (xs : List Item) (s : Store)
      → items k s ≡ x ∷ xs
      → ((lpop k s).0 ≡ some x) × (items k (lpop k s).1 ≡ xs)
  pub items-lpop_ne : (k j : RedisKey) (s : Store) → j ≢ k → items j (lpop k s).1 ≡ items j s
  pub get-lpop : (k j : RedisKey) (s : Store) → get j (lpop k s).1 ≡ get j s
  pub items-lpush_self :
      (k : RedisKey) (x : Item) (s : Store) → items k (lpush k x s) ≡ x ∷ items k s
  pub items-lpush_ne :
      (k j : RedisKey) (x : Item) (s : Store) → j ≢ k → items j (lpush k x s) ≡ items j s
  pub get-lpush : (k j : RedisKey) (x : Item) (s : Store) → get j (lpush k x s) ≡ get j s
  pub items-rpush_self :
      (k : RedisKey) (x : Item) (s : Store) → items k (rpush k x s) ≡ items k s ++ x ∷ []
  pub items-rpush_ne :
      (k j : RedisKey) (x : Item) (s : Store) → j ≢ k → items j (rpush k x s) ≡ items j s
  pub get-rpush : (k j : RedisKey) (x : Item) (s : Store) → get j (rpush k x s) ≡ get j s
  pub items-ltrim_self :
      (k : RedisKey) (n : ℕ) (s : Store) → items k (ltrim k n s) ≡ drop n (items k s)
  pub items-ltrim_ne :
      (k j : RedisKey) (n : ℕ) (s : Store) → j ≢ k → items j (ltrim k n s) ≡ items j s
  pub get-ltrim : (k j : RedisKey) (n : ℕ) (s : Store) → get j (ltrim k n s) ≡ get j s
