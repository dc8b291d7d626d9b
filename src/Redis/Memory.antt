-- ===== src/Redis/Memory.antt =====
-- A store in memory that obeys the laws of `Redis`: it shows that they can hold, and runs the tests.
use senderplatformtest.Prelude.{
  ℕ, suc, ◌≡◌, ◌≢◌, refl, Bool, true, false, ◌&&◌, Option, none, some, List, [], ◌∷◌, ◌++◌, arith,
  ◌==◌, if◌then◌else◌, str_eq, eq_iff, drop, Bool-cases, inl, inr, subst,
}
use senderplatformtest.Redis.{
  RedisKey, queue_key, delay_key, hourly_rate_key, daily_rate_key, daily_cap_alert_key,
  hourly_config_key, kill_switch_key, whatsapp_send_kill_switch_key, account_pause_key,
  campaign_pause_key, whatsapp_browser_lock_key, worker_heartbeat_key, other_key, Value, text,
  number, Redis,
}

abbrev pub key_eq : RedisKey → RedisKey → Bool
key_eq (queue_key p a) (queue_key q b) = str_eq p q && a == b
key_eq (delay_key a) (delay_key b) = a == b
key_eq (hourly_rate_key a h) (hourly_rate_key b i) = a == b && str_eq h i
key_eq (daily_rate_key a h) (daily_rate_key b i) = a == b && str_eq h i
key_eq (daily_cap_alert_key a h) (daily_cap_alert_key b i) = a == b && str_eq h i
key_eq (hourly_config_key a) (hourly_config_key b) = a == b
key_eq kill_switch_key kill_switch_key = true
key_eq whatsapp_send_kill_switch_key whatsapp_send_kill_switch_key = true
key_eq (account_pause_key a) (account_pause_key b) = a == b
key_eq (campaign_pause_key a) (campaign_pause_key b) = a == b
key_eq (whatsapp_browser_lock_key a) (whatsapp_browser_lock_key b) = a == b
key_eq (worker_heartbeat_key p h) (worker_heartbeat_key q i) = str_eq p q && str_eq h i
key_eq (other_key p) (other_key q) = str_eq p q
key_eq _ _ = false

key_eq-eq : (j k : RedisKey) → key_eq j k ≡ true → j ≡ k
key_eq-eq (queue_key p a) (queue_key q b) h = ground (arith, eq_iff p q)
key_eq-eq (delay_key a) (delay_key b) h = ground arith
key_eq-eq (hourly_rate_key a p) (hourly_rate_key b q) h = ground (arith, eq_iff p q)
key_eq-eq (daily_rate_key a p) (daily_rate_key b q) h = ground (arith, eq_iff p q)
key_eq-eq (daily_cap_alert_key a p) (daily_cap_alert_key b q) h = ground (arith, eq_iff p q)
key_eq-eq (hourly_config_key a) (hourly_config_key b) h = ground arith
key_eq-eq kill_switch_key kill_switch_key h = refl
key_eq-eq whatsapp_send_kill_switch_key whatsapp_send_kill_switch_key h = refl
key_eq-eq (account_pause_key a) (account_pause_key b) h = ground arith
key_eq-eq (campaign_pause_key a) (campaign_pause_key b) h = ground arith
key_eq-eq (whatsapp_browser_lock_key a) (whatsapp_browser_lock_key b) h = ground arith
key_eq-eq (worker_heartbeat_key p a) (worker_heartbeat_key q b) h =
    ground (arith, eq_iff p q, eq_iff a b)
key_eq-eq (other_key p) (other_key q) h = ground (arith, eq_iff p q)
key_eq-eq _ _ h = cc

key_eq_refl : (k : RedisKey) → key_eq k k ≡ true
key_eq_refl (queue_key p a) = ground (arith, eq_iff p p)
key_eq_refl (delay_key a) = ground arith
key_eq_refl (hourly_rate_key a p) = ground (arith, eq_iff p p)
key_eq_refl (daily_rate_key a p) = ground (arith, eq_iff p p)
key_eq_refl (daily_cap_alert_key a p) = ground (arith, eq_iff p p)
key_eq_refl (hourly_config_key a) = ground arith
key_eq_refl kill_switch_key = refl
key_eq_refl whatsapp_send_kill_switch_key = refl
key_eq_refl (account_pause_key a) = ground arith
key_eq_refl (campaign_pause_key a) = ground arith
key_eq_refl (whatsapp_browser_lock_key a) = ground arith
key_eq_refl (worker_heartbeat_key p a) = ground (arith, eq_iff p p, eq_iff a a)
key_eq_refl (other_key p) = ground (arith, eq_iff p p)

key_eq-ne : (j k : RedisKey) → j ≢ k → key_eq j k ≡ false
key_eq-ne j k n = elim (Bool-cases (key_eq j k)) [
  | inl e ↦ absurd (n (key_eq-eq j k e))
  | inr e ↦ e
]

pub RedisKey-discrete : Discrete RedisKey
RedisKey-discrete j k = elim (Bool-cases (key_eq j k)) [
  | inl e ↦ yes (key_eq-eq j k e)
  | inr e ↦ no (λ same. cc (e, subst (λ i. key_eq j i ≡ true) same (key_eq_refl j)))
]

abbrev pub update {ℓ} : {A : Type ℓ} → RedisKey → A → (RedisKey → A) → RedisKey → A
update k a f j = if key_eq j k then a else f j

pub update_self {ℓ} : {A : Type ℓ} (k : RedisKey) (a : A) (f : RedisKey → A) → update k a f k ≡ a
update_self k a f = rw (key_eq_refl k)

pub update_ne {ℓ} :
    {A : Type ℓ} (k j : RedisKey) (a : A) (f : RedisKey → A) → j ≢ k → update k a f j ≡ f j
update_ne k j a f n = rw (key_eq-ne j k n)

pub record Memory (Item : Type 0) : Type 0 where
  pub values : RedisKey → Option Value
  pub lists : RedisKey → List Item
  pub times : RedisKey → ℕ

module _ {Item : Type 0} where
  abbrev pub nothing : Memory Item
  nothing = record { values = λ _. none; lists = λ _. []; times = λ _. 0 }

  abbrev put_value : RedisKey → Option Value → ℕ → Memory Item → Memory Item
  put_value k v n m = record m { values = update k v m.values; times = update k n m.times }

  abbrev put_list : RedisKey → List Item → Memory Item → Memory Item
  put_list k l m = record m { lists = update k l m.lists }

  abbrev incr_value : RedisKey → Option Value → Memory Item → ℕ × Memory Item
  incr_value k none m = (1, record m { values = update k (some (number 1)) m.values })
  incr_value k (some (number n)) m =
      (suc n, record m { values = update k (some (number (suc n))) m.values })
  incr_value k (some (text _)) m = (0, m)

  abbrev set_if_free : RedisKey → Value → ℕ → Option Value → Memory Item → Bool × Memory Item
  set_if_free k v n none m = (true, put_value k (some v) n m)
  set_if_free k v n (some _) m = (false, m)

  abbrev pop_list : RedisKey → List Item → Memory Item → Option Item × Memory Item
  pop_list k [] m = (none, m)
  pop_list k (x ∷ xs) m = (some x, put_list k xs m)

  pub get-incr_value_ne :
      (k j : RedisKey) (o : Option Value) (m : Memory Item)
      → j ≢ k
      → (incr_value k o m).1.values j ≡ m.values j
  get-incr_value_ne k j none m n = update_ne k j (some (number 1)) m.values n
  get-incr_value_ne k j (some (number i)) m n = update_ne k j (some (number (suc i))) m.values n
  get-incr_value_ne k j (some (text _)) m n = refl

  pub lists-incr_value :
      (k j : RedisKey) (o : Option Value) (m : Memory Item)
      → (incr_value k o m).1.lists j ≡ m.lists j
  lists-incr_value k j none m = refl
  lists-incr_value k j (some (number i)) m = refl
  lists-incr_value k j (some (text _)) m = refl

  pub get-set_if_free_ne :
      (k j : RedisKey) (v : Value) (i : ℕ) (o : Option Value) (m : Memory Item)
      → j ≢ k
      → (set_if_free k v i o m).1.values j ≡ m.values j
  get-set_if_free_ne k j v i none m n = update_ne k j (some v) m.values n
  get-set_if_free_ne k j v i (some _) m n = refl

  pub lists-set_if_free :
      (k j : RedisKey) (v : Value) (i : ℕ) (o : Option Value) (m : Memory Item)
      → (set_if_free k v i o m).1.lists j ≡ m.lists j
  lists-set_if_free k j v i none m = refl
  lists-set_if_free k j v i (some _) m = refl

  pub lists-pop_list_ne :
      (k j : RedisKey) (l : List Item) (m : Memory Item)
      → j ≢ k
      → (pop_list k l m).1.lists j ≡ m.lists j
  lists-pop_list_ne k j [] m n = refl
  lists-pop_list_ne k j (x ∷ xs) m n = update_ne k j xs m.lists n

  pub values-pop_list :
      (k j : RedisKey) (l : List Item) (m : Memory Item) → (pop_list k l m).1.values j ≡ m.values j
  values-pop_list k j [] m = refl
  values-pop_list k j (x ∷ xs) m = refl

  pub free_lem :
      (k : RedisKey) (v : Value) (n : ℕ) (m : Memory Item)
      → m.values k ≡ none
      → ((set_if_free k v n (m.values k) m).0 ≡ true)
        × ((set_if_free k v n (m.values k) m).1.values k ≡ some v)
  free_lem k v n m e = rw e (refl, update_self k (some v) m.values)

  pub taken_lem :
      (k : RedisKey) (v w : Value) (n : ℕ) (m : Memory Item)
      → m.values k ≡ some w
      → ((set_if_free k v n (m.values k) m).0 ≡ false) × ((set_if_free k v n (m.values k) m).1 ≡ m)
  taken_lem k v w n m e = rw e (refl, refl)

  pub absent_lem :
      (k : RedisKey) (m : Memory Item)
      → m.values k ≡ none
      → ((incr_value k (m.values k) m).0 ≡ 1)
        × ((incr_value k (m.values k) m).1.values k ≡ some (number 1))
  absent_lem k m e = rw e (refl, update_self k (some (number 1)) m.values)

  pub present_lem :
      (k : RedisKey) (n : ℕ) (m : Memory Item)
      → m.values k ≡ some (number n)
      → ((incr_value k (m.values k) m).0 ≡ suc n)
        × ((incr_value k (m.values k) m).1.values k ≡ some (number (suc n)))
  present_lem k n m e = rw e (refl, update_self k (some (number (suc n))) m.values)

  pub empty_lem :
      (k : RedisKey) (m : Memory Item) → m.lists k ≡ [] → pop_list k (m.lists k) m ≡ (none, m)
  empty_lem k m e = rw e

  pub head_lem :
      (k : RedisKey) (x : Item) (xs : List Item) (m : Memory Item)
      → m.lists k ≡ x ∷ xs
      → ((pop_list k (m.lists k) m).0 ≡ some x) × ((pop_list k (m.lists k) m).1.lists k ≡ xs)
  head_lem k x xs m e = rw e (refl, update_self k xs m.lists)

abbrev pub memory : (Item : Type 0) → Redis Item
memory Item = record {
  Store = Memory Item;
  get = λ k m. m.values k;
  items = λ k m. m.lists k;
  ttl = λ k m. m.times k;
  set = λ k v m. put_value k (some v) 0 m;
  set_ex = λ k v n m. put_value k (some v) n m;
  set_nx_ex = λ k v n m. set_if_free k v n (m.values k) m;
  delete = λ k m. put_value k none 0 m;
  incr = λ k m. incr_value k (m.values k) m;
  expire = λ k n m. record m { times = update k n m.times };
  lpop = λ k m. pop_list k (m.lists k) m;
  lpush = λ k x m. put_list k (x ∷ m.lists k) m;
  rpush = λ k x m. put_list k (m.lists k ++ x ∷ []) m;
  ltrim = λ k n m. put_list k (drop n (m.lists k)) m;
  get-set_self = λ k v m. update_self k (some v) m.values;
  get-set_ne = λ k j v m n. update_ne k j (some v) m.values n;
  items-set_ne = λ k j v m n. refl;
  ttl-set_ex_self = λ k v n m. update_self k n m.times;
  get-set_ex_self = λ k v n m. update_self k (some v) m.values;
  ttl-set_self = λ k v m. update_self k 0 m.times;
  get-set_ex_ne = λ k j v i m n. update_ne k j (some v) m.values n;
  items-set_ex_ne = λ k j v i m n. refl;
  set_nx_ex_free = free_lem;
  set_nx_ex_taken = taken_lem;
  get-set_nx_ex_ne = λ k j v i m n. get-set_if_free_ne k j v i (m.values k) m n;
  items-set_nx_ex = λ k j v i m. lists-set_if_free k j v i (m.values k) m;
  get-delete_self = λ k m. update_self k none m.values;
  get-delete_ne = λ k j m n. update_ne k j none m.values n;
  items-delete_ne = λ k j m n. refl;
  incr_absent = absent_lem;
  incr_present = present_lem;
  get-incr_ne = λ k j m n. get-incr_value_ne k j (m.values k) m n;
  items-incr = λ k j m. lists-incr_value k j (m.values k) m;
  get-expire = λ k j n m. refl;
  items-expire = λ k j n m. refl;
  lpop_empty = empty_lem;
  lpop_head = head_lem;
  items-lpop_ne = λ k j m n. lists-pop_list_ne k j (m.lists k) m n;
  get-lpop = λ k j m. values-pop_list k j (m.lists k) m;
  items-lpush_self = λ k x m. update_self k (x ∷ m.lists k) m.lists;
  items-lpush_ne = λ k j x m n. update_ne k j (x ∷ m.lists k) m.lists n;
  get-lpush = λ k j x m. refl;
  items-rpush_self = λ k x m. update_self k (m.lists k ++ x ∷ []) m.lists;
  items-rpush_ne = λ k j x m n. update_ne k j (m.lists k ++ x ∷ []) m.lists n;
  get-rpush = λ k j x m. refl;
  items-ltrim_self = λ k n m. update_self k (drop n (m.lists k)) m.lists;
  items-ltrim_ne = λ k j n m ne. update_ne k j (drop n (m.lists k)) m.lists ne;
  get-ltrim = λ k j n m. refl;
}
