-- ===== src/Lock.antt =====
-- The lock that coordinates replicas: multi-messaging-platform/workers/distributed_lock.py.
pub mod Replicas
pub mod Owner
use senderplatformtest.Prelude.{
  ℕ, ◌≡◌, Bool, true, false, not, Option, none, some, String, if◌then◌else◌, str_eq, Result, ok,
  raise,
}
use senderplatformtest.Redis.{RedisKey, Value, text, number, Redis}

pub data LockError : Type 0 where
  lock_not_acquired : RedisKey → LockError

pub record DistributedLock : Type 0 where
  pub key : RedisKey
  pub ttl_seconds : ℕ
  pub token : String
  pub held : Bool

unfoldable pub new_lock : RedisKey → ℕ → String → DistributedLock
new_lock key ttl_seconds token = record {
  key = key;
  ttl_seconds = ttl_seconds;
  token = token;
  held = false;
}

abbrev pub is_text : String → Option Value → Bool
is_text token none = false
is_text token (some (number n)) = false
is_text token (some (text t)) = str_eq t token

module _ {Item : Type 0} (redis : Redis Item) where
  open redis use {Store, get, set_nx_ex, delete}

  -- `_RELEASE_SCRIPT`, which Redis runs as one step
  unfoldable pub release_script : RedisKey → String → Store → Store
  release_script key token s = if is_text token (get key s) then delete key s else s

  unfoldable pub acquire : DistributedLock → Store → Bool × DistributedLock × Store
  acquire lock s =
      let (acquired, s') = set_nx_ex lock.key (text lock.token) lock.ttl_seconds s in
      (acquired, record lock { held = acquired }, s')

  unfoldable pub release : DistributedLock → Store → DistributedLock × Store
  unfolding release_script
  release lock s =
      if not lock.held
      then (lock, s)
      else (record lock { held = false }, release_script lock.key lock.token s)

  -- `__aenter__`
  unfoldable pub enter : DistributedLock → Store → Result LockError DistributedLock × Store
  unfolding acquire
  enter lock s =
      let (acquired, lock', s') = acquire lock s in
      (if acquired then ok lock' else raise (lock_not_acquired lock.key), s')
