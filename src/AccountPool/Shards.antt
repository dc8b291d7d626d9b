-- ===== src/AccountPool/Shards.antt =====
-- The shards of the replicas cut the account list into disjoint parts.
use senderplatformtest.Prelude.{
  ℕ, ◌%◌, ◌≤◌, ◌<◌, ◌≡◌, refl, sym, ◌∙◌, ◌↔◌, List, [], ◌∷◌, arith, ==_iff, Mem, filter, mem-filter,
  filter-mem, ok, bind_returned, subst, ◌≢◌,
}
use Prim.Native.Nat.{bit_and}
use senderplatformtest.Prelude.Text.{Text}
use senderplatformtest.Prelude.Int.{ℤ, pos, negsuc}
use senderplatformtest.Prelude.Sort.{sorted, contains-sorted, contains-Mem, Mem-contains}
use senderplatformtest.AccountPool.{
  check_pool, crc32, or_fallback, or_unassigned, parse_account_id_list, belongs, shard_account_ids,
  resolve_pool_index, resolve_assigned_account_ids,
}

mem-sorted : (x : ℕ) (xs : List ℕ) → Mem x (sorted xs) ↔ Mem x xs
mem-sorted x xs = (
  λ m. contains-Mem x xs (sym (contains-sorted x xs) ∙ Mem-contains x (sorted xs) m),
  λ m. contains-Mem x (sorted xs) (contains-sorted x xs ∙ Mem-contains x xs m),
)

shard_account_ids-eq :
    (ids shard : List ℕ) (n i : ℕ)
    → shard_account_ids ids n (pos i) ≡ ok shard
    → shard ≡ filter (belongs n i) (sorted ids)
unfolding shard_account_ids check_pool
shard_account_ids-eq ids shard n i e = ground arith

-- A shard that is returned holds exactly those of the given accounts whose remainder by the pool's
-- size is the replica's index.
pub mem-shard_account_ids :
    (ids shard : List ℕ) (n i : ℕ)
    → shard_account_ids ids n (pos i) ≡ ok shard
    → (a : ℕ) → Mem a shard ↔ (Mem a ids × (a % n ≡ i))
mem-shard_account_ids ids shard n i e a = rw (shard_account_ids-eq ids shard n i e) (
  λ m.
      let (k, b) = filter-mem (belongs n i) a (sorted ids) m in
      ((mem-sorted a ids).0 k, (==_iff (a % n) i).0 b),
  λ m.
      mem-filter (belongs n i) a (sorted ids) ((mem-sorted a ids).1 m.0) ((==_iff (a % n) i).1 m.1),
)

sharded_ok :
    (ids : List ℕ) (n i : ℕ)
    → 1 ≤ n
    → i < n
    → shard_account_ids ids n (pos i) ≡ ok (filter (belongs n i) (sorted ids))
unfolding shard_account_ids check_pool
sharded_ok ids n i h k = ground arith

mod-lt-size : (a n : ℕ) → 1 ≤ n → a % n < n
mod-lt-size a n h = omega arith

or_unassigned-ok :
    (i : ℕ) (shard assigned : List ℕ)
    → or_unassigned i shard ≡ ok assigned
    → (assigned ≡ shard) × (assigned ≢ [])
unfolding or_unassigned
or_unassigned-ok i [] assigned e = cc
or_unassigned-ok i (a ∷ shard) assigned e = (ground arith, λ n. ground arith)

-- Every index of a pool of `n` replicas gives a shard, and an account of the list is in the shard of
-- exactly one index, which is one of the pool's.
pub shards_partition :
    (ids : List ℕ) (n : ℕ)
    → 1 ≤ n
    → ((i : ℕ) → i < n → (shard : List ℕ) × (shard_account_ids ids n (pos i) ≡ ok shard))
      × ((a : ℕ)
          → Mem a ids
          → (i : ℕ) × (i < n)
            × (shard : List ℕ) × (shard_account_ids ids n (pos i) ≡ ok shard)
            × Mem a shard
            × ((j : ℕ) (other : List ℕ)
                → shard_account_ids ids n (pos j) ≡ ok other
                → Mem a other
                → j ≡ i))
shards_partition ids n h = (
  λ i k. (filter (belongs n i) (sorted ids), sharded_ok ids n i h k),
  λ a m.
      let shard = filter (belongs n (a % n)) (sorted ids) in
      let sharded = sharded_ok ids n (a % n) h (mod-lt-size a n h) in
      (
        a % n,
        mod-lt-size a n h,
        shard,
        sharded,
        (mem-shard_account_ids ids shard n (a % n) sharded a).1 (m, refl),
        λ j other e k. sym ((mem-shard_account_ids ids other n j e a).0 k).1,
      ),
)

replica_index : List ℕ → ℕ → ℤ → ℕ
replica_index hostname n (pos k) = k % n
replica_index hostname n (negsuc k) = bit_and (crc32 hostname) 0xFFFFFFFF % n

-- For a pool of at least one replica the index is always resolved, and in range.
pub resolve_pool_index_in_range :
    (hostname : List ℕ) (n : ℕ) (explicit : ℤ)
    → 1 ≤ n
    → (i : ℕ) × (resolve_pool_index hostname n explicit ≡ ok i) × (i < n)
unfolding resolve_pool_index replica_index
resolve_pool_index_in_range hostname n (pos k) h = (k % n, ground arith, omega arith)
resolve_pool_index_in_range hostname n (negsuc k) h =
    (replica_index hostname n (negsuc k), ground arith, omega arith)

-- A list that `resolve_assigned_account_ids` returns is not empty, and every account in it is owned
-- by the replica that resolved the index.
pub resolve_assigned-owned :
    (hostname : List ℕ) (raw : Text) (n : ℕ) (explicit fallback : ℤ) (assigned : List ℕ)
    → resolve_assigned_account_ids hostname raw n explicit fallback ≡ ok assigned
    → (i : ℕ) × (resolve_pool_index hostname n explicit ≡ ok i)
      × (assigned ≢ [])
      × ((a : ℕ) → Mem a assigned → a % n ≡ i)
unfolding resolve_assigned_account_ids
resolve_assigned-owned hostname raw n explicit fallback assigned e =
    let (parsed, e1, r1) = bind_returned (parse_account_id_list raw) _ e in
    let (ids, e2, r2) = bind_returned (or_fallback parsed fallback) _ r1 in
    let (i, e3, r3) = bind_returned (resolve_pool_index hostname n explicit) _ r2 in
    let (shard, e4, r4) = bind_returned (shard_account_ids ids n (pos i)) (or_unassigned i) r3 in
    let (same, some_left) = or_unassigned-ok i shard assigned r4 in
    (
      i,
      e3,
      some_left,
      λ a m. ((mem-shard_account_ids ids shard n i e4 a).0 (subst (Mem a) same m)).1,
    )
