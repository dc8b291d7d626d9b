-- ===== src/AccountPool.antt =====
-- The account lists of the worker pools and their sharding over replicas:
-- multi-messaging-platform/workers/account_pool.py.
pub mod Parsing
pub mod Shards
pub mod Loading
use Prim.Native.Nat.{bit_and, bit_xor}
use senderplatformtest.Prelude.{
  ℕ, zero, suc, ◌+◌, ◌%◌, ◌/◌, Bool, true, false, not, ◌||◌, Option, none, some, List, [], ◌∷◌,
  ◌++◌, ltb, leb, ◌==◌, if◌then◌else◌, Result, ok, raise, ◌>>=◌, filter,
}
use senderplatformtest.Prelude.Text.{Text, strip, is_empty, isdigit, int_from, split_from}
use senderplatformtest.Prelude.Sort.{contains, sorted}
use senderplatformtest.Prelude.Int.{ℤ, pos, negsuc}
use senderplatformtest.Platform.{PlatformType, whatsapp, AccountStatus, active}

-- The `ValueError`s of the module.
pub data PoolError : Type 0 where
  invalid_account_id : Text → PoolError
  account_id_not_positive : ℕ → PoolError
  pool_size_too_small : PoolError
  pool_index_out_of_range : PoolError
  no_account_ids : PoolError
  no_accounts_assigned : ℕ → PoolError

-- One round of the loop over the parts. `seen` has the members of `account_ids`, and is not kept
-- apart.
unfoldable pub add_part : List ℕ → Text → Result PoolError (List ℕ)
add_part account_ids token =
    let account_id = int_from 0 token in
    if is_empty token
    then ok account_ids
    else if not (isdigit token)
    then raise (invalid_account_id token)
    else if account_id == 0
    then raise (account_id_not_positive account_id)
    else if contains account_id account_ids
    then ok account_ids
    else ok (account_ids ++ account_id ∷ [])

unfoldable pub collect : List Text → List ℕ → Result PoolError (List ℕ)
collect [] account_ids = ok account_ids
collect (part ∷ parts) account_ids = do
  grown ← add_part account_ids (strip part)
  collect parts grown

unfoldable pub parse_account_id_list : Text → Result PoolError (List ℕ)
unfolding collect add_part sorted
parse_account_id_list raw =
    let text = strip raw in
    if is_empty text
    then ok []
    else do account_ids ← collect (split_from [] text) []; ok (sorted account_ids)

abbrev pub belongs : ℕ → ℕ → ℕ → Bool
belongs pool_size pool_index account_id = account_id % pool_size == pool_index

-- The guards on the pool's size and index, which two functions share word for word. A negative
-- size is refused as 0 is, so sizes are natural numbers.
unfoldable pub check_pool : ℕ → ℤ → Result PoolError ℕ
check_pool pool_size pool_index =
    if ltb pool_size 1 then raise pool_size_too_small else elim pool_index [
      | negsuc _ ↦ raise pool_index_out_of_range
      | pos i ↦ if leb pool_size i then raise pool_index_out_of_range else ok i
    ]

unfoldable pub account_belongs_to_shard : ℕ → ℕ → ℤ → Result PoolError Bool
unfolding check_pool
account_belongs_to_shard account_id pool_size pool_index = do
  i ← check_pool pool_size pool_index
  ok (belongs pool_size i account_id)

-- In the comprehension the guards of `account_belongs_to_shard` have passed already.
unfoldable pub shard_account_ids : List ℕ → ℕ → ℤ → Result PoolError (List ℕ)
unfolding check_pool sorted
shard_account_ids account_ids pool_size pool_index = do
  i ← check_pool pool_size pool_index
  ok (filter (belongs pool_size i) (sorted account_ids))

-- `zlib.crc32`, bit by bit, with the reflected polynomial.
crc_bits : ℕ → ℕ → ℕ
crc_bits zero crc = crc
crc_bits (suc n) crc = crc_bits n (if crc % 2 == 1 then bit_xor (crc / 2) 0xEDB88320 else crc / 2)

crc_bytes : ℕ → List ℕ → ℕ
unfolding crc_bits
crc_bytes crc [] = crc
crc_bytes crc (b ∷ bs) = crc_bytes (crc_bits 8 (bit_xor crc b)) bs

crc32 : List ℕ → ℕ
unfolding crc_bytes
crc32 bytes = bit_xor (crc_bytes 0xFFFFFFFF bytes) 0xFFFFFFFF

-- The environment's HOSTNAME, as UTF-8 bytes, is an argument.
unfoldable pub resolve_pool_index : List ℕ → ℕ → ℤ → Result PoolError ℕ
unfolding crc32
resolve_pool_index hostname pool_size explicit_index =
    if ltb pool_size 1 then raise pool_size_too_small else elim explicit_index [
      | pos i ↦ ok (i % pool_size)
      | negsuc _ ↦ ok (bit_and (crc32 hostname) 0xFFFFFFFF % pool_size)
    ]

or_fallback : List ℕ → ℤ → Result PoolError (List ℕ)
or_fallback (a ∷ parsed) fallback = ok (a ∷ parsed)
or_fallback [] (pos (suc n)) = ok (suc n ∷ [])
or_fallback [] _ = raise no_account_ids

or_unassigned : ℕ → List ℕ → Result PoolError (List ℕ)
or_unassigned index [] = raise (no_accounts_assigned index)
or_unassigned index (a ∷ assigned) = ok (a ∷ assigned)

unfoldable pub resolve_assigned_account_ids : List ℕ → Text → ℕ → ℤ → ℤ → Result PoolError (List ℕ)
unfolding parse_account_id_list or_fallback resolve_pool_index shard_account_ids or_unassigned
resolve_assigned_account_ids hostname account_ids_raw pool_size pool_index fallback_account_id = do
  parsed ← parse_account_id_list account_ids_raw
  account_ids ← or_fallback parsed fallback_account_id
  resolved_index ← resolve_pool_index hostname pool_size pool_index
  assigned ← shard_account_ids account_ids pool_size (pos resolved_index)
  or_unassigned resolved_index assigned

-- A row of the accounts' table.
pub record AccountRow : Type 0 where
  pub id : ℕ
  pub platform : PlatformType
  pub status : AccountStatus

-- The query's filter.
unfoldable pub is_active_whatsapp : AccountRow → Bool
is_active_whatsapp row = elim row.platform [
  | whatsapp ↦ elim row.status [ active ↦ true | _ ↦ false ]
  | _ ↦ false
]

unfoldable pub active_ids : List AccountRow → List ℕ
active_ids [] = []
active_ids (row ∷ rows) =
    let rest = active_ids rows in if is_active_whatsapp row then row.id ∷ rest else rest

unfoldable pub load_active_whatsapp_account_ids :
    List ℕ → List AccountRow → ℕ → ℤ → Result PoolError (List ℕ)
load_active_whatsapp_account_ids hostname rows pool_size pool_index = do
  resolved_index ← resolve_pool_index hostname pool_size pool_index
  shard_account_ids (active_ids rows) pool_size (pos resolved_index)
