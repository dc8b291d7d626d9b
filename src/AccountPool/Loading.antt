-- ===== src/AccountPool/Loading.antt =====
-- What a replica reads from the database.
use senderplatformtest.Prelude.{
  ℕ, ◌%◌, ◌≡◌, refl, sym, ap, ◌∙◌, ◌↔◌, inl, inr, Bool, true, false, List, [], ◌∷◌, arith, Mem, ok,
  bind_returned, Bool-cases, subst, if◌then◌else◌,
}
use senderplatformtest.Prelude.Int.{ℤ}
use senderplatformtest.Platform.{whatsapp, active}
use senderplatformtest.AccountPool.{
  AccountRow, is_active_whatsapp, active_ids, resolve_pool_index, load_active_whatsapp_account_ids,
}
use senderplatformtest.AccountPool.Shards.{mem-shard_account_ids}

is_active_whatsapp_lem :
    (row : AccountRow)
    → is_active_whatsapp row ≡ true
    → (row.platform ≡ whatsapp) × (row.status ≡ active)
unfolding is_active_whatsapp
is_active_whatsapp_lem row h = ground arith

-- An account of WhatsApp with the id, which the table has and which is active.
pub record IsListed (rows : List AccountRow) (a : ℕ) : Type 0 where
  pub row : AccountRow
  pub member : Mem row rows
  pub same_id : a ≡ row.id
  pub on_whatsapp : row.platform ≡ whatsapp
  pub is_active : row.status ≡ active

IsListed-later :
    (row : AccountRow) (rows : List AccountRow) (a : ℕ) → IsListed rows a → IsListed (row ∷ rows) a
IsListed-later row rows a l = record {
  row = l.row;
  member = inr l.member;
  same_id = l.same_id;
  on_whatsapp = l.on_whatsapp;
  is_active = l.is_active;
}

active_ids_step :
    (row : AccountRow) (rows : List AccountRow) (rest : List ℕ) (a : ℕ) (b : Bool)
    → is_active_whatsapp row ≡ b
    → (Mem a rest → IsListed rows a)
    → Mem a (if b then row.id ∷ rest else rest)
    → IsListed (row ∷ rows) a
active_ids_step row rows rest a true e ih (inl same) =
    let (p, s) = is_active_whatsapp_lem row e in
    record { row = row; member = inl refl; same_id = same; on_whatsapp = p; is_active = s }
active_ids_step row rows rest a true e ih (inr m) = IsListed-later row rows a (ih m)
active_ids_step row rows rest a false e ih m = IsListed-later row rows a (ih m)

active_ids-IsListed : (rows : List AccountRow) (a : ℕ) → Mem a (active_ids rows) → IsListed rows a
unfolding active_ids
active_ids-IsListed [] a m = elim m [ ]
active_ids-IsListed (row ∷ rows) a m =
    active_ids_step row rows (active_ids rows) a (is_active_whatsapp row) refl
      (active_ids-IsListed rows a) m

is_active_whatsapp_row :
    (row : AccountRow)
    → row.platform ≡ whatsapp
    → row.status ≡ active
    → is_active_whatsapp row ≡ true
unfolding is_active_whatsapp
is_active_whatsapp_row row p s = ground (arith, p, s)

listed-Mem :
    (rows : List AccountRow) (row : AccountRow)
    → Mem row rows
    → is_active_whatsapp row ≡ true
    → Mem row.id (active_ids rows)
unfolding active_ids
listed-Mem [] row m h = elim m [ ]
listed-Mem (x ∷ rows) row (inl same) h =
    let t : is_active_whatsapp x ≡ true = ap is_active_whatsapp (sym same) ∙ h in
    rw t (inl (ap (λ r. r.id) same))
listed-Mem (x ∷ rows) row (inr m) h = elim (Bool-cases (is_active_whatsapp x)) [
  | inl t ↦ rw t (inr (listed-Mem rows row m h))
  | inr f ↦ rw f (listed-Mem rows row m h)
]

IsListed-Mem : (rows : List AccountRow) (a : ℕ) → IsListed rows a → Mem a (active_ids rows)
IsListed-Mem rows a l =
    subst (λ b. Mem b (active_ids rows)) (sym l.same_id)
      (listed-Mem rows l.row l.member (is_active_whatsapp_row l.row l.on_whatsapp l.is_active))

-- A read of the accounts that returns has resolved the replica's index, and what it returns are
-- exactly the ids of the active WhatsApp accounts of the table whose remainder by the pool's size is
-- that index.
pub load_active-IsListed :
    (hostname : List ℕ) (rows : List AccountRow) (n : ℕ) (explicit : ℤ) (ids : List ℕ)
    → load_active_whatsapp_account_ids hostname rows n explicit ≡ ok ids
    → (i : ℕ) × (resolve_pool_index hostname n explicit ≡ ok i)
      × ((a : ℕ) → Mem a ids ↔ (IsListed rows a × (a % n ≡ i)))
unfolding load_active_whatsapp_account_ids
load_active-IsListed hostname rows n explicit ids h =
    let (i, e, rest) = bind_returned (resolve_pool_index hostname n explicit) _ h in
    (
      i,
      e,
      λ a.
          let (there, back) = mem-shard_account_ids (active_ids rows) ids n i rest a in
          (
            λ m. let (k, r) = there m in (active_ids-IsListed rows a k, r),
            λ l. back (IsListed-Mem rows a l.0, l.1),
          ),
    )
