-- ===== src/PoolWorker/Refreshing.antt =====
-- A refresh of the account list while the worker runs.
use senderplatformtest.Prelude.{
  ℕ, ◌%◌, ◌<◌, ◌≡◌, ◌≢◌, refl, sym, ap, ◌∙◌, true, List, [], ◌∷◌, inl, inr, ◌⊎◌, arith, length,
  Bool-cases,
}
use senderplatformtest.Prelude.Text.{text_eq, text_eq-eq}
use senderplatformtest.Prelude.Sort.{sorted, unique, contains, contains-sorted, contains-unique}
use senderplatformtest.Worker.{MultiAccountWorker}
use senderplatformtest.PoolWorker.{refresh_account_ids}

contains_new : (a : ℕ) (ids : List ℕ) → contains a (sorted (unique ids)) ≡ contains a ids
contains_new a ids = contains-sorted a (unique ids) ∙ contains-unique a ids

contains_head : (x : ℕ) (rest : List ℕ) → contains x (x ∷ rest) ≡ true
contains_head x rest = ground arith

contains-length : (x : ℕ) (xs : List ℕ) → contains x xs ≡ true → 0 < length xs
contains-length x [] h = cc
contains-length x (y ∷ xs) h = omega arith

mod-lt : (n : ℕ) {k : ℕ} → 0 < k → n % k < k
mod-lt n h = omega arith

-- A refresh keeps the round-robin index in range of the account list, whatever the database
-- returns. A read with no account changes nothing; after any other the worker's accounts are
-- exactly those that were read.
pub refresh_account_ids-in_range :
    (ids : List ℕ) (w : MultiAccountWorker)
    → w.round_robin_index < length w.account_ids
    → let w' = refresh_account_ids ids w in
      (w'.round_robin_index < length w'.account_ids)
      × (((ids ≡ []) × (w' ≡ w))
          ⊎ ((ids ≢ []) × ((a : ℕ) → contains a w'.account_ids ≡ contains a ids)))
unfolding refresh_account_ids
refresh_account_ids-in_range [] w h = (h, inl (refl, refl))
refresh_account_ids-in_range (x ∷ rest) w h =
    let ids = x ∷ rest in
    let new = sorted (unique ids) in
    let some_left = contains-length x new (contains_new x ids ∙ contains_head x rest) in
    elim (Bool-cases (text_eq new w.account_ids)) [
      | inl same ↦
          let e : refresh_account_ids ids w ≡ w = rw (refresh_account_ids, same) in
          rw e (
            h,
            inr (
              λ n. cc,
              λ a. ap (contains a) (sym (text_eq-eq new w.account_ids same)) ∙ contains_new a ids,
            ),
          )
      | inr other ↦
          let e : refresh_account_ids ids w ≡ record w {
            account_ids = new;
            round_robin_index = w.round_robin_index % length new;
          } =
            rw (refresh_account_ids, other) in
          rw e (mod-lt w.round_robin_index some_left, inr (λ n. cc, λ a. contains_new a ids))
    ]
