-- ===== src/AccountPool/Parsing.antt =====
-- What `parse_account_id_list` returns.
use senderplatformtest.Prelude.{
  ℕ, ◌≤◌, ◌≡◌, false, List, [], ◌∷◌, ◌++◌, arith, ◌==◌, Bool-cases, All, inl, inr, ◌⊎◌, subst,
  bind_returned, ok,
}
use senderplatformtest.Prelude.Text.{Text, strip, is_empty, int_from, split_from}
use senderplatformtest.Prelude.Sort.{
  contains, sorted, Ascends, IsDistinct, append-IsDistinct, sorted-Ascends,
}
use senderplatformtest.AccountPool.{add_part, collect, parse_account_id_list}

append-All :
    (b : ℕ) (xs : List ℕ) (x : ℕ) → b ≤ x → All (λ y. b ≤ y) xs → All (λ y. b ≤ y) (xs ++ x ∷ [])
append-All b [] x h l = (h, tt)
append-All b (y ∷ xs) x h l = (l.0, append-All b xs x h l.1)

record IsCollected (ids : List ℕ) : Type 0 where
  distinct : IsDistinct ids
  positive : All (λ x. 1 ≤ x) ids

grow-IsCollected :
    (ids : List ℕ) (x : ℕ)
    → x == 0 ≡ false
    → contains x ids ≡ false
    → IsCollected ids
    → IsCollected (ids ++ x ∷ [])
grow-IsCollected ids x z c h = record {
  distinct = append-IsDistinct ids x c h.distinct;
  positive = append-All 1 ids x (ground arith) h.positive;
}

add_part-cases :
    (ids : List ℕ) (token : Text) (out : List ℕ)
    → add_part ids token ≡ ok out
    → (out ≡ ids)
      ⊎ ((out ≡ ids ++ int_from 0 token ∷ [])
          × (int_from 0 token == 0 ≡ false)
          × (contains (int_from 0 token) ids ≡ false))
unfolding add_part
add_part-cases ids token out e = ground arith

add_part-IsCollected :
    (ids : List ℕ) (token : Text) (out : List ℕ)
    → add_part ids token ≡ ok out
    → IsCollected ids
    → IsCollected out
add_part-IsCollected ids token out e h = elim (add_part-cases ids token out e) [
  | inl same ↦ rw same h
  | inr (grown, z, c) ↦ rw grown (grow-IsCollected ids (int_from 0 token) z c h)
]

collect-IsCollected :
    (parts : List Text) (ids out : List ℕ)
    → collect parts ids ≡ ok out
    → IsCollected ids
    → IsCollected out
unfolding collect
collect-IsCollected [] ids out e h = subst IsCollected (cc e) h
collect-IsCollected (part ∷ parts) ids out e h =
    let (grown, step, rest) = bind_returned (add_part ids (strip part)) (collect parts) e in
    collect-IsCollected parts grown out rest (add_part-IsCollected ids (strip part) grown step h)

parsed-eq :
    (raw : Text) (ids : List ℕ)
    → parse_account_id_list raw ≡ ok ids
    → (ids ≡ [])
      ⊎ ((l : List ℕ) × (collect (split_from [] (strip raw)) [] ≡ ok l) × (sorted l ≡ ids))
unfolding parse_account_id_list
parsed-eq raw ids e = elim (Bool-cases (is_empty (strip raw))) [
  | inl t ↦ inl (ground arith)
  | inr f ↦ inr (
      let (l, collected, result) =
        bind_returned (collect (split_from [] (strip raw)) []) (λ l. ok (sorted l)) (rw f at e) in
      (l, collected, cc result))
]

-- Whatever the text, a list that `parse_account_id_list` returns ascends strictly, so that no id
-- stands twice, and each id in it is at least 1.
pub parse_account_id_list-Ascends :
    (raw : Text) (ids : List ℕ) → parse_account_id_list raw ≡ ok ids → Ascends 1 ids
parse_account_id_list-Ascends raw ids e = elim (parsed-eq raw ids e) [
  | inl none_given ↦ rw none_given tt
  | inr (l, collected, same) ↦
      let c : IsCollected l =
        collect-IsCollected (split_from [] (strip raw)) [] l collected
          (record { distinct = tt; positive = tt }) in
      subst (Ascends 1) same (sorted-Ascends 1 l c.distinct c.positive)
]
