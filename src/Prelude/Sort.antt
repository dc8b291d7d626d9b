-- ===== src/Prelude/Sort.antt =====
-- `sorted`, `set` membership and `sorted({...})` on lists of numbers.
use senderplatformtest.Prelude.{
  ℕ, suc, ◌≤◌, ◌≡◌, refl, Bool, true, false, ◌||◌, List, [], ◌∷◌, ◌++◌, inl, inr, arith, leb, ◌==◌,
  if◌then◌else◌, Bool-cases, Mem, All, ap, ==_iff,
}

-- `x in s`
abbrev pub contains : ℕ → List ℕ → Bool
contains x [] = false
contains x (y ∷ ys) = x == y || contains x ys

abbrev insert : ℕ → List ℕ → List ℕ
insert x [] = x ∷ []
insert x (y ∷ ys) = let rest = y ∷ insert x ys in if leb x y then x ∷ y ∷ ys else rest

-- sorted(l)
unfoldable pub sorted : List ℕ → List ℕ
sorted [] = []
sorted (x ∷ xs) = insert x (sorted xs)

-- the elements of set(l), once each
unfoldable pub unique : List ℕ → List ℕ
unique [] = []
unique (x ∷ xs) = let rest = unique xs in if contains x rest then rest else x ∷ rest

-- Each element is above all that stand before it, and none is below `b`.
abbrev pub Ascends : ℕ → List ℕ → Type 0
Ascends b [] = Unit
Ascends b (x ∷ xs) = (b ≤ x) × Ascends (suc x) xs

abbrev pub IsDistinct : List ℕ → Type 0
IsDistinct [] = Unit
IsDistinct (x ∷ xs) = (contains x xs ≡ false) × IsDistinct xs

pub contains-append :
    (x : ℕ) (xs ys : List ℕ) → contains x (xs ++ ys) ≡ (contains x xs || contains x ys)
contains-append x [] ys = refl
contains-append x (y ∷ xs) ys = ground (arith, contains-append x xs ys)

pub append-IsDistinct :
    (xs : List ℕ) (x : ℕ) → contains x xs ≡ false → IsDistinct xs → IsDistinct (xs ++ x ∷ [])
append-IsDistinct [] x h d = (refl, tt)
append-IsDistinct (y ∷ xs) x h d =
    (ground (arith, contains-append y xs (x ∷ [])), append-IsDistinct xs x (ground arith) d.1)

contains-insert : (x y : ℕ) (ys : List ℕ) → contains x (insert y ys) ≡ (x == y || contains x ys)
contains-insert x y [] = refl
contains-insert x y (z ∷ ys) = ground (arith, contains-insert x y ys)

pub contains-sorted : (x : ℕ) (xs : List ℕ) → contains x (sorted xs) ≡ contains x xs
unfolding sorted
contains-sorted x [] = refl
contains-sorted x (y ∷ xs) = ground (arith, contains-insert x y (sorted xs), contains-sorted x xs)

insert-Ascends :
    (b x : ℕ) (ys : List ℕ) → b ≤ x → contains x ys ≡ false → Ascends b ys → Ascends b (insert x ys)
insert-Ascends b x [] h c a = (h, tt)
insert-Ascends b x (y ∷ ys) h c a = elim (Bool-cases (leb x y)) [
  | inl below ↦ rw below (h, (ground arith, a.1))
  | inr above ↦ rw above (a.0, insert-Ascends (suc y) x ys (ground arith) (ground arith) a.1)
]

above-All : (b : ℕ) (xs : List ℕ) → All (λ x. b ≤ x) xs → Ascends 0 xs → Ascends b xs
above-All b [] l a = tt
above-All b (x ∷ xs) l a = (l.0, a.1)

sorted-Ascends_zero : (xs : List ℕ) → IsDistinct xs → Ascends 0 (sorted xs)
unfolding sorted
sorted-Ascends_zero [] d = tt
sorted-Ascends_zero (x ∷ xs) d =
    insert-Ascends 0 x (sorted xs) (omega arith) (rw contains-sorted d.0)
      (sorted-Ascends_zero xs d.1)

insert-All : (b x : ℕ) (ys : List ℕ) → b ≤ x → All (λ y. b ≤ y) ys → All (λ y. b ≤ y) (insert x ys)
insert-All b x [] h l = (h, tt)
insert-All b x (y ∷ ys) h l = elim (Bool-cases (leb x y)) [
  | inl below ↦ rw below (h, l)
  | inr above ↦ rw above (l.0, insert-All b x ys h l.1)
]

sorted-All : (b : ℕ) (xs : List ℕ) → All (λ x. b ≤ x) xs → All (λ x. b ≤ x) (sorted xs)
unfolding sorted
sorted-All b [] l = tt
sorted-All b (x ∷ xs) l = insert-All b x (sorted xs) l.0 (sorted-All b xs l.1)

pub sorted-Ascends :
    (b : ℕ) (xs : List ℕ) → IsDistinct xs → All (λ x. b ≤ x) xs → Ascends b (sorted xs)
sorted-Ascends b xs d l = above-All b (sorted xs) (sorted-All b xs l) (sorted-Ascends_zero xs d)

pub contains-unique : (x : ℕ) (xs : List ℕ) → contains x (unique xs) ≡ contains x xs
unfolding unique
contains-unique x [] = refl
contains-unique x (y ∷ xs) =
    ground (arith, contains-unique x xs, λ (e : x ≡ y). ap (λ k. contains k (unique xs)) e)

pub unique-IsDistinct : (xs : List ℕ) → IsDistinct (unique xs)
unfolding unique
unique-IsDistinct [] = tt
unique-IsDistinct (x ∷ xs) = elim (Bool-cases (contains x (unique xs))) [
  | inl seen ↦ rw seen (unique-IsDistinct xs)
  | inr new ↦ rw new (new, unique-IsDistinct xs)
]

pub contains-Mem : (x : ℕ) (xs : List ℕ) → contains x xs ≡ true → Mem x xs
contains-Mem x [] h = cc
contains-Mem x (y ∷ xs) h = elim (Bool-cases (x == y)) [
  | inl e ↦ inl ((==_iff x y).0 e)
  | inr n ↦ inr (contains-Mem x xs (ground arith))
]

pub Mem-contains : (x : ℕ) (xs : List ℕ) → Mem x xs → contains x xs ≡ true
Mem-contains x [] m = elim m [ ]
Mem-contains x (y ∷ xs) (inl e) = ground arith
Mem-contains x (y ∷ xs) (inr m) = ground (arith, Mem-contains x xs m)
