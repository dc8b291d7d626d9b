-- ===== src/Prelude/Lists.antt =====
-- List functions over the native numbers, and membership as a recursive predicate.
use Prim.Native.Nat.{ℕ, zero, suc, ◌+◌, ◌<◌, ◌≤◌}
use mathlib.Core.Path.{◌≡◌, refl, sym, ap, ◌∙◌}
use mathlib.Core.Logic.{◌⊎◌, inl, inr}
use mathlib.Core.Bool.{Bool, true, false}
use mathlib.Core.Option.{Option, none, some}
use mathlib.Core.List.{List, [], ◌∷◌, ◌++◌}
use native.Mathlib.Omega.{arith}
use senderplatformtest.Prelude.Tests.{if◌then◌else◌, Bool-cases}

module _ {ℓ} {A : Type ℓ} where
  abbrev pub length : List A → ℕ
  length [] = 0
  length (x ∷ xs) = suc (length xs)

  abbrev pub get_elem? : List A → ℕ → Option A
  get_elem? [] i = none
  get_elem? (x ∷ xs) zero = some x
  get_elem? (x ∷ xs) (suc i) = get_elem? xs i

  abbrev pub take : ℕ → List A → List A
  take zero xs = []
  take (suc n) [] = []
  take (suc n) (x ∷ xs) = x ∷ take n xs

  abbrev pub drop : ℕ → List A → List A
  drop zero xs = xs
  drop (suc n) [] = []
  drop (suc n) (x ∷ xs) = drop n xs

  -- A comprehension's `if`.
  abbrev pub filter : (A → Bool) → List A → List A
  filter p [] = []
  filter p (x ∷ xs) = let rest = filter p xs in if p x then x ∷ rest else rest

  pub length-append : (xs ys : List A) → length (xs ++ ys) ≡ length xs + length ys
  length-append [] ys = omega arith
  length-append (x ∷ xs) ys = omega (arith, length-append xs ys)

  pub append_nil : (xs : List A) → xs ++ [] ≡ xs
  append_nil [] = refl
  append_nil (x ∷ xs) = ap (λ ys. x ∷ ys) (append_nil xs)

  pub append_assoc : (xs ys zs : List A) → xs ++ ys ++ zs ≡ xs ++ (ys ++ zs)
  append_assoc [] ys zs = refl
  append_assoc (x ∷ xs) ys zs = ap (λ l. x ∷ l) (append_assoc xs ys zs)

  abbrev pub All {κ} : (A → Type κ) → List A → Type κ
  All P [] = Unit
  All P (x ∷ xs) = P x × All P xs

module _ {A : Type 0} where
  abbrev pub Mem : A → List A → Type 0
  Mem a [] = ⊥
  Mem a (x ∷ xs) = (a ≡ x) ⊎ Mem a xs

  pub mem-filter :
      (p : A → Bool) (a : A) (xs : List A) → Mem a xs → p a ≡ true → Mem a (filter p xs)
  mem-filter p a (x ∷ xs) (inl e) h = let hx : p x ≡ true = ap p (sym e) ∙ h in rw hx (inl e)
  mem-filter p a (x ∷ xs) (inr m) h = elim (Bool-cases (p x)) [
    | inl t ↦ rw t (inr (mem-filter p a xs m h))
    | inr f ↦ rw f (mem-filter p a xs m h)
  ]
  mem-filter p a [] m h = elim m [ ]

  filter-mem_step :
      (p : A → Bool) (a x : A) (xs rest : List A) (b : Bool)
      → p x ≡ b
      → (Mem a rest → Mem a xs × (p a ≡ true))
      → Mem a (if b then x ∷ rest else rest)
      → Mem a (x ∷ xs) × (p a ≡ true)
  filter-mem_step p a x xs rest true e ih (inl q) = (inl q, ap p q ∙ e)
  filter-mem_step p a x xs rest true e ih (inr n) = (inr (ih n).0, (ih n).1)
  filter-mem_step p a x xs rest false e ih n = (inr (ih n).0, (ih n).1)

  pub filter-mem :
      (p : A → Bool) (a : A) (xs : List A) → Mem a (filter p xs) → Mem a xs × (p a ≡ true)
  filter-mem p a [] m = elim m [ ]
  filter-mem p a (x ∷ xs) m =
      filter-mem_step p a x xs (filter p xs) (p x) refl (filter-mem p a xs) m

module _ {ℓ} {A : Type ℓ} where
  pub get_elem?-lt-length :
      (xs : List A) (i : ℕ) → i < length xs → (a : A) × (get_elem? xs i ≡ some a)
  get_elem?-lt-length [] i h = elim h [ ]
  get_elem?-lt-length (x ∷ xs) zero h = (x, refl)
  get_elem?-lt-length (x ∷ xs) (suc i) h = get_elem?-lt-length xs i (omega arith)

pub mem-get_elem? :
    {A : Type 0} (xs : List A) (a : A)
    → Mem a xs
    → (i : ℕ) × (i < length xs) × (get_elem? xs i ≡ some a)
mem-get_elem? [] a m = elim m [ ]
mem-get_elem? (x ∷ xs) a (inl e) = (0, omega arith, ap some (sym e))
mem-get_elem? (x ∷ xs) a (inr m) = let (i, lt, e) = mem-get_elem? xs a m in (suc i, omega arith, e)

pub get_elem?-Mem : {A : Type 0} (xs : List A) (i : ℕ) (a : A) → get_elem? xs i ≡ some a → Mem a xs
get_elem?-Mem [] i a e = cc
get_elem?-Mem (x ∷ xs) zero a e = inl (ground arith)
get_elem?-Mem (x ∷ xs) (suc i) a e = inr (get_elem?-Mem xs i a e)

pub List-cases {ℓ} :
    {A : Type ℓ} (xs : List A) → (xs ≡ []) ⊎ ((x : A) × (rest : List A) × (xs ≡ x ∷ rest))
List-cases [] = inl refl
List-cases (x ∷ rest) = inr (x, rest, refl)

pub first_or_later : (t n : ℕ) → n ≤ t → (t ≡ n) ⊎ (suc n ≤ t)
first_or_later t n h = grind arith
