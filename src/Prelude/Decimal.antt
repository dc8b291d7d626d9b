-- ===== src/Prelude/Decimal.antt =====
-- Python's str(n) and int(text), and that one reads what the other writes. The fuel of `str` is
-- more than the number of digits.
use Prim.Native.Nat.{ℕ, zero, suc, ◌+◌, ◌-◌, ◌*◌, ◌/◌, ◌%◌, ◌<◌, ◌≤◌}
use mathlib.Core.Path.{◌≡◌, refl, sym, ap, ◌∙◌}
use mathlib.Core.Logic.{inl, inr}
use mathlib.Core.Bool.{Bool, true, false}
use mathlib.Core.Option.{Option, none, some}
use mathlib.Core.List.{[], ◌∷◌, ◌++◌, reverse, reverse_aux}
use native.Mathlib.Omega.{arith}
use senderplatformtest.Prelude.Tests.{ltb, ◌==◌, if◌then◌else◌, Bool-cases}
use senderplatformtest.Prelude.Text.{
  Text, is_empty, is_digit, lstrip, strip, all_digits, isdigit, int_from,
}
use senderplatformtest.Prelude.Int.{ℤ, pos, negsuc}

unfoldable decimal : ℕ → ℕ → Text → Text
decimal zero n rest = rest
decimal (suc f) n rest =
    let more = decimal f (n / 10) ((48 + n % 10) ∷ rest) in
    if ltb n 10 then (48 + n) ∷ rest else more

unfoldable pub str : ℕ → Text
unfolding decimal
str n = decimal (suc n) n []

-- The digits of int(text): an underscore may stand between two of them.
unfoldable scan_int : Bool → ℕ → Text → Option ℕ
scan_int needed n [] = if needed then none else some n
scan_int needed n (c ∷ s) =
    let next = scan_int false (n * 10 + (c - 48)) s in
    let skip = scan_int true n s in
    if is_digit c then next else if needed then none else if c == 95 then skip else none

negate : Option ℕ → Option ℤ
negate none = none
negate (some zero) = some (pos zero)
negate (some (suc n)) = some (negsuc n)

as_pos : Option ℕ → Option ℤ
as_pos none = none
as_pos (some n) = some (pos n)

signed : Text → Option ℤ
unfolding negate as_pos scan_int
signed [] = none
signed (c ∷ s) =
    if c == 45
    then negate (scan_int true 0 s)
    else if c == 43
    then as_pos (scan_int true 0 s)
    else as_pos (scan_int true 0 (c ∷ s))

-- int(text), with None for its `ValueError`
unfoldable pub int_text : Text → Option ℤ
unfolding signed
int_text s = signed (strip s)

not_below : (a b : ℕ) → ltb a b ≡ false → b ≤ a
not_below a b h = ground arith

decimal-digits :
    (f n : ℕ) (rest : Text) → all_digits rest ≡ true → all_digits (decimal f n rest) ≡ true
unfolding decimal
decimal-digits zero n rest h = h
decimal-digits (suc f) n rest h = elim (Bool-cases (ltb n 10)) [
  | inl t ↦ rw t (ground arith)
  | inr g ↦
      let last : n % 10 < 10 = grind arith in
      rw g (decimal-digits f (n / 10) ((48 + n % 10) ∷ rest) (ground arith))
]

decimal-nonempty :
    (f n : ℕ) (rest : Text) → is_empty rest ≡ false → is_empty (decimal f n rest) ≡ false
unfolding decimal
decimal-nonempty zero n rest h = h
decimal-nonempty (suc f) n rest h = elim (Bool-cases (ltb n 10)) [
  | inl t ↦ rw t refl
  | inr g ↦ rw g (decimal-nonempty f (n / 10) ((48 + n % 10) ∷ rest) refl)
]

-- Enough fuel reads back as the number.
int_from-decimal : (f n : ℕ) (rest : Text) → n < f → int_from 0 (decimal f n rest) ≡ int_from n rest
unfolding decimal
int_from-decimal (suc f) n rest h = elim (Bool-cases (ltb n 10)) [
  | inl t ↦ rw t (ap (λ m. int_from m rest) (omega arith))
  | inr g ↦
      let big = not_below n 10 g in
      let less : n / 10 < f = omega (arith, big, h) in
      let whole : n / 10 * 10 + (48 + n % 10 - 48) ≡ n = omega arith in
      rw g
        (int_from-decimal f (n / 10) ((48 + n % 10) ∷ rest) less ∙ ap (λ m. int_from m rest) whole)
]
int_from-decimal zero n rest h = absurd (omega arith)

isdigit_lem : (s : Text) → is_empty s ≡ false → all_digits s ≡ true → isdigit s ≡ true
isdigit_lem [] e d = cc
isdigit_lem (c ∷ s) e d = d

-- str(n) is a text of digits.
pub isdigit-str : (n : ℕ) → isdigit (str n) ≡ true
unfolding str decimal
isdigit-str n =
    isdigit_lem (str n)
      (elim (Bool-cases (ltb n 10)) [
        | inl t ↦ rw t refl
        | inr g ↦ rw g (decimal-nonempty n (n / 10) ((48 + n % 10) ∷ []) refl)
      ])
      (decimal-digits (suc n) n [] refl)

pub int_from-str : (n : ℕ) → int_from 0 (str n) ≡ n
unfolding str
int_from-str n = int_from-decimal (suc n) n [] (omega arith)

pub head_digit :
    (c : ℕ) (s : Text) → all_digits (c ∷ s) ≡ true → (is_digit c ≡ true) × (all_digits s ≡ true)
head_digit c s h = (ground arith, ground arith)

scan_int-rest : (n : ℕ) (s : Text) → all_digits s ≡ true → scan_int false n s ≡ some (int_from n s)
unfolding scan_int
scan_int-rest n [] h = refl
scan_int-rest n (c ∷ s) h =
    let (digit, rest) = head_digit c s h in rw digit (scan_int-rest (n * 10 + (c - 48)) s rest)

scan_int-digits :
    (n c : ℕ) (s : Text)
    → all_digits (c ∷ s) ≡ true
    → scan_int true n (c ∷ s) ≡ some (int_from n (c ∷ s))
unfolding scan_int
scan_int-digits n c s h =
    let (digit, rest) = head_digit c s h in rw digit (scan_int-rest (n * 10 + (c - 48)) s rest)

-- A text of digits has no white space to strip.
lstrip-digits : (s : Text) → all_digits s ≡ true → lstrip s ≡ s
lstrip-digits [] h = refl
lstrip-digits (c ∷ s) h = ground arith

reverse_aux-digits :
    (s r : Text) → all_digits s ≡ true → all_digits r ≡ true → all_digits (reverse_aux s r) ≡ true
reverse_aux-digits [] r h g = g
reverse_aux-digits (c ∷ s) r h g = reverse_aux-digits s (c ∷ r) (ground arith) (ground arith)

reverse_twice : (s r t : Text) → reverse_aux (reverse_aux s r) t ≡ reverse_aux r (s ++ t)
reverse_twice [] r t = refl
reverse_twice (c ∷ s) r t = reverse_twice s (c ∷ r) t

append_nil : (s : Text) → s ++ [] ≡ s
append_nil [] = refl
append_nil (c ∷ s) = ap (λ l. c ∷ l) (append_nil s)

pub strip-digits : (s : Text) → all_digits s ≡ true → strip s ≡ s
strip-digits s h =
    rw (lstrip-digits s h, lstrip-digits (reverse s) (reverse_aux-digits s [] h refl))
      (reverse_twice s [] [] ∙ append_nil s)

not_sign : (c : ℕ) → is_digit c ≡ true → (c == 45 ≡ false) × (c == 43 ≡ false)
not_sign c h = (ground arith, ground arith)

signed-digits : (s : Text) → isdigit s ≡ true → signed s ≡ some (pos (int_from 0 s))
unfolding signed as_pos
signed-digits [] h = cc
signed-digits (c ∷ s) h =
    let (minus, plus) = not_sign c (head_digit c s h).0 in
    rw (minus, plus) (ap as_pos (scan_int-digits 0 c s h))

pub all-isdigit : (s : Text) → isdigit s ≡ true → all_digits s ≡ true
all-isdigit [] h = refl
all-isdigit (c ∷ s) h = h

pub nonempty-isdigit : (s : Text) → isdigit s ≡ true → is_empty s ≡ false
nonempty-isdigit [] h = cc
nonempty-isdigit (c ∷ s) h = refl

-- int(str(n)) is n.
pub int_text-str : (n : ℕ) → int_text (str n) ≡ some (pos n)
unfolding int_text
int_text-str n =
    rw (strip-digits (str n) (all-isdigit (str n) (isdigit-str n)))
      (signed-digits (str n) (isdigit-str n) ∙ ap (λ m. some (pos m)) (int_from-str n))

-- Two numbers have the same decimal form only if they are the same.
pub str_injective : (a b : ℕ) → str a ≡ str b → a ≡ b
str_injective a b e = sym (int_from-str a) ∙ ap (int_from 0) e ∙ int_from-str b
