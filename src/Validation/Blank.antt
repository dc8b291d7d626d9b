-- ===== src/Validation/Blank.antt =====
-- Which texts `strip` leaves nothing of.
use Prim.Native.Char.{Char, code}
use Prim.Native.String.{◌++◌}
use Prim.Native.String.append
use senderplatformtest.Prelude.{
  ◌≡◌, ◌≢◌, refl, sym, ap, ◌∙◌, true, false, String, str_eq, eq_iff, arith, Bool-cases, inl, inr,
}
use senderplatformtest.Prelude.Text.{is_space}
use senderplatformtest.Validation.{lstrip_string, reverse_onto, strip_string, is_blank}

pub lstrip_empty : lstrip_string "" ≡ ""
unfolding lstrip_string
lstrip_empty = refl

-- The two steps of lstrip.
lstrip_space :
    (c : Char) (s : String)
    → is_space (code c) ≡ true
    → lstrip_string (String.◌∷◌ c s) ≡ lstrip_string s
unfolding lstrip_string
lstrip_space c s t = rw t refl

lstrip_other :
    (c : Char) (s : String)
    → is_space (code c) ≡ false
    → lstrip_string (String.◌∷◌ c s) ≡ String.◌∷◌ c s
unfolding lstrip_string
lstrip_other c s f = rw f refl

cons_nonempty : (c : Char) (s : String) → String.◌∷◌ c s ≢ ""
cons_nonempty c s e = cc

lstrip_other-nonempty :
    (c : Char) (s : String) → is_space (code c) ≡ false → lstrip_string (String.◌∷◌ c s) ≢ ""
lstrip_other-nonempty c s f e = cons_nonempty c s (sym (lstrip_other c s f) ∙ e)

lstrip_nonempty :
    (c : Char) (s : String) → lstrip_string s ≢ "" → lstrip_string (String.◌∷◌ c s) ≢ ""
lstrip_nonempty c s h e = elim (Bool-cases (is_space (code c))) [
  | inl t ↦ h (sym (lstrip_space c s t) ∙ e)
  | inr f ↦ lstrip_other-nonempty c s f e
]

lstrip_append-nonempty : (a s : String) → lstrip_string a ≢ "" → lstrip_string (a ++ s) ≢ ""
lstrip_append-nonempty String.[] s h e = h (lstrip_empty)
lstrip_append-nonempty (String.◌∷◌ c a) s h e =
    let e' = ap lstrip_string (sym (λ i. append.cons c a s i)) ∙ e in
    elim (Bool-cases (is_space (code c))) [
      | inl t ↦
          lstrip_append-nonempty a s (λ e2. h (lstrip_space c a t ∙ e2))
            (sym (lstrip_space c (a ++ s) t) ∙ e')
      | inr f ↦ lstrip_other-nonempty c (a ++ s) f e'
    ]

lstrip-lstrip : (s : String) → lstrip_string s ≢ "" → lstrip_string (lstrip_string s) ≢ ""
lstrip-lstrip String.[] h e = h lstrip_empty
lstrip-lstrip (String.◌∷◌ c s) h e = elim (Bool-cases (is_space (code c))) [
  | inl t ↦
      lstrip-lstrip s (λ e2. h (lstrip_space c s t ∙ e2))
        (ap lstrip_string (sym (lstrip_space c s t)) ∙ e)
  | inr f ↦ lstrip_other-nonempty c s f (ap lstrip_string (sym (lstrip_other c s f)) ∙ e)
]

reverse_onto-nonempty :
    (acc s : String) → lstrip_string acc ≢ "" → lstrip_string (reverse_onto acc s) ≢ ""
unfolding reverse_onto
reverse_onto-nonempty acc String.[] h = h
reverse_onto-nonempty acc (String.◌∷◌ c s) h =
    reverse_onto-nonempty (String.◌∷◌ c acc) s (lstrip_nonempty c acc h)

reverse_onto-keeps : (acc s : String) → acc ≢ "" → reverse_onto acc s ≢ ""
unfolding reverse_onto
reverse_onto-keeps acc String.[] h = h
reverse_onto-keeps acc (String.◌∷◌ c s) h = reverse_onto-keeps (String.◌∷◌ c acc) s (λ e. cc)

reverse-nonempty : (s : String) → s ≢ "" → reverse_onto "" s ≢ ""
unfolding reverse_onto
reverse-nonempty String.[] h = h
reverse-nonempty (String.◌∷◌ c s) h = reverse_onto-keeps (String.◌∷◌ c "") s (λ e. cc)

pub str_eq-false : (a b : String) → a ≢ b → str_eq a b ≡ false
str_eq-false a b h = ground (arith, eq_iff a b, h)

lstrip-reverse : (acc s : String) → lstrip_string s ≢ "" → lstrip_string (reverse_onto acc s) ≢ ""
unfolding reverse_onto
lstrip-reverse acc String.[] h e = h lstrip_empty
lstrip-reverse acc (String.◌∷◌ c s) h e = elim (Bool-cases (is_space (code c))) [
  | inl t ↦ lstrip-reverse (String.◌∷◌ c acc) s (λ e2. h (lstrip_space c s t ∙ e2)) e
  | inr f ↦ reverse_onto-nonempty (String.◌∷◌ c acc) s (lstrip_other-nonempty c acc f) e
]

-- A text is blank only where it has nothing but white space.
pub not_blank : (s : String) → lstrip_string s ≢ "" → is_blank s ≡ false
unfolding is_blank strip_string
not_blank s h = str_eq-false _ _ (
    reverse-nonempty (lstrip_string (reverse_onto "" (lstrip_string s)))
      (lstrip-reverse "" (lstrip_string s) (lstrip-lstrip s h)))

pub lstrip_c : (s : String) → lstrip_string ("c" ++ s) ≢ ""
unfolding lstrip_string
lstrip_c s = lstrip_append-nonempty "c" s (λ e. cc)

pub not_blank-strip : (s : String) → lstrip_string s ≢ "" → is_blank (strip_string s) ≡ false
unfolding strip_string
not_blank-strip s h = not_blank _ (
    lstrip-reverse "" _ (lstrip-lstrip _ (lstrip-reverse "" (lstrip_string s) (lstrip-lstrip s h))))

pub blank_lem : (s : String) → is_blank s ≡ false → lstrip_string s ≢ ""
unfolding is_blank strip_string lstrip_string reverse_onto
blank_lem s h e = let blank : is_blank s ≡ true = rw e refl in cc
