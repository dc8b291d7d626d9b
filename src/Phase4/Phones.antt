-- ===== src/Phase4/Phones.antt =====
-- What `normalize_phone` returns, and which texts it takes for the same number.
use Prim.Native.Char.{Char, code}
use senderplatformtest.Prelude.{
  ℕ, ◌≡◌, ◌⊎◌, refl, sym, ap, ◌∙◌, Bool, true, false, ◌&&◌, ◌||◌, none, some, String, arith, leb,
  ◌==◌, if◌then◌else◌, str_eq, eq_iff, length, Bool-cases, if_cases, inl, inr,
}
use senderplatformtest.Prelude.Text.{codes, is_digit, is_space, all_digits}
use senderplatformtest.Validation.{strip_string, lstrip_string, reverse_onto, is_blank}
use senderplatformtest.Validation.Blank.{not_blank}
use senderplatformtest.Phase4.{
  plus, filter_string, drop_string, normalize_persian_digits, digits_of, is_kept,
  string_starts_with, looks_like_iranian_mobile_with_leading_zero, normalize_text,
  without_separators, normalize_phone,
}

-- A digit or a plus sign.
abbrev is_plain_code : ℕ → Bool
is_plain_code c = is_digit c || c == 43

abbrev plain : String → Bool
plain String.[] = true
plain (String.◌∷◌ c s) = is_plain_code (code c) && plain s

head_plain :
    (c : ℕ) (b : Bool)
    → is_plain_code c && b ≡ true
    → (is_space c ≡ false)
      × (is_kept c ≡ true)
      × (leb 1776 c && leb c 1785 ≡ false)
      × (leb 1632 c && leb c 1641 ≡ false)
      × (b ≡ true)
unfolding is_kept
head_plain c b h = (ground arith, ground arith, ground arith, ground arith, ground arith)

lstrip-plain : (s : String) → plain s ≡ true → lstrip_string s ≡ s
unfolding lstrip_string
lstrip-plain String.[] h = refl
lstrip-plain (String.◌∷◌ c s) h = rw ((head_plain (code c) (plain s) h).0) refl

reverse_onto-plain :
    (acc s : String) → plain acc ≡ true → plain s ≡ true → plain (reverse_onto acc s) ≡ true
unfolding reverse_onto
reverse_onto-plain acc String.[] h g = h
reverse_onto-plain acc (String.◌∷◌ c s) h g =
    reverse_onto-plain (String.◌∷◌ c acc) s (ground arith) (ground arith)

reverse_onto_twice :
    (r s acc : String) → reverse_onto acc (reverse_onto r s) ≡ reverse_onto (plus s acc) r
unfolding reverse_onto plus
reverse_onto_twice r String.[] acc = refl
reverse_onto_twice r (String.◌∷◌ c s) acc = reverse_onto_twice (String.◌∷◌ c r) s acc

plus_empty : (s : String) → plus s "" ≡ s
unfolding plus
plus_empty String.[] = refl
plus_empty (String.◌∷◌ c s) = ap (λ t. String.◌∷◌ c t) (plus_empty s)

strip-plain : (s : String) → plain s ≡ true → strip_string s ≡ s
unfolding strip_string reverse_onto
strip-plain s h =
    rw
      (
        lstrip-plain s h,
        lstrip-plain (reverse_onto "" s) (reverse_onto-plain "" s refl h),
        reverse_onto_twice "" s "",
      )
      (plus_empty s)

not_empty : (c : Char) (s : String) → str_eq (String.◌∷◌ c s) "" ≡ false
not_empty c s = elim (Bool-cases (str_eq (String.◌∷◌ c s) "")) [
  | inl t ↦ let same : String.◌∷◌ c s ≡ "" = (eq_iff (String.◌∷◌ c s) "").0 t in absurd cc
  | inr f ↦ f
]

persian-plain : (s : String) → plain s ≡ true → normalize_persian_digits s ≡ s
unfolding normalize_persian_digits
persian-plain String.[] h = refl
persian-plain (String.◌∷◌ c s) h =
    let (_, _, persian, arabic, rest) = head_plain (code c) (plain s) h in
    rw (persian, arabic) (ap (λ t. String.◌∷◌ c t) (persian-plain s rest))

kept-plain : (s : String) → plain s ≡ true → filter_string is_kept s ≡ s
unfolding filter_string
kept-plain String.[] h = refl
kept-plain (String.◌∷◌ c s) h =
    let (_, kept, _, _, rest) = head_plain (code c) (plain s) h in
    rw kept (ap (λ t. String.◌∷◌ c t) (kept-plain s rest))

-- A number in digits, after an optional plus sign, is read as it stands.
normalize_phone-plain :
    (c : Char) (s : String)
    → plain (String.◌∷◌ c s) ≡ true
    → normalize_phone (String.◌∷◌ c s) ≡ normalize_text (String.◌∷◌ c s)
unfolding normalize_phone without_separators is_blank
normalize_phone-plain c s h =
    let t = String.◌∷◌ c s in
    rw (strip-plain t h, persian-plain t h, kept-plain t h, not_empty c s) refl

digits_of-digits : (s : String) → all_digits (codes (digits_of s)) ≡ true
unfolding digits_of filter_string
digits_of-digits String.[] = refl
digits_of-digits (String.◌∷◌ c s) = elim (Bool-cases (is_digit (code c))) [
  | inl t ↦ rw (t, t) (digits_of-digits s)
  | inr f ↦ rw f (digits_of-digits s)
]

all-digits_of : (s : String) → all_digits (codes s) ≡ true → digits_of s ≡ s
unfolding digits_of filter_string
all-digits_of String.[] h = refl
all-digits_of (String.◌∷◌ c s) h = ground (arith, all-digits_of s)

digits-plain : (s : String) → all_digits (codes s) ≡ true → plain s ≡ true
digits-plain String.[] h = refl
digits-plain (String.◌∷◌ c s) h = ground (arith, digits-plain s)

plain-plus :
    (s : String)
    → all_digits (codes s) ≡ true
    → (plain (plus "+989" s) ≡ true)
      × (plain (plus "00989" s) ≡ true)
      × (plain (plus "989" s) ≡ true)
      × (plain (plus "09" s) ≡ true)
      × (plain (plus "9" s) ≡ true)
unfolding plus
plain-plus s h = rw (digits-plain s h) (refl, refl, refl, refl, refl)

-- The text after its separators are gone, in the four forms with a prefix.
text_forms :
    (s : String)
    → all_digits (codes s) ≡ true
    → length (codes s) ≡ 9
    → (normalize_text (plus "+989" s) ≡ some (plus "+989" s))
      × (normalize_text (plus "00989" s) ≡ some (plus "+989" s))
      × (normalize_text (plus "989" s) ≡ some (plus "+989" s))
      × (normalize_text (plus "09" s) ≡ some (plus "+989" s))
unfolding plus drop_string string_starts_with looks_like_iranian_mobile_with_leading_zero
    normalize_text
text_forms s h n = (
  rw (not_empty _ (plus "989" s), all-digits_of (plus "989" s) h) refl,
  rw (not_empty _ (plus "0989" s)) refl,
  rw (not_empty _ (plus "89" s), all-digits_of (plus "9" s) h) refl,
  rw (not_empty _ (plus "9" s), all-digits_of (plus "09" s) h, n, all-digits_of (plus "9" s) h)
      refl,
)

-- The form without a prefix, which must not look like the prefix 98.
bare_form :
    (s : String)
    → all_digits (codes s) ≡ true
    → length (codes s) ≡ 9
    → string_starts_with "8" s ≡ false
    → normalize_text (plus "9" s) ≡ some (plus "+989" s)
unfolding plus drop_string string_starts_with looks_like_iranian_mobile_with_leading_zero
    normalize_text
bare_form s h n eight = rw (not_empty _ s, all-digits_of (plus "9" s) h, n, eight) refl

-- Five ways to write an Iranian mobile number, with the nine digits after the 9, are one number, with
-- one exception: without any prefix it is so only where the nine digits do not start with an 8.
pub normalize_phone-forms :
    (s : String)
    → all_digits (codes s) ≡ true
    → length (codes s) ≡ 9
    → (normalize_phone (plus "+989" s) ≡ some (plus "+989" s))
      × (normalize_phone (plus "00989" s) ≡ some (plus "+989" s))
      × (normalize_phone (plus "989" s) ≡ some (plus "+989" s))
      × (normalize_phone (plus "09" s) ≡ some (plus "+989" s))
      × ((string_starts_with "8" s ≡ true) ⊎ (normalize_phone (plus "9" s) ≡ some (plus "+989" s)))
unfolding plus
normalize_phone-forms s h n =
    let (p1, p2, p3, p4, p5) = plain-plus s h in
    let (e1, e2, e3, e4) = text_forms s h n in
    (
      normalize_phone-plain _ _ p1 ∙ e1,
      normalize_phone-plain _ _ p2 ∙ e2,
      normalize_phone-plain _ _ p3 ∙ e3,
      normalize_phone-plain _ _ p4 ∙ e4,
      elim (Bool-cases (string_starts_with "8" s)) [
        | inl eight ↦ inl eight
        | inr other ↦ inr (normalize_phone-plain _ _ p5 ∙ bare_form s h n other)
      ],
    )

-- A plus sign and digits.
abbrev pub IsE164 : String → Type 0
IsE164 r = (d : String) × (all_digits (codes d) ≡ true) × (r ≡ plus "+" d)

given : (x r : String) → some x ≡ some r → x ≡ r
given x r e = cc (e)

short : (x r : String) → some (plus "+" (digits_of x)) ≡ some r → IsE164 r
short x r e = (digits_of x, digits_of-digits x, sym (given (plus "+" (digits_of x)) r e))

long : (x r : String) → some (plus "+98" (digits_of x)) ≡ some r → IsE164 r
unfolding plus
long x r e =
    (plus "98" (digits_of x), digits_of-digits x, sym (given (plus "+98" (digits_of x)) r e))

-- The last three ways: a national number with or without its 0, and any other digits.
national :
    (text r : String)
    → (if string_starts_with "0" text && looks_like_iranian_mobile_with_leading_zero text
        then some (plus "+98" (digits_of (drop_string 1 text)))
        else if string_starts_with "9" (digits_of text) && length (codes (digits_of text)) == 10
        then some (plus "+98" (digits_of text))
        else if str_eq (digits_of text) ""
        then none
        else some (plus "+" (digits_of text)))
      ≡ some r
    → IsE164 r
national text r e =
    elim (if_cases (string_starts_with "0" text && looks_like_iranian_mobile_with_leading_zero text)
      _ _ e) [
        | inl (_, zero_first) ↦ long (drop_string 1 text) r zero_first
        | inr (_, e1) ↦
            elim (if_cases
              (string_starts_with "9" (digits_of text) && length (codes (digits_of text)) == 10) _ _
              e1) [
                | inl (_, nine_first) ↦ long text r nine_first
                | inr (_, e2) ↦ elim (if_cases (str_eq (digits_of text) "") _ _ e2) [
                  | inl (_, none_given) ↦ cc (none_given)
                  | inr (_, other) ↦ short text r other
                ]
              ]
      ]

normalize_text-shape :
    (text r : String)
    → normalize_text text ≡ some r
    → ((string_starts_with "0098" text ≡ true) × (r ≡ plus "+98" (drop_string 4 text))) ⊎ IsE164 r
unfolding normalize_text
normalize_text-shape text r e = elim (if_cases (str_eq text "") _ _ e) [
  | inl (_, none_given) ↦ cc (none_given)
  | inr (_, e1) ↦ elim (if_cases (string_starts_with "0098" text) _ _ e1) [
    | inl (prefix, long_form) ↦
        inl (prefix, sym (given (plus "+98" (drop_string 4 text)) r long_form))
    | inr (_, e2) ↦ elim (if_cases (string_starts_with "+" text) _ _ e2) [
      | inl (_, plus_sign) ↦ inr (short (drop_string 1 text) r plus_sign)
      | inr (_, e3) ↦ elim (if_cases (string_starts_with "98" text) _ _ e3) [
        | inl (_, country) ↦ inr (long (drop_string 2 text) r country)
        | inr (_, e4) ↦ inr (national text r e4)
      ]
    ]
  ]
]

plus_sign-is_blank : (s : String) → is_blank (plus "+" s) ≡ false
unfolding plus lstrip_string
plus_sign-is_blank s = not_blank (plus "+" s) (λ e. cc (e))

-- What `normalize_phone` returns is a plus sign and digits, unless the text starts with 0098 once
-- its separators are gone; then it is +98 and what follows the 0098, whatever that is.
pub normalize_phone-shape :
    (phone r : String)
    → normalize_phone phone ≡ some r
    → ((string_starts_with "0098" (without_separators phone) ≡ true)
        × (r ≡ plus "+98" (drop_string 4 (without_separators phone))))
      ⊎ IsE164 r
unfolding normalize_phone
normalize_phone-shape phone r e = elim (if_cases (is_blank phone) _ _ e) [
  | inl (_, none_given) ↦ cc (none_given)
  | inr (_, given_text) ↦ normalize_text-shape (without_separators phone) r given_text
]

-- A phone number that is returned is not blank.
pub normalize_phone-is_blank :
    (phone r : String) → normalize_phone phone ≡ some r → is_blank r ≡ false
unfolding plus
normalize_phone-is_blank phone r e = elim (normalize_phone-shape phone r e) [
  | inl (_, long_form) ↦
      rw long_form (plus_sign-is_blank (plus "98" (drop_string 4 (without_separators phone))))
  | inr (d, _, short_form) ↦ rw short_form (plus_sign-is_blank d)
]
