-- ===== src/Rendering/Warnings.antt =====
-- The warnings that a rendered message comes with.
use senderplatformtest.Prelude.{
  ◌≡◌, refl, sym, ap, ◌∙◌, Bool, true, false, ◌||◌, Option, List, [], ◌∷◌, ◌++◌, String, arith,
  str_eq, eq_iff, Bool-cases, inl, inr, append_nil, append_assoc, subst,
}
use senderplatformtest.Rendering.{RenderedMessagePayload, given_warning}
use senderplatformtest.Rendering.Checking.{
  has_warning, add_warnings, validate_rendered_message, merged_warnings,
}

-- Each of the warnings that were added is neither in the list nor added before.
abbrev pub AreFresh : List String → List String → Type 0
AreFresh warnings [] = Unit
AreFresh warnings (w ∷ added) =
    (has_warning w warnings ≡ false) × AreFresh (warnings ++ w ∷ []) added

str_eq-eq : (a b : String) → str_eq a b ≡ true → a ≡ b
str_eq-eq a b h = ground (arith, eq_iff a b)

str_eq_refl : (a : String) → str_eq a a ≡ true
str_eq_refl a = ground (arith, eq_iff a a)

has_warning-append :
    (v : String) (ws vs : List String)
    → has_warning v (ws ++ vs) ≡ has_warning v ws || has_warning v vs
unfolding has_warning
has_warning-append v [] vs = refl
has_warning-append v (w ∷ ws) vs = ground (arith, has_warning-append v ws vs)

has_warning-last : (v : String) (ws : List String) → has_warning v (ws ++ v ∷ []) ≡ true
unfolding has_warning
has_warning-last v ws = ground (arith, has_warning-append v ws (v ∷ []), str_eq_refl v)

-- The two steps of the loop.
add_known :
    (ws : List String) (w : String) (added : List String)
    → has_warning w ws ≡ true
    → add_warnings ws (w ∷ added) ≡ add_warnings ws added
unfolding add_warnings
add_known ws w added h = rw h refl

add_new :
    (ws : List String) (w : String) (added : List String)
    → has_warning w ws ≡ false
    → add_warnings ws (w ∷ added) ≡ add_warnings (ws ++ w ∷ []) added
unfolding add_warnings
add_new ws w added h = rw h refl

add_warnings-grow :
    (v : String) (ws added : List String)
    → has_warning v ws ≡ true
    → has_warning v (add_warnings ws added) ≡ true
unfolding add_warnings
add_warnings-grow v ws [] h = h
add_warnings-grow v ws (w ∷ added) h = elim (Bool-cases (has_warning w ws)) [
  | inl known ↦ rw (add_known ws w added known) (add_warnings-grow v ws added h)
  | inr new ↦
      rw (add_new ws w added new)
        (add_warnings-grow v (ws ++ w ∷ []) added (rw (has_warning-append v ws (w ∷ []), h) refl))
]

add_warnings-all :
    (v : String) (ws added : List String)
    → has_warning v added ≡ true
    → has_warning v (add_warnings ws added) ≡ true
unfolding has_warning
add_warnings-all v ws [] h = cc
add_warnings-all v ws (w ∷ added) h = elim (Bool-cases (has_warning w ws)) [
  | inl known ↦ rw (add_known ws w added known) (elim (Bool-cases (str_eq v w)) [
    | inl same ↦
        add_warnings-grow v ws added
          (subst (λ x. has_warning x ws ≡ true) (sym (str_eq-eq v w same)) known)
    | inr other ↦ add_warnings-all v ws added (ground (arith, h, other))
  ])
  | inr new ↦ rw (add_new ws w added new) (elim (Bool-cases (str_eq v w)) [
    | inl same ↦ add_warnings-grow v (ws ++ w ∷ []) added (
        subst (λ x. has_warning x (ws ++ w ∷ []) ≡ true) (sym (str_eq-eq v w same))
          (has_warning-last w ws))
    | inr other ↦ add_warnings-all v (ws ++ w ∷ []) added (ground (arith, h, other))
  ])
]

-- The list stays as it was, and the fresh ones come behind it.
add_warnings-AreFresh :
    (ws added : List String)
    → (more : List String) × (add_warnings ws added ≡ ws ++ more) × AreFresh ws more
unfolding add_warnings
add_warnings-AreFresh ws [] = ([], sym (append_nil ws), tt)
add_warnings-AreFresh ws (w ∷ added) = elim (Bool-cases (has_warning w ws)) [
  | inl known ↦ rw (add_known ws w added known) (add_warnings-AreFresh ws added)
  | inr new ↦
      let (more, e, fresh) = add_warnings-AreFresh (ws ++ w ∷ []) added in
      (w ∷ more, add_new ws w added new ∙ e ∙ append_assoc ws (w ∷ []) more, (new, fresh))
]

AreFresh-append :
    (ws xs ys : List String) → AreFresh ws xs → AreFresh (ws ++ xs) ys → AreFresh ws (xs ++ ys)
AreFresh-append ws [] ys f g = subst (λ l. AreFresh l ys) (append_nil ws) g
AreFresh-append ws (x ∷ xs) ys (new, f) g = (
  new,
  AreFresh-append (ws ++ x ∷ []) xs ys f
      (subst (λ l. AreFresh l ys) (sym (append_assoc ws (x ∷ []) xs)) g),
)

-- The warnings of a rendered message are those that it had, as they were, and behind them others
-- that are neither among them nor repeated; the snapshot's warning, where it is given, and every
-- warning of the check are there.
pub merged_warnings-AreFresh :
    (message : RenderedMessagePayload) (used_products : Bool) (snapshot_warning : Option String)
    → let merged = merged_warnings message used_products snapshot_warning in
      ((more : List String) × (merged ≡ message.warnings ++ more) × AreFresh message.warnings more)
      × ((v : String)
          → has_warning v (given_warning snapshot_warning) ≡ true
          → has_warning v merged ≡ true)
      × ((v : String)
          → has_warning v (validate_rendered_message message used_products).1 ≡ true
          → has_warning v merged ≡ true)
unfolding merged_warnings
merged_warnings-AreFresh message used_products snapshot_warning =
    let own = message.warnings in
    let ws = add_warnings own (given_warning snapshot_warning) in
    let checks = (validate_rendered_message message used_products).1 in
    let (xs, e, f) = add_warnings-AreFresh own (given_warning snapshot_warning) in
    let (ys, d, g) = add_warnings-AreFresh ws checks in
    (
      (
        xs ++ ys,
        d ∙ ap (λ l. l ++ ys) e ∙ append_assoc own xs ys,
        AreFresh-append own xs ys f (subst (λ l. AreFresh l ys) e g),
      ),
      (λ v h.
          add_warnings-grow v ws checks
            (add_warnings-all v own (given_warning snapshot_warning) h)),
      (λ v h. add_warnings-all v ws checks h),
    )
