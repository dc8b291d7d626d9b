-- ===== src/Phase4/Consents.antt =====
-- Which consent values allow a message.
use senderplatformtest.Prelude.{
  ◌≡◌, ◌⊎◌, refl, Bool, true, false, ◌||◌, Option, none, some, String, if_cases, inl, inr,
}
use senderplatformtest.Prelude.Text.{Text, codes, lower, strip, text_eq, text_eq-eq}
use senderplatformtest.Validation.{is_blank}
use senderplatformtest.Phase4.{
  Consent, allowed, blocked, unknown, is_allowed, legacy_consent_map, normalize_consent_status,
  is_consent_allowed,
}

either : (a b : Bool) → a || b ≡ true → (a ≡ true) ⊎ (b ≡ true)
either true b e = inl refl
either false b e = inr e

legacy-allowed :
    (value : Text)
    → legacy_consent_map value ≡ some allowed
    → (value ≡ codes "opted_in") ⊎ (value ≡ codes "allowed")
unfolding legacy_consent_map
legacy-allowed value e =
    elim (if_cases (text_eq value (codes "opted_in") || text_eq value (codes "allowed"))
      (some allowed) _ e) [
        | inl (given, _) ↦
            elim (either (text_eq value (codes "opted_in")) (text_eq value (codes "allowed"))
              given) [
                | inl t ↦ inl (text_eq-eq value (codes "opted_in") t)
                | inr t ↦ inr (text_eq-eq value (codes "allowed") t)
              ]
        | inr (_, e1) ↦
            elim (if_cases (text_eq value (codes "opted_out") || text_eq value (codes "blocked"))
              (some blocked) _ e1) [
                | inl (_, other) ↦ cc (other)
                | inr (_, e2) ↦
                    elim (if_cases (text_eq value (codes "unknown")) (some unknown) none e2) [
                      | inl (_, other) ↦ cc (other)
                      | inr (_, other) ↦ cc (other)
                    ]
              ]
      ]

status_allowed :
    (o : Option Consent)
    → (elim o as (λ x. Option Bool) [ none ↦ none | some status ↦ some (is_allowed status) ])
      ≡ some true
    → o ≡ some allowed
unfolding is_allowed
status_allowed none e = cc (e)
status_allowed (some allowed) e = refl
status_allowed (some blocked) e = cc (e)
status_allowed (some unknown) e = cc (e)

-- Consent counts as given only for the words "opted_in" and "allowed", in any case and with white
-- space around them; a missing, blank, unknown or any other value is none.
pub is_consent_allowed_words :
    (value : String)
    → is_consent_allowed value ≡ some true
    → (lower (strip (codes value)) ≡ codes "opted_in")
      ⊎ (lower (strip (codes value)) ≡ codes "allowed")
unfolding is_consent_allowed normalize_consent_status
is_consent_allowed_words value e =
    elim (if_cases (is_blank value) (some unknown) _
      (status_allowed (normalize_consent_status (some value)) e)) [
        | inl (_, other) ↦ cc (other)
        | inr (_, given) ↦ legacy-allowed (lower (strip (codes value))) given
      ]
