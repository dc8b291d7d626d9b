-- ===== src/Consent/Laws.antt =====
-- What an opt-out and an opt-in change, and for whom.
use senderplatformtest.Prelude.{
  ℕ, ◌≡◌, ◌≢◌, ◌↔◌, ◌⊎◌, inl, inr, Option-cases, refl, Bool, true, false, Option, none, some,
  String, arith, if◌then◌else◌,
}
use senderplatformtest.Platform.{PlatformType, platform_eq}
use senderplatformtest.Consent.{
  Contact, ConsentDb, opted_out, parse_platform, applies, latest_of, latest_event_opted_in,
  record_event, record_opt_in, record_opt_out, has_opted_in, get_consent_block_reason,
}

platform_eq_refl : (p : PlatformType) → platform_eq p p ≡ true
platform_eq_refl p = ground arith

applies_refl : (p : Option PlatformType) → applies p p ≡ true
applies_refl none = refl
applies_refl (some p) = platform_eq_refl p

module _ (db db' : ConsentDb) (c : ℕ) (platform : Option String) (reason username : String) where
  opted_out_eq :
      record_opt_out db c platform reason username ≡ some db'
      → db' ≡ record_event false "record_opt_out" db c platform reason username
  unfolding record_opt_out
  opted_out_eq e = ground arith

  opted_in_eq :
      record_opt_in db c platform reason username ≡ some db'
      → db' ≡ record_event true "record_opt_in" db c platform reason username
  unfolding record_opt_in
  opted_in_eq e = ground arith

  -- An event of one contact says nothing of another.
  others_kept :
      (b : Bool) (action : String) (other : Option String) (d : ℕ)
      → d ≢ c
      → get_consent_block_reason (record_event b action db c platform reason username) d other
        ≡ get_consent_block_reason db d other
  unfolding record_event get_consent_block_reason latest_event_opted_in latest_of
  others_kept b action other d ne = ground arith

  blocked_out :
      (action : String) (other : Option String)
      → let db1 = record_event false action db c platform reason username in
        (get_consent_block_reason db1 c other ≢ none) × (has_opted_in db1 c other ≡ false)
  unfolding record_event get_consent_block_reason has_opted_in
  blocked_out action other = (λ e. ground arith, ground arith)

  -- After an opt-out, for whatever channel, the contact is blocked on every channel, and no other
  -- contact is affected.
  pub opt_out_blocks :
      record_opt_out db c platform reason username ≡ some db'
      → (other : Option String)
      → (get_consent_block_reason db' c other ≢ none)
        × (has_opted_in db' c other ≡ false)
        × ((d : ℕ)
            → d ≢ c
            → get_consent_block_reason db' d other ≡ get_consent_block_reason db d other)
  opt_out_blocks e other = rw (opted_out_eq e) (
    (blocked_out "record_opt_out" other).0,
    (blocked_out "record_opt_out" other).1,
    others_kept false "record_opt_out" other,
  )

  -- After an opt-in the contact may be sent to on the channel of the opt-in, whatever stood before,
  -- and no other contact is affected. On any other channel the latest event before still decides,
  -- and the blacklist no longer does.
  pub opt_in_allows :
      record_opt_in db c platform reason username ≡ some db'
      → (get_consent_block_reason db' c platform ≡ none)
        × (has_opted_in db' c platform ≡ true)
        × ((other : Option String)
            → applies (parse_platform platform) (parse_platform other) ≡ false
            → get_consent_block_reason db' c other
              ≡ (if latest_event_opted_in db c other then none else some opted_out))
        × ((d : ℕ) (other : Option String)
            → d ≢ c
            → get_consent_block_reason db' d other ≡ get_consent_block_reason db d other)
  unfolding record_event get_consent_block_reason has_opted_in latest_event_opted_in latest_of
  opt_in_allows e = rw (opted_in_eq e) (
    ground (arith, applies_refl (parse_platform platform)),
    ground (arith, applies_refl (parse_platform platform)),
    λ other apart. ground arith,
    λ d other. others_kept true "record_opt_in" other d,
  )

-- For a contact that is there the two checks agree: sending is not blocked exactly when the contact
-- counts as opted in. For one that is not there they differ: nothing blocks it, and it does not
-- count as opted in.
pub block_reason-has_opted_in :
    (db : ConsentDb) (c : ℕ) (platform : Option String)
    → (((contact : Contact) × (db.contact c ≡ some contact))
        × ((get_consent_block_reason db c platform ≡ none) ↔ (has_opted_in db c platform ≡ true)))
      ⊎ ((db.contact c ≡ none)
          × (get_consent_block_reason db c platform ≡ none)
          × (has_opted_in db c platform ≡ false))
unfolding get_consent_block_reason has_opted_in
block_reason-has_opted_in db c platform = elim (Option-cases (db.contact c)) [
  | inl gone ↦ inr (gone, ground arith, ground arith)
  | inr (contact, there) ↦ inl ((contact, there), (λ h. ground arith, λ h. ground arith))
]
