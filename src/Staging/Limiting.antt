-- ===== src/Staging/Limiting.antt =====
-- What a call of `prepare_campaign_messages` leaves in the table, and how many rows are READY.
use senderplatformtest.Prelude.{
  ℕ, suc, ◌+◌, ◌-◌, ◌≤◌, ◌≡◌, ◌≢◌, ◌⊎◌, refl, sym, ap, ◌∙◌, subst, Bool, true, false, not, ◌&&◌,
  Option, none, some, List, [], ◌∷◌, ◌++◌, arith, max, length, filter, if◌then◌else◌, Mem, All,
  Bool-cases, Option-cases, if_cases, inl, inr, Result, ok, raise, bind_returned,
}
use senderplatformtest.QueueBridge.{StagedQueueItem, is_ready}
use senderplatformtest.Phase4.{Consent, allowed, blocked, unknown, normalize_consent_status}
use senderplatformtest.Staging.{
  Contact, Campaign, Request, PrepareError, real_rendering_disabled, campaign_not_found,
  no_valid_snapshot, invalid_consent_status, commit_failed, has_row, dict_values, ready_count,
  compute_effective_limit, at_most, allowed_contacts_list, keep_allowed, is_allowed,
}
use senderplatformtest.Staging.Preparing.{
  Prepared, start, committed, finish_prepare, stage_contacts, prepare_allowed,
  prepare_campaign_messages,
}
use senderplatformtest.Staging.Looping.{IsDistinct, IsNewRow, Grown, stage_contacts-Grown}

given : (a b : List Contact) → some a ≡ some b → a ≡ b
given a b e = cc (e)

keep_allowed-mem :
    (contact c : Contact) (o : Option Consent) (rest l : List Contact)
    → normalize_consent_status (some contact.consent_status) ≡ o
    → keep_allowed contact o (some rest) ≡ some l
    → Mem c l
    → ((c ≡ contact) × (normalize_consent_status (some c.consent_status) ≡ some allowed))
      ⊎ Mem c rest
unfolding keep_allowed is_allowed
keep_allowed-mem contact c none rest l o e m = cc (e)
keep_allowed-mem contact c (some allowed) rest l o e m =
    elim (subst (λ x. Mem c x) (sym (given (contact ∷ rest) l e)) m) [
      | inl same ↦ inl (same, ap (λ x. normalize_consent_status (some x.consent_status)) same ∙ o)
      | inr later ↦ inr later
    ]
keep_allowed-mem contact c (some blocked) rest l o e m =
    inr (subst (λ x. Mem c x) (sym (given rest l e)) m)
keep_allowed-mem contact c (some unknown) rest l o e m =
    inr (subst (λ x. Mem c x) (sym (given rest l e)) m)

keep_allowed-failed :
    (contact : Contact) (o : Option Consent) (l : List Contact)
    → keep_allowed contact o none ≢ some l
unfolding keep_allowed
keep_allowed-failed contact none l e = cc (e)
keep_allowed-failed contact (some consent) l e = cc (e)

-- Only contacts whose consent is "allowed" are taken.
pub allowed_contacts_list-mem :
    (contacts l : List Contact) (c : Contact)
    → allowed_contacts_list contacts ≡ some l
    → Mem c l
    → Mem c contacts × (normalize_consent_status (some c.consent_status) ≡ some allowed)
unfolding allowed_contacts_list
allowed_contacts_list-mem [] l c e m = elim (subst (λ x. Mem c x) (sym (given [] l e)) m) [ ]
allowed_contacts_list-mem (contact ∷ contacts) l c e m =
    elim (Option-cases (allowed_contacts_list contacts)) [
      | inl failed ↦ absurd (
          keep_allowed-failed contact (normalize_consent_status (some contact.consent_status)) l (
            subst
              (λ o.
                keep_allowed contact (normalize_consent_status (some contact.consent_status)) o
                ≡ some l)
              failed e))
      | inr (rest, found) ↦
          let kept =
            subst
              (λ o.
                keep_allowed contact (normalize_consent_status (some contact.consent_status)) o
                ≡ some l)
              found e in
          elim (keep_allowed-mem contact c (normalize_consent_status (some contact.consent_status))
            rest l refl kept m) [
              | inl (same, consent) ↦ (inl same, consent)
              | inr later ↦
                  let (listed, consent) = allowed_contacts_list-mem contacts rest c found later in
                  (inr listed, consent)
            ]
    ]

abbrev is_agreement : Option Consent → Bool
is_agreement (some allowed) = true
is_agreement _ = false

-- The contact's consent is "allowed".
abbrev pub agrees : Contact → Bool
agrees c = is_agreement (normalize_consent_status (some c.consent_status))

keep_allowed-filter :
    (contact : Contact) (o : Option Consent) (rest l : List Contact)
    → keep_allowed contact o (some rest) ≡ some l
    → l ≡ (if is_agreement o then contact ∷ rest else rest)
unfolding keep_allowed is_allowed
keep_allowed-filter contact none rest l e = cc (e)
keep_allowed-filter contact (some allowed) rest l e = sym (given (contact ∷ rest) l e)
keep_allowed-filter contact (some blocked) rest l e = sym (given rest l e)
keep_allowed-filter contact (some unknown) rest l e = sym (given rest l e)

-- All contacts whose consent is "allowed" are taken, in their order, and no others.
pub allowed_contacts_list-filter :
    (contacts l : List Contact)
    → allowed_contacts_list contacts ≡ some l
    → l ≡ filter agrees contacts
unfolding allowed_contacts_list
allowed_contacts_list-filter [] l e = sym (given [] l e)
allowed_contacts_list-filter (contact ∷ contacts) l e =
    let consent = normalize_consent_status (some contact.consent_status) in
    elim (Option-cases (allowed_contacts_list contacts)) [
      | inl failed ↦ absurd (
          keep_allowed-failed contact consent l
            (subst (λ o. keep_allowed contact consent o ≡ some l) failed e))
      | inr (rest, found) ↦
          keep_allowed-filter contact consent rest l
            (subst (λ o. keep_allowed contact consent o ≡ some l) found e)
          ∙ ap (λ xs. if is_agreement consent then contact ∷ xs else xs)
              (allowed_contacts_list-filter contacts rest found)
    ]

-- What a call that returns leaves: the rows that were there, as they were, and the new ones, at
-- most as many as there were slots.
pub record IsPrepared (request : Request) (campaign : Campaign) (contacts : List Contact)
    (staged : List StagedQueueItem) (out : Prepared) : Type 0 where
  pub chosen : List Contact
  pub all_agreed : chosen ≡ filter agrees contacts
  pub chosen_allowed :
      (c : Contact)
      → Mem c chosen
      → Mem c contacts × (normalize_consent_status (some c.consent_status) ≡ some allowed)
  pub new : List StagedQueueItem
  pub rows : out.staged ≡ staged ++ new
  pub new_rows : All (IsNewRow campaign chosen) new
  pub one_per_contact : IsDistinct out.staged
  pub within_slots :
      length new
      ≤ compute_effective_limit
          (length chosen)
          request.limit
          campaign.daily_limit
          campaign.max_contacts
        - ready_count staged
  pub whole :
      ((c : Contact) → Mem c chosen → has_row c.id out.staged ≡ true)
      ⊎ (length new
          ≡ compute_effective_limit
              (length chosen)
              request.limit
              campaign.daily_limit
              campaign.max_contacts
            - ready_count staged)

dict_values-distinct : (xs : List StagedQueueItem) → IsDistinct xs → dict_values xs ≡ xs
unfolding dict_values
dict_values-distinct [] d = refl
dict_values-distinct (x ∷ xs) (fresh, d) = rw fresh (ap (λ l. x ∷ l) (dict_values-distinct xs d))

prepared_same : (a b : Prepared) → ◌≡◌ {A = Result PrepareError Prepared} (ok a) (ok b) → a ≡ b
prepared_same a b e = cc (e)

prepare_allowed-IsPrepared :
    (commits : Bool) (request : Request) (campaign : Campaign) (contacts chosen : List Contact)
    (staged : List StagedQueueItem) (next_id next_rendered_id : ℕ) (out : Prepared)
    → allowed_contacts_list contacts ≡ some chosen
    → 1 ≤ next_rendered_id
    → IsDistinct staged
    → prepare_allowed commits request campaign contacts staged next_id next_rendered_id chosen
      ≡ ok out
    → IsPrepared request campaign contacts staged out
unfolding prepare_allowed committed finish_prepare start Grown
prepare_allowed-IsPrepared commits request campaign contacts chosen staged next_id next_rendered_id
      out found rid d e =
    let limit =
      compute_effective_limit (length chosen) request.limit campaign.daily_limit
        campaign.max_contacts in
    let slots = limit - ready_count (dict_values staged) in
    let begin = start staged next_id next_rendered_id in
    let (p, looped, last) =
      bind_returned (stage_contacts campaign slots chosen begin)
        (λ p. committed commits (
          finish_prepare campaign contacts (length chosen) limit (ready_count (dict_values staged))
            p))
        e in
    let (new, rows, total, fresh, low, distinct, whole) =
      stage_contacts-Grown campaign slots chosen chosen begin p (λ c m. m) rid (omega arith) d
        looped in
    let answer =
      finish_prepare campaign contacts (length chosen) limit (ready_count (dict_values staged)) p in
    let same_count : ready_count (dict_values staged) ≡ ready_count staged =
      ap ready_count (dict_values-distinct staged d) in
    elim (if_cases commits (ok answer) (raise commit_failed) last) [
      | inr (_, failed) ↦ cc (failed)
      | inl (_, taken) ↦
          subst (λ o. IsPrepared request campaign contacts staged o)
            (prepared_same answer out taken)
            (record {
              chosen = chosen;
              all_agreed = allowed_contacts_list-filter contacts chosen found;
              chosen_allowed = λ c m. allowed_contacts_list-mem contacts chosen c found m;
              new = new;
              rows = rows;
              new_rows = fresh;
              one_per_contact = distinct;
              within_slots = rw⁻¹ same_count (omega (arith, total, low));
              whole = elim whole [
                | inl each ↦ inl each
                | inr full ↦ inr (rw⁻¹ same_count (omega (arith, total, full)))
              ];
            })
    ]

over_allowed :
    (commits : Bool) (request : Request) (campaign : Campaign) (contacts : List Contact)
    (staged : List StagedQueueItem) (next_id next_rendered_id : ℕ) (out : Prepared)
    (o : Option (List Contact))
    → allowed_contacts_list contacts ≡ o
    → 1 ≤ next_rendered_id
    → IsDistinct staged
    → (elim o [
      | none ↦ raise invalid_consent_status
      | some chosen ↦
          prepare_allowed commits request campaign contacts staged next_id next_rendered_id chosen
    ])
      ≡ ok out
    → IsPrepared request campaign contacts staged out
over_allowed commits request campaign contacts staged next_id next_rendered_id out none found rid d
      e =
    cc (e)
over_allowed commits request campaign contacts staged next_id next_rendered_id out (some chosen)
      found rid d e =
    prepare_allowed-IsPrepared commits request campaign contacts chosen staged next_id
      next_rendered_id out found rid d e

-- A call of `prepare_campaign_messages` that returns, over rows with none twice for a contact and with
-- ids of rendered messages from 1 on: the campaign exists, and the rows that were there stay as they
-- are. The new rows are READY, each for a contact of the campaign whose consent is "allowed", with
-- the payload for that contact, and no contact has two rows. At most as many are made as the
-- effective limit, over the number of all such contacts, leaves over the rows that are READY already;
-- where fewer are, every contact of the campaign whose consent is "allowed" has a row.
pub prepare_campaign_messages-IsPrepared :
    (commits snapshot : Bool) (request : Request) (found : Option Campaign)
    (contacts : List Contact) (staged : List StagedQueueItem) (next_id next_rendered_id : ℕ)
    (out : Prepared)
    → 1 ≤ next_rendered_id
    → IsDistinct staged
    → prepare_campaign_messages commits snapshot request found contacts staged next_id
        next_rendered_id
      ≡ ok out
    → (campaign : Campaign) × (found ≡ some campaign)
      × IsPrepared request campaign contacts staged out
unfolding prepare_campaign_messages
prepare_campaign_messages-IsPrepared commits snapshot request none contacts staged next_id
      next_rendered_id out rid d e =
    elim (if_cases (not request.force_mock_output) (raise real_rendering_disabled)
      (raise campaign_not_found) e) [
        | inl (_, refused) ↦ cc (refused)
        | inr (_, refused) ↦ cc (refused)
      ]
prepare_campaign_messages-IsPrepared commits snapshot request (some campaign) contacts staged
      next_id next_rendered_id out rid d e =
    elim (if_cases (not request.force_mock_output) (raise real_rendering_disabled) _ e) [
      | inl (_, refused) ↦ cc (refused)
      | inr (_, e1) ↦
          elim (if_cases (campaign.include_products && not snapshot) (raise no_valid_snapshot) _
            e1) [
              | inl (_, refused) ↦ cc (refused)
              | inr (_, e2) ↦ (
                campaign,
                refl,
                over_allowed commits request campaign contacts staged next_id next_rendered_id out
                    (allowed_contacts_list contacts) refl rid d e2,
              )
            ]
    ]

ready_count-new :
    (campaign : Campaign) (contacts : List Contact) (new : List StagedQueueItem)
    → All (IsNewRow campaign contacts) new
    → ready_count new ≡ length new
unfolding ready_count
ready_count-new campaign contacts [] all = omega arith
ready_count-new campaign contacts (row ∷ new) (isnew, all) =
    rw isnew.is_ready (ap suc (ready_count-new campaign contacts new all))

ready_count-append :
    (xs ys : List StagedQueueItem) → ready_count (xs ++ ys) ≡ ready_count xs + ready_count ys
unfolding ready_count
ready_count-append [] ys = omega arith
ready_count-append (x ∷ xs) ys = elim (Bool-cases (is_ready x.status)) [
  | inl t ↦ rw t (omega (arith, ready_count-append xs ys))
  | inr f ↦ rw f (omega (arith, ready_count-append xs ys))
]

same_campaign : (a b : Campaign) → some a ≡ some b → a ≡ b
same_campaign a b e = cc (e)

at_most-le : (o : Option ℕ) (n : ℕ) → at_most o n ≤ n
unfolding at_most
at_most-le none n = omega arith
at_most-le (some m) n = omega arith

at_most-le_limit : (o : Option ℕ) (limit n : ℕ) → o ≡ some limit → at_most o n ≤ limit
unfolding at_most
at_most-le_limit none limit n e = cc (e)
at_most-le_limit (some m) limit n e = let same : m ≡ limit = cc (e) in omega (arith, same)

-- The effective limit is below each of the limits that are set.
effective_limit-le :
    (n : ℕ) (request_limit daily_limit max_contacts : Option ℕ) (limit : ℕ)
    → (request_limit ≡ some limit) ⊎ (daily_limit ≡ some limit) ⊎ (max_contacts ≡ some limit)
    → compute_effective_limit n request_limit daily_limit max_contacts ≤ limit
unfolding compute_effective_limit
effective_limit-le n r d m limit is_set =
    let inner = at_most r n in
    let middle = at_most d inner in
    let low1 = at_most-le d inner in
    let low2 = at_most-le m middle in
    elim is_set [
      | inl e ↦ omega (arith, low1, low2, at_most-le_limit r limit n e)
      | inr (inl e) ↦ omega (arith, low2, at_most-le_limit d limit inner e)
      | inr (inr e) ↦ at_most-le_limit m limit middle e
    ]

-- Over rows with none twice for a contact, and with ids of rendered messages from 1 on, preparing
-- never makes more rows READY than each limit that is set, be it the request's, the campaign's for a
-- day or its number of contacts, unless so many were READY before; then it makes none more.
pub prepare-ready_count :
    (commits snapshot : Bool) (request : Request) (campaign : Campaign) (contacts : List Contact)
    (staged : List StagedQueueItem) (next_id next_rendered_id : ℕ) (out : Prepared) (limit : ℕ)
    → 1 ≤ next_rendered_id
    → IsDistinct staged
    → (request.limit ≡ some limit)
      ⊎ (campaign.daily_limit ≡ some limit)
      ⊎ (campaign.max_contacts ≡ some limit)
    → prepare_campaign_messages commits snapshot request
        (some campaign)
        contacts
        staged
        next_id
        next_rendered_id
      ≡ ok out
    → ready_count out.staged ≤ max limit (ready_count staged)
prepare-ready_count commits snapshot request campaign contacts staged next_id next_rendered_id out
      limit rid d is_set e =
    let (c, same, done) =
      prepare_campaign_messages-IsPrepared commits snapshot request (some campaign) contacts staged
        next_id next_rendered_id out rid d e in
    let done' : IsPrepared request campaign contacts staged out =
      subst (λ x. IsPrepared request x contacts staged out) (sym (same_campaign campaign c same))
        done in
    let bound =
      effective_limit-le (length done'.chosen) request.limit campaign.daily_limit
        campaign.max_contacts limit is_set in
    let total : ready_count out.staged ≡ ready_count staged + length done'.new =
      ap ready_count done'.rows
      ∙ ready_count-append staged done'.new
      ∙ ap (λ n. ready_count staged + n)
          (ready_count-new campaign done'.chosen done'.new done'.new_rows) in
    omega (arith, total, bound, done'.within_slots)
