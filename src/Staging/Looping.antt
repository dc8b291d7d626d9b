-- ===== src/Staging/Looping.antt =====
-- What the loop over the allowed contacts adds to the rows of a campaign.
use senderplatformtest.Prelude.{
  ℕ, suc, ◌+◌, ◌≤◌, ◌<◌, ◌≡◌, ◌⊎◌, refl, sym, ap, ◌∙◌, subst, true, false, ◌||◌, Option, none, some,
  List, [], ◌∷◌, ◌++◌, arith, leb, length, Mem, All, Bool-cases, if_cases, inl, inr, Result, ok,
  bind_returned, append_nil, append_assoc,
}
use senderplatformtest.Platform.{ready}
use senderplatformtest.Baileys.{QueuePayload}
use senderplatformtest.QueueBridge.{StagedQueueItem}
use senderplatformtest.Phase4.{build_staged_queue_payload}
use senderplatformtest.Staging.{
  Contact, Campaign, PrepareError, has_row, existing_staged, is_ready_item,
  build_phase4_mock_final_text,
}
use senderplatformtest.Staging.Preparing.{
  Progress, take_existing, new_row, add_row, stage_payload, stage_new, stage_found, stage_contacts,
}

-- No contact has two rows.
abbrev pub IsDistinct : List StagedQueueItem → Type 0
IsDistinct [] = Unit
IsDistinct (item ∷ items) = (has_row item.contact_id items ≡ false) × IsDistinct items

-- A row that the loop has made, of a contact in the list: READY, with a payload that
-- `build_staged_queue_payload` gave for the contact and the mock text.
pub record IsNewRow (campaign : Campaign) (contacts : List Contact) (item : StagedQueueItem)
    : Type 0 where
  pub contact : Contact
  pub listed : Mem contact contacts
  pub of_contact : item.contact_id ≡ contact.id
  pub of_campaign : item.campaign_id ≡ campaign.id
  pub same_channel : item.channel ≡ campaign.channel
  pub is_ready : item.status ≡ ready
  pub rendered : ℕ
  pub rendered_positive : 1 ≤ rendered
  pub payload :
      build_staged_queue_payload campaign.id contact.id
        (some rendered)
        campaign.channel
        contact.phone
        contact.channel_handle
        (build_phase4_mock_final_text contact campaign)
      ≡ some item.queue_payload

has_row-append :
    (id : ℕ) (xs ys : List StagedQueueItem)
    → has_row id (xs ++ ys) ≡ (has_row id xs || has_row id ys)
unfolding has_row
has_row-append id [] ys = refl
has_row-append id (x ∷ xs) ys = ground (arith, has_row-append id xs ys)

IsDistinct-append :
    (xs : List StagedQueueItem) (row : StagedQueueItem)
    → IsDistinct xs
    → has_row row.contact_id xs ≡ false
    → IsDistinct (xs ++ row ∷ [])
unfolding has_row
IsDistinct-append [] row d h = (refl, tt)
IsDistinct-append (x ∷ xs) row (fresh, d) h = (
  has_row-append x.contact_id xs (row ∷ []) ∙ ground (arith, fresh, h),
  IsDistinct-append xs row d (ground (arith, h)),
)

existing-has_row :
    (id : ℕ) (items : List StagedQueueItem)
    → existing_staged id items ≡ none
    → has_row id items ≡ false
unfolding existing_staged has_row
existing-has_row id [] e = refl
existing-has_row id (x ∷ xs) e = elim (Bool-cases (has_row id xs)) [
  | inl t ↦
      let later : existing_staged id xs ≡ none = ground (arith, e, t) in
      cc (t, existing-has_row id xs later)
  | inr f ↦ ground (arith, e, f)
]

existing_some-has_row :
    (id : ℕ) (items : List StagedQueueItem) (item : StagedQueueItem)
    → existing_staged id items ≡ some item
    → has_row id items ≡ true
unfolding existing_staged has_row
existing_some-has_row id [] item e = cc
existing_some-has_row id (x ∷ xs) item e = ground (arith, e)

returned : (p q : Progress) → ◌≡◌ {A = Result PrepareError Progress} (ok p) (ok q) → p ≡ q
returned p q e = cc (e)

-- One round: nothing is added, because the contact has a row or the slots are used up; or one new
-- row is.
abbrev Step : Campaign → ℕ → List Contact → Contact → Progress → Progress → Type 0
Step campaign slots contacts contact p p' =
    ((p'.staged ≡ p.staged)
      × (p'.newly_staged_count ≡ p.newly_staged_count)
      × (p'.next_rendered_id ≡ p.next_rendered_id)
      × ((has_row contact.id p.staged ≡ true) ⊎ (slots ≤ p.newly_staged_count)))
    ⊎ ((row : StagedQueueItem) × IsNewRow campaign contacts row
        × (row.contact_id ≡ contact.id)
        × (has_row contact.id p.staged ≡ false)
        × (p.newly_staged_count < slots)
        × (p'.staged ≡ p.staged ++ row ∷ [])
        × (p'.newly_staged_count ≡ suc p.newly_staged_count)
        × (p'.next_rendered_id ≡ suc p.next_rendered_id))

module _ (campaign : Campaign) (slots : ℕ) (contacts : List Contact) where
  take_existing-Step :
      (contact : Contact) (p : Progress) (item : StagedQueueItem)
      → existing_staged contact.id p.staged ≡ some item
      → Step campaign slots contacts contact p (take_existing item p)
  unfolding take_existing
  take_existing-Step contact p item e =
      let present = existing_some-has_row contact.id p.staged item e in
      elim (Bool-cases (is_ready_item item)) [
        | inl t ↦ rw (take_existing, t) (inl (refl, refl, refl, inl present))
        | inr f ↦ rw (take_existing, f) (inl (refl, refl, refl, inl present))
      ]

  stage_payload-Step :
      (contact : Contact) (p p' : Progress) (o : Option QueuePayload)
      → build_staged_queue_payload campaign.id contact.id
          (some p.next_rendered_id)
          campaign.channel
          contact.phone
          contact.channel_handle
          (build_phase4_mock_final_text contact campaign)
        ≡ o
      → Mem contact contacts
      → existing_staged contact.id p.staged ≡ none
      → p.newly_staged_count < slots
      → 1 ≤ p.next_rendered_id
      → stage_payload campaign contact p o ≡ ok p'
      → Step campaign slots contacts contact p p'
  unfolding stage_payload add_row new_row
  stage_payload-Step contact p p' none built m free room rid e = cc (e)
  stage_payload-Step contact p p' (some payload) built m free room rid e =
      let row = new_row campaign contact p.next_id payload in
      subst (λ q. Step campaign slots contacts contact p q) (returned (add_row row p) p' e)
        (inr (
          row,
          record {
            contact = contact;
            listed = m;
            of_contact = refl;
            of_campaign = refl;
            same_channel = refl;
            is_ready = refl;
            rendered = p.next_rendered_id;
            rendered_positive = rid;
            payload = built;
          },
          refl,
          existing-has_row contact.id p.staged free,
          room,
          refl,
          omega arith,
          omega arith,
        ))

  stage_found-Step :
      (contact : Contact) (p p' : Progress) (o : Option StagedQueueItem)
      → existing_staged contact.id p.staged ≡ o
      → Mem contact contacts
      → 1 ≤ p.next_rendered_id
      → stage_found campaign slots contact p o ≡ ok p'
      → Step campaign slots contacts contact p p'
  unfolding stage_found stage_new
  stage_found-Step contact p p' (some item) found m rid e =
      subst (λ q. Step campaign slots contacts contact p q) (returned (take_existing item p) p' e)
        (take_existing-Step contact p item found)
  stage_found-Step contact p p' none free m rid e =
      let built =
        build_staged_queue_payload campaign.id contact.id (some p.next_rendered_id) campaign.channel
          contact.phone contact.channel_handle (build_phase4_mock_final_text contact campaign) in
      elim (if_cases (leb slots p.newly_staged_count) (ok p)
        (stage_payload campaign contact p built) e) [
          | inl (full, same) ↦
              subst (λ q. Step campaign slots contacts contact p q) (returned p p' same)
                (inl (refl, refl, refl, inr (ground (arith, full))))
          | inr (room, staged) ↦
              stage_payload-Step contact p p' built refl m free (ground (arith, room)) rid staged
        ]

  -- What the loop over some of the contacts makes of the rows.
  unfoldable pub Grown : List Contact → Progress → Progress → Type 0
  Grown rest p p' =
      (new : List StagedQueueItem) × (p'.staged ≡ p.staged ++ new)
      × (p'.newly_staged_count ≡ p.newly_staged_count + length new)
      × All (IsNewRow campaign contacts) new
      × (p'.newly_staged_count ≤ slots)
      × IsDistinct p'.staged
      × (((c : Contact) → Mem c rest → has_row c.id p'.staged ≡ true)
          ⊎ (p'.newly_staged_count ≡ slots))

  abbrev Whole : List Contact → Progress → Type 0
  Whole rest p' =
      ((c : Contact) → Mem c rest → has_row c.id p'.staged ≡ true) ⊎ (p'.newly_staged_count ≡ slots)

  also_first :
      (contact : Contact) (rest : List Contact) (p' : Progress)
      → has_row contact.id p'.staged ≡ true
      → Whole rest p'
      → Whole (contact ∷ rest) p'
  also_first contact rest p' here (inr full) = inr full
  also_first contact rest p' here (inl each) = inl (λ c m. elim m [
    | inl e ↦ subst (λ x. has_row x.id p'.staged ≡ true) (sym e) here
    | inr later ↦ each c later
  ])

  kept_row :
      (id : ℕ) (before new after : List StagedQueueItem)
      → after ≡ before ++ new
      → has_row id before ≡ true
      → has_row id after ≡ true
  kept_row id before new after e h = rw (e, has_row-append id before new, h) refl

  last_row :
      (row : StagedQueueItem) (before : List StagedQueueItem)
      → has_row row.contact_id (before ++ row ∷ []) ≡ true
  unfolding has_row
  last_row row before = has_row-append row.contact_id before (row ∷ []) ∙ ground arith

  after_none :
      (contact : Contact) (rest : List Contact) (p p1 p' : Progress)
      → p1.staged ≡ p.staged
      → p1.newly_staged_count ≡ p.newly_staged_count
      → (has_row contact.id p.staged ≡ true) ⊎ (slots ≤ p.newly_staged_count)
      → Grown rest p1 p'
      → Grown (contact ∷ rest) p p'
  unfolding Grown
  after_none contact rest p p1 p' same count why (new, grown, total, fresh, low, d, whole) = (
    new,
    rw⁻¹ same grown,
    rw⁻¹ count total,
    fresh,
    low,
    d,
    elim why [
      | inl present ↦
          also_first contact rest p'
            (kept_row contact.id p.staged new p'.staged (rw⁻¹ same grown) present) whole
      | inr full ↦ inr (omega (arith, full, count, total, low))
    ],
  )

  after_row :
      (contact : Contact) (rest : List Contact) (p p1 p' : Progress) (row : StagedQueueItem)
      → IsNewRow campaign contacts row
      → row.contact_id ≡ contact.id
      → p1.staged ≡ p.staged ++ row ∷ []
      → p1.newly_staged_count ≡ suc p.newly_staged_count
      → Grown rest p1 p'
      → Grown (contact ∷ rest) p p'
  unfolding Grown
  after_row contact rest p p1 p' row isnew own added count
        (new, grown, total, fresh, low, d, whole) =
      (
        row ∷ new,
        grown ∙ ap (λ l. l ++ new) added ∙ append_assoc p.staged (row ∷ []) new,
        omega (arith, total, count),
        (isnew, fresh),
        low,
        d,
        also_first contact rest p'
            (kept_row contact.id p1.staged new p'.staged grown
              (rw (added, sym own) (last_row row p.staged)))
            whole,
      )

  pub stage_contacts-Grown :
      (rest : List Contact) (p p' : Progress)
      → ((c : Contact) → Mem c rest → Mem c contacts)
      → 1 ≤ p.next_rendered_id
      → p.newly_staged_count ≤ slots
      → IsDistinct p.staged
      → stage_contacts campaign slots rest p ≡ ok p'
      → Grown rest p p'
  unfolding stage_contacts Grown
  stage_contacts-Grown [] p p' sub rid low d e =
      subst (λ q. Grown [] p q) (returned p p' e)
        ([], sym (append_nil p.staged), omega arith, tt, low, d, inl (λ c m. elim m [ ]))
  stage_contacts-Grown (contact ∷ rest) p p' sub rid low d e =
      let (p1, first, next) =
        bind_returned (stage_found campaign slots contact p (existing_staged contact.id p.staged))
          (stage_contacts campaign slots rest) e in
      let step =
        stage_found-Step contact p p1 (existing_staged contact.id p.staged) refl
          (sub contact (inl refl)) rid first in
      let onward = stage_contacts-Grown rest p1 p' (λ c m. sub c (inr m)) in
      elim step [
        | inl (same, count, ids, why) ↦
            after_none contact rest p p1 p' same count why
              (onward (rw ids rid) (rw count low) (rw same d) next)
        | inr (row, fresh, own, absent, room, added, count, ids) ↦
            after_row contact rest p p1 p' row fresh own added count (
              onward (rw ids (omega arith)) (rw count room)
                (rw added (IsDistinct-append p.staged row d (rw own absent))) next)
      ]
