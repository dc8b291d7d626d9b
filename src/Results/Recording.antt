-- ===== src/Results/Recording.antt =====
-- What a report changes in the database.
use senderplatformtest.Prelude.{
  ℕ, ◌≡◌, ◌⊎◌, refl, sym, Bool, true, false, ◌&&◌, Option, none, some, List, [], ◌∷◌, ◌==◌, subst,
  arith, Bool-cases, inl, inr, Option-cases, Result, ok, raise, Result-cases, String,
}
use senderplatformtest.Payloads.{WorkerException}
use senderplatformtest.Platform.{SendStatus, MessageAttemptStatus}
use senderplatformtest.Results.{
  CampaignRecipient, Message, RenderedMessage, Db, Report, send_status_of, attempt_status_of,
  get_message, new_message, rm_key, has_key, find_or_create, given, is_received, has_recipient,
  mark, mark_first, message_part, update_recipient, recipient_part, attempt_part,
  update_message_attempt_result,
}

-- A recipient that a campaign and a contact name.
abbrev names : ℕ → ℕ → CampaignRecipient → Bool
names campaign contact p = p.campaign_id == campaign && p.contact_id == contact

-- The reason that a recipient has after a report: the report's own, or none for a message that was
-- received, or else the one that it had.
abbrev ReasonAfter : Report → SendStatus → Option String → Option String → Type 0
ReasonAfter r status before after =
    ((given r.failure_reason ≡ true) × (after ≡ r.failure_reason))
    ⊎ ((given r.failure_reason ≡ false) × (is_received status ≡ true) × (after ≡ none))
    ⊎ ((given r.failure_reason ≡ false) × (is_received status ≡ false) × (after ≡ before))

-- A recipient before and after a report: it has the report's status and the reason above, and its
-- message is one of the table, or the one that it had.
pub record IsMarked (r : Report) (status : SendStatus) (messages : List Message)
    (p p' : CampaignRecipient) : Type 0 where
  pub same_campaign : p'.campaign_id ≡ p.campaign_id
  pub same_contact : p'.contact_id ≡ p.contact_id
  pub marked : p'.send_status ≡ status
  pub reason : ReasonAfter r status p.failure_reason p'.failure_reason
  pub message :
      ((id : ℕ) × (m : Message) × (p'.final_message_id ≡ some id)
        × (get_message id messages ≡ some m))
      ⊎ (p'.final_message_id ≡ p.final_message_id)

-- The list with its first recipient for the campaign and the contact changed, and nothing else.
pub data FirstReplaced (R : CampaignRecipient → CampaignRecipient → Type 0) (campaign contact : ℕ)
    : List CampaignRecipient → List CampaignRecipient → Type 0 where
  here :
      {p q : CampaignRecipient} {l : List CampaignRecipient}
      → names campaign contact p ≡ true
      → R p q
      → FirstReplaced R campaign contact (p ∷ l) (q ∷ l)
  later :
      {p : CampaignRecipient} {l m : List CampaignRecipient}
      → names campaign contact p ≡ false
      → FirstReplaced R campaign contact l m
      → FirstReplaced R campaign contact (p ∷ l) (p ∷ m)

-- The message is in the table, where there is one.
abbrev IsMessage : List Message → Option ℕ → Type 0
IsMessage messages none = Unit
IsMessage messages (some id) = (m : Message) × (get_message id messages ≡ some m)

marked_message :
    (r : Report) (status : SendStatus) (messages : List Message) (message : Option ℕ)
    (p : CampaignRecipient)
    → IsMessage messages message
    → let p' = mark r status message p in
      ((id : ℕ) × (m : Message) × (p'.final_message_id ≡ some id)
        × (get_message id messages ≡ some m))
      ⊎ (p'.final_message_id ≡ p.final_message_id)
unfolding mark
marked_message r status messages none p there = inr refl
marked_message r status messages (some id) p (m, e) = inl (id, m, refl, e)

mark-IsMarked :
    (r : Report) (status : SendStatus) (messages : List Message) (message : Option ℕ)
    (p : CampaignRecipient)
    → IsMessage messages message
    → IsMarked r status messages p (mark r status message p)
unfolding mark
mark-IsMarked r status messages message p there = record {
  same_campaign = refl;
  same_contact = refl;
  marked = refl;
  reason = elim (Bool-cases (given r.failure_reason)) [
    | inl g ↦ inl (g, rw g refl)
    | inr n ↦ inr (elim (Bool-cases (is_received status)) [
      | inl d ↦ inl (n, d, rw (n, d) refl)
      | inr u ↦ inr (n, u, rw (n, u) refl)
    ])
  ];
  message = marked_message r status messages message p there;
}

mark_first-FirstReplaced :
    (r : Report) (status : SendStatus) (messages : List Message) (message : Option ℕ)
    (campaign contact : ℕ)
    → IsMessage messages message
    → (l : List CampaignRecipient) → has_recipient campaign contact l ≡ true
    → FirstReplaced
        (IsMarked r status messages)
        campaign
        contact
        l
        (mark_first r status message campaign contact l)
unfolding has_recipient mark_first
mark_first-FirstReplaced r status messages message campaign contact there [] h = ground arith
mark_first-FirstReplaced r status messages message campaign contact there (p ∷ l) h =
    elim (Bool-cases (names campaign contact p)) [
      | inl hit ↦ rw hit (here hit (mark-IsMarked r status messages message p there))
      | inr miss ↦ rw miss (
          later miss (
            mark_first-FirstReplaced r status messages message campaign contact there l
              (ground arith)))
    ]

get_message-id : (id : ℕ) (l : List Message) (m : Message) → get_message id l ≡ some m → m.id ≡ id
unfolding get_message
get_message-id id [] m e = cc
get_message-id id (x ∷ l) m e = elim (Bool-cases (x.id == id)) [
  | inl hit ↦ ground (arith, e, hit)
  | inr miss ↦ get_message-id id l m (ground (arith, e, miss))
]

-- The rendered message of the report is to be made into a message, and its key is taken.
abbrev pub IsTaken : Option ℕ → ℕ → ℕ → Db → Type 0
IsTaken none campaign contact db = ⊥
IsTaken (some id) campaign contact db =
    (get_message id db.messages ≡ none)
    × ((m : RenderedMessage) × (db.rendered id ≡ some m))
    × (has_key (rm_key id campaign contact) db.messages ≡ true)

-- What the part of the message leaves: the same recipients and attempts, and a message of the table.
abbrev Kept : Option ℕ → ℕ → ℕ → Db → Result WorkerException (Option ℕ × Db) → Type 0
Kept o campaign contact db (raise e) = IsTaken o campaign contact db
Kept o campaign contact db (ok (message, db')) =
    (db'.recipients ≡ db.recipients) × (db'.attempts ≡ db.attempts) × IsMessage db'.messages message

find_or_create-Kept :
    (r : Report) (id campaign contact : ℕ) (db : Db)
    → Kept (some id) campaign contact db (find_or_create r id campaign contact db)
unfolding find_or_create get_message new_message
find_or_create-Kept r id campaign contact db = elim (Option-cases (get_message id db.messages)) [
  | inr (m, e) ↦
      let found : get_message m.id db.messages ≡ some m =
        subst (λ i. get_message i db.messages ≡ some m) (sym (get_message-id id db.messages m e))
          e in
      rw (find_or_create, e) (refl, refl, (m, found))
  | inl e ↦ elim (Option-cases (db.rendered id)) [
    | inl e' ↦ rw (find_or_create, e, e') (refl, refl, tt)
    | inr (m, e') ↦ elim (Bool-cases (has_key (rm_key id campaign contact) db.messages)) [
      | inl taken ↦ rw (find_or_create, e, e', taken) (e, (m, e'), taken)
      | inr free ↦
          rw (find_or_create, e, e', free)
            (refl, refl, (new_message r m (rm_key id campaign contact) db, ground arith))
    ]
  ]
]

message_part-Kept :
    (r : Report) (o : Option ℕ) (campaign contact : ℕ) (db : Db)
    → Kept o campaign contact db (message_part r o campaign contact db)
unfolding message_part
message_part-Kept r none campaign contact db = (refl, refl, tt)
message_part-Kept r (some id) campaign contact db = find_or_create-Kept r id campaign contact db

-- How a report ends that names a recipient of the campaign.
abbrev pub Recorded : Report → SendStatus → ℕ → ℕ → Db → Result WorkerException Db → Type 0
Recorded r status campaign contact db (raise e) = IsTaken r.message_id campaign contact db
Recorded r status campaign contact db (ok db') =
    FirstReplaced (IsMarked r status db'.messages) campaign contact db.recipients db'.recipients

update_recipient-Recorded :
    (r : Report) (status : SendStatus) (campaign contact : ℕ) (db : Db)
    → has_recipient campaign contact db.recipients ≡ true
    → Recorded r status campaign contact db (update_recipient r status campaign contact db)
unfolding update_recipient
update_recipient-Recorded r status campaign contact db found =
    let kept = message_part-Kept r r.message_id campaign contact db in
    elim (Result-cases (message_part r r.message_id campaign contact db)) [
      | inr (e, lost) ↦
          rw (update_recipient, found, lost)
            (subst (λ out. Kept r.message_id campaign contact db out) lost kept)
      | inl ((message, db'), saved) ↦
          let (same, attempts, there) =
            subst (λ out. Kept r.message_id campaign contact db out) saved kept in
          rw (update_recipient, found, saved, same)
            (mark_first-FirstReplaced r status db'.messages message campaign contact there
              db.recipients found)
    ]

attempt_part-keeps :
    (r : Report) (o : Option MessageAttemptStatus) (p : Option ℕ) (db : Db)
    → ((attempt_part r o p db).recipients ≡ db.recipients)
      × ((attempt_part r o p db).messages ≡ db.messages)
unfolding attempt_part
attempt_part-keeps r o p db = (ground arith, ground arith)

-- A report whose status is known and that names a recipient of the campaign ends in one of two ways.
-- It raises, and then its rendered message was to be made into a message and the unique key of that
-- message was taken. Or it is saved: the first recipient that the ids name, and no other, has the
-- report's send status, the report's reason or none where the message was received, and a message of
-- the table or the one that it had; every other recipient stays as it is, in its place.
pub update_message_attempt_result-recipient :
    (r : Report) (db : Db) (status : SendStatus) (campaign contact : ℕ)
    → send_status_of r.status r.success ≡ some status
    → r.campaign_id ≡ some campaign
    → r.contact_id ≡ some contact
    → has_recipient campaign contact db.recipients ≡ true
    → Recorded r status campaign contact db (update_message_attempt_result r db)
unfolding recipient_part update_message_attempt_result
update_message_attempt_result-recipient r db status campaign contact s c t found =
    let reached : recipient_part r (send_status_of r.status r.success) r.campaign_id r.contact_id db
        ≡ update_recipient r status campaign contact db =
      rw (s, c, t) refl in
    let recorded = update_recipient-Recorded r status campaign contact db found in
    elim (Result-cases (update_recipient r status campaign contact db)) [
      | inr (e, lost) ↦
          rw (update_message_attempt_result, reached, lost)
            (subst (λ out. Recorded r status campaign contact db out) lost recorded)
      | inl (db', saved) ↦
          let (recipients, messages) =
            attempt_part-keeps r (attempt_status_of r.status r.success) r.message_id db' in
          rw (update_message_attempt_result, reached, saved, recipients, messages)
            (subst (λ out. Recorded r status campaign contact db out) saved recorded)
    ]
