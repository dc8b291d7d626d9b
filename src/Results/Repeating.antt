-- ===== src/Results/Repeating.antt =====
-- The reports about one rendered message, one after another.
use senderplatformtest.Prelude.{
  ℕ, ◌+◌, ◌≡◌, ◌≢◌, refl, ap, ◌∙◌, true, false, ◌&&◌, Option, none, some, List, [], ◌∷◌, ◌==◌,
  arith, Bool-cases, inl, inr, Result, ok, raise, str_eq, eq_iff,
}
use senderplatformtest.Payloads.{WorkerException, other_exception}
use senderplatformtest.Platform.{SendStatus, MessageAttemptStatus}
use senderplatformtest.Results.{
  CampaignRecipient, RenderedMessage, Db, Report, send_status_of, attempt_status_of, get_message,
  new_message, rm_key, has_key, find_or_create, has_recipient, mark, mark_first, message_part,
  update_recipient, recipient_part, attempt_part, update_message_attempt_result,
}

has_recipient-mark_first :
    (r : Report) (status : SendStatus) (message : Option ℕ) (campaign contact : ℕ)
    (l : List CampaignRecipient)
    → has_recipient campaign contact (mark_first r status message campaign contact l)
      ≡ has_recipient campaign contact l
unfolding has_recipient mark_first mark
has_recipient-mark_first r status message campaign contact [] = refl
has_recipient-mark_first r status message campaign contact (p ∷ l) =
    elim (Bool-cases (p.campaign_id == campaign && p.contact_id == contact)) [
      | inl hit ↦ rw (hit, hit) refl
      | inr miss ↦ rw (miss, miss) (has_recipient-mark_first r status message campaign contact l)
    ]

-- The state behind a first report that made a message.
abbrev made : Report → RenderedMessage → SendStatus → ℕ → ℕ → ℕ → Db → Db
made r m status id campaign contact db = record db {
  messages = new_message r m (rm_key id campaign contact) db ∷ db.messages;
  next_message_id = db.next_message_id + 1;
  recipients = mark_first r status (some db.next_message_id) campaign contact db.recipients;
}

no_attempt :
    (r : Report) (o : Option MessageAttemptStatus) (id : ℕ) (db : Db)
    → get_message id db.messages ≡ none
    → attempt_part r o (some id) db ≡ db
unfolding attempt_part
no_attempt r none id db absent = refl
no_attempt r (some status) id db absent = rw (attempt_part, absent) refl

made-get_message :
    (r : Report) (m : RenderedMessage) (status : SendStatus) (id campaign contact : ℕ) (db : Db)
    → get_message id db.messages ≡ none
    → db.next_message_id ≢ id
    → get_message id (made r m status id campaign contact db).messages ≡ none
unfolding get_message new_message
made-get_message r m status id campaign contact db absent other = ground arith

made-has_key :
    (r : Report) (m : RenderedMessage) (status : SendStatus) (id campaign contact : ℕ) (db : Db)
    → has_key (rm_key id campaign contact) (made r m status id campaign contact db).messages ≡ true
unfolding has_key new_message
made-has_key r m status id campaign contact db =
    let key = rm_key id campaign contact in
    let same : str_eq key key ≡ true = ground (arith, eq_iff key key) in rw same refl

module _ (id campaign contact : ℕ) (m : RenderedMessage) (db : Db) where
  module _ (r : Report) (status : SendStatus) where
    free_update :
        r.message_id ≡ some id
        → get_message id db.messages ≡ none
        → db.rendered id ≡ some m
        → has_recipient campaign contact db.recipients ≡ true
        → has_key (rm_key id campaign contact) db.messages ≡ false
        → update_recipient r status campaign contact db
          ≡ ok (made r m status id campaign contact db)
    unfolding update_recipient message_part find_or_create
    free_update e absent source found free =
        let part : message_part r r.message_id campaign contact db
            ≡ ok (
              some db.next_message_id,
              record db {
                messages = new_message r m (rm_key id campaign contact) db ∷ db.messages;
                next_message_id = db.next_message_id + 1;
              },
            ) =
          ap (λ o. message_part r o campaign contact db) e
          ∙ rw (find_or_create, absent, source, free) refl in
        rw (update_recipient, found, part) refl

    taken_update :
        r.message_id ≡ some id
        → get_message id db.messages ≡ none
        → db.rendered id ≡ some m
        → has_recipient campaign contact db.recipients ≡ true
        → has_key (rm_key id campaign contact) db.messages ≡ true
        → update_recipient r status campaign contact db ≡ raise other_exception
    unfolding update_recipient message_part find_or_create
    taken_update e absent source found taken =
        let part : message_part r r.message_id campaign contact db ≡ raise other_exception =
          ap (λ o. message_part r o campaign contact db) e
          ∙ rw (find_or_create, absent, source, taken) refl in
        rw (update_recipient, found, part) refl

    reached :
        send_status_of r.status r.success ≡ some status
        → r.campaign_id ≡ some campaign
        → r.contact_id ≡ some contact
        → recipient_part r (send_status_of r.status r.success) r.campaign_id r.contact_id db
          ≡ update_recipient r status campaign contact db
    unfolding recipient_part
    reached s c t = rw (s, c, t) refl

    -- The key of a rendered message is taken: the report is not saved.
    pub taken_report :
        send_status_of r.status r.success ≡ some status
        → r.message_id ≡ some id
        → r.campaign_id ≡ some campaign
        → r.contact_id ≡ some contact
        → get_message id db.messages ≡ none
        → db.rendered id ≡ some m
        → has_recipient campaign contact db.recipients ≡ true
        → has_key (rm_key id campaign contact) db.messages ≡ true
        → update_message_attempt_result r db ≡ raise other_exception
    unfolding update_message_attempt_result
    taken_report s e c t absent source found taken =
        rw (update_message_attempt_result, reached s c t, taken_update e absent source found taken)
          refl

    first_report :
        send_status_of r.status r.success ≡ some status
        → r.message_id ≡ some id
        → r.campaign_id ≡ some campaign
        → r.contact_id ≡ some contact
        → get_message id db.messages ≡ none
        → db.next_message_id ≢ id
        → db.rendered id ≡ some m
        → has_recipient campaign contact db.recipients ≡ true
        → has_key (rm_key id campaign contact) db.messages ≡ false
        → update_message_attempt_result r db ≡ ok (made r m status id campaign contact db)
    unfolding update_message_attempt_result
    first_report s e c t absent other source found free =
        let now = made r m status id campaign contact db in
        rw (update_message_attempt_result, reached s c t, free_update e absent source found free)
          (ap {A = Db} {B = Result WorkerException Db} ok (
            ap (λ o. attempt_part r (attempt_status_of r.status r.success) o now) e
            ∙ no_attempt r (attempt_status_of r.status r.success) id now
                (made-get_message r m status id campaign contact db absent other)))

-- Two reports about one rendered message, each with a status that is known, for one recipient of a
-- campaign. No row of `messages` has the rendered id or the key of the rendered message, and the next
-- new row does not get that id either. The first report is saved, but its attempt is not recorded:
-- the attempts are as before. The second one raises, since the first made a message with the unique
-- key that the second makes again.
pub second_report_raises :
    (r r' : Report) (status status' : SendStatus) (id campaign contact : ℕ) (m : RenderedMessage)
    (db : Db)
    → send_status_of r.status r.success ≡ some status
    → send_status_of r'.status r'.success ≡ some status'
    → (r.message_id ≡ some id) × (r'.message_id ≡ some id)
    → (r.campaign_id ≡ some campaign) × (r'.campaign_id ≡ some campaign)
    → (r.contact_id ≡ some contact) × (r'.contact_id ≡ some contact)
    → get_message id db.messages ≡ none
    → db.next_message_id ≢ id
    → db.rendered id ≡ some m
    → has_recipient campaign contact db.recipients ≡ true
    → has_key (rm_key id campaign contact) db.messages ≡ false
    → (db' : Db) × (update_message_attempt_result r db ≡ ok db')
      × (db'.attempts ≡ db.attempts)
      × (update_message_attempt_result r' db' ≡ raise other_exception)
second_report_raises r r' status status' id campaign contact m db s s' (e, e') (c, c') (t, t')
      absent other source found free =
    let now = made r m status id campaign contact db in
    (
      now,
      first_report id campaign contact m db r status s e c t absent other source found free,
      refl,
      taken_report id campaign contact m now r' status' s' e' c' t'
          (made-get_message r m status id campaign contact db absent other) source
          (has_recipient-mark_first r status (some db.next_message_id) campaign contact
              db.recipients
            ∙ found)
          (made-has_key r m status id campaign contact db),
    )
