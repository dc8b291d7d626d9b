-- ===== src/Validation/Accepting.antt =====
-- What an accepted payload is, and that the bridge's entries are accepted.
use senderplatformtest.Prelude.{
  ℕ, suc, ◌≤◌, ◌≡◌, ◌≢◌, refl, ap, ◌∙◌, subst, true, false, none, some, String, List, str_eq,
  eq_iff, ok, arith, Option-cases, inl, inr,
}
use senderplatformtest.Prelude.Text.{codes, text_eq, is_empty}
use senderplatformtest.Prelude.Sort.{contains}
use senderplatformtest.Payloads.{WorkerPayload}
use senderplatformtest.Validation.Blank.{
  lstrip_empty, str_eq-false, not_blank, not_blank-strip, blank_lem, lstrip_c,
}
use senderplatformtest.Validation.Retrying.{validate_worker_payload-ok}
use senderplatformtest.Baileys.{QueuePayload}
use senderplatformtest.Validation.{
  QueueItem, lstrip_string, strip_string, platform_text, is_given, or_text, recipient_of,
  fallback_message_id, message_id_of, message_text_of, made_dedupe_key, dedupe_key_of, attempt_of,
  has_required, or_zero, payload_of, is_blank, is_message_id, is_positive, is_acceptable,
  validate_worker_payload,
}

-- The entry that the bridge pushes: the keys of a staged payload, and the account.
unfoldable pub staged_item : QueuePayload → QueueItem
staged_item p = record {
  message_id = none;
  rendered_message_id = p.rendered_message_id;
  campaign_id = some p.campaign_id;
  contact_id = some p.contact_id;
  account_id = p.account_id;
  platform = none;
  channel = some p.channel;
  recipient = none;
  phone = some p.phone;
  channel_handle = p.channel_handle;
  recipient_type = none;
  message_text = none;
  final_text = some p.final_text;
  media_url = none;
  dedupe_key = none;
  attempt = none;
}

-- What holds of a payload that a worker accepts.
pub record IsAccepted (platform : String) (allowed : List ℕ) (item : QueueItem)
    (payload : WorkerPayload) : Type 0 where
  pub own_platform : payload.platform ≡ platform
  pub own_account : contains payload.account_id allowed ≡ true
  pub has_recipient : is_blank payload.recipient ≡ false
  pub has_text : is_blank payload.message_text ≡ false
  pub has_key : is_blank payload.dedupe_key ≡ false
  pub same_campaign : item.campaign_id ≡ some payload.campaign_id
  pub same_contact : item.contact_id ≡ some payload.contact_id

pub is_acceptable-fields :
    (platform : String) (allowed : List ℕ) (item : QueueItem)
    → is_acceptable platform allowed item ≡ true
    → (has_required item ≡ true)
      × (contains (or_zero item.account_id) allowed ≡ true)
      × (is_blank (recipient_of item) ≡ false)
      × (is_blank (message_text_of item) ≡ false)
      × (is_blank (dedupe_key_of item) ≡ false)
unfolding is_acceptable payload_of
is_acceptable-fields platform allowed item h = ground arith

pub positive_ids :
    (item : QueueItem)
    → has_required item ≡ true
    → (item.campaign_id ≡ some (or_zero item.campaign_id))
      × (item.contact_id ≡ some (or_zero item.contact_id))
unfolding has_required is_positive or_zero
positive_ids item h = ground arith

acceptable-IsAccepted :
    (platform : String) (allowed : List ℕ) (item : QueueItem)
    → is_acceptable platform allowed item ≡ true
    → IsAccepted platform allowed item (payload_of platform item)
unfolding payload_of
acceptable-IsAccepted platform allowed item h =
    let (required, account, recipient, message, key) =
      is_acceptable-fields platform allowed item h in
    let (campaign, contact) = positive_ids item required in
    record {
      own_platform = refl;
      own_account = account;
      has_recipient = recipient;
      has_text = message;
      has_key = key;
      same_campaign = campaign;
      same_contact = contact;
    }

-- An accepted payload is for the worker's platform and one of its accounts, its recipient, its text
-- and its dedupe key are not blank, and its campaign and contact are the entry's.
pub validate_worker_payload-IsAccepted :
    (platform : String) (allowed : List ℕ) (item : QueueItem) (payload : WorkerPayload)
    → validate_worker_payload platform allowed (some item) ≡ ok payload
    → IsAccepted platform allowed item payload
validate_worker_payload-IsAccepted platform allowed item payload h =
    let (accepted, same) = validate_worker_payload-ok platform allowed item payload h in
    subst (λ p. IsAccepted platform allowed item p) same
      (acceptable-IsAccepted platform allowed item accepted)

staged-message_id :
    (p : QueuePayload)
    → p.rendered_message_id ≢ some 0
    → is_message_id (message_id_of (staged_item p)) ≡ true
unfolding is_message_id message_id_of fallback_message_id staged_item
staged-message_id p h = elim (Option-cases p.rendered_message_id) [
  | inl e ↦ ground (arith, e)
  | inr (id, e) ↦ ground (arith, e, h)
]

staged-recipient :
    (p : QueuePayload)
    → platform_text (staged_item p) ≡ codes "whatsapp"
    → is_blank p.phone ≡ false
    → recipient_of (staged_item p) ≡ strip_string p.phone
unfolding recipient_of is_given or_text staged_item
staged-recipient p h k =
    let full : str_eq p.phone "" ≡ false =
      str_eq-false p.phone "" (λ e. blank_lem p.phone k (ap lstrip_string e ∙ lstrip_empty)) in
    rw (h, full) refl

staged-dedupe_key : (p : QueuePayload) → is_blank (dedupe_key_of (staged_item p)) ≡ false
unfolding dedupe_key_of made_dedupe_key or_text staged_item
staged-dedupe_key p = not_blank _ (lstrip_c _)

staged-message_text : (p : QueuePayload) → message_text_of (staged_item p) ≡ p.final_text
unfolding message_text_of or_text staged_item
staged-message_text p = ground (arith, eq_iff p.final_text "")

staged-ids :
    (p : QueuePayload) (account : ℕ) (allowed : List ℕ)
    → 1 ≤ p.campaign_id
    → 1 ≤ p.contact_id
    → p.account_id ≡ some (suc account)
    → contains (suc account) allowed ≡ true
    → let item = staged_item p in
      (is_positive item.campaign_id ≡ true)
      × (is_positive item.contact_id ≡ true)
      × (is_positive item.account_id ≡ true)
      × (contains (payload_of "whatsapp" item).account_id allowed ≡ true)
unfolding staged_item is_positive payload_of or_zero
staged-ids p account allowed c t e own = ground (arith, c, t, e, own)

pub filled : (s : String) → is_blank s ≡ false → str_eq s "" ≡ false
filled s h = str_eq-false s "" (λ e. blank_lem s h (ap lstrip_string e ∙ lstrip_empty))

staged-is_acceptable :
    (p : QueuePayload) (account : ℕ) (allowed : List ℕ)
    → platform_text (staged_item p) ≡ codes "whatsapp"
    → 1 ≤ p.campaign_id
    → 1 ≤ p.contact_id
    → p.rendered_message_id ≢ some 0
    → p.account_id ≡ some (suc account)
    → contains (suc account) allowed ≡ true
    → is_blank p.phone ≡ false
    → is_blank p.final_text ≡ false
    → is_acceptable "whatsapp" allowed (staged_item p) ≡ true
unfolding is_acceptable has_required
staged-is_acceptable p account allowed h c t m e own phone text =
    let (campaign, contact, sender, owned) = staged-ids p account allowed c t e own in
    let recipient : is_blank (recipient_of (staged_item p)) ≡ false =
      rw (staged-recipient p h phone) (not_blank-strip p.phone (blank_lem p.phone phone)) in
    let message : is_blank (message_text_of (staged_item p)) ≡ false =
      rw (staged-message_text p) text in
    let here : is_empty (platform_text (staged_item p)) ≡ false = rw h refl in
    let same : text_eq (platform_text (staged_item p)) (codes "whatsapp") ≡ true = rw h refl in
    ground (
      arith,
      staged-message_id p m,
      campaign,
      contact,
      sender,
      owned,
      recipient,
      message,
      here,
      same,
      staged-dedupe_key p,
      filled (recipient_of (staged_item p)) recipient,
      filled (message_text_of (staged_item p)) message,
      filled (dedupe_key_of (staged_item p)) (staged-dedupe_key p),
    )

staged-account :
    (p : QueuePayload) (account : ℕ)
    → p.account_id ≡ some (suc account)
    → (payload_of "whatsapp" (staged_item p)).account_id ≡ suc account
unfolding payload_of staged_item or_zero
staged-account p account e = ap or_zero e

staged-attempt : (p : QueuePayload) → (payload_of "whatsapp" (staged_item p)).attempt ≡ 1
unfolding payload_of staged_item attempt_of
staged-attempt p = refl

-- A staged payload that the bridge gave an account of the worker, with the channel whatsapp, ids that
-- are not 0, and a phone and a text that are not blank: the WhatsApp worker accepts the entry, as a
-- payload with the staged text, the stripped phone for recipient, that account and attempt 1.
pub staged_accepted :
    (p : QueuePayload) (account : ℕ) (allowed : List ℕ)
    → platform_text (staged_item p) ≡ codes "whatsapp"
    → 1 ≤ p.campaign_id
    → 1 ≤ p.contact_id
    → p.rendered_message_id ≢ some 0
    → p.account_id ≡ some (suc account)
    → contains (suc account) allowed ≡ true
    → is_blank p.phone ≡ false
    → is_blank p.final_text ≡ false
    → (payload : WorkerPayload) × (validate_worker_payload "whatsapp" allowed (some (staged_item p))
        ≡ ok payload)
      × (payload.recipient ≡ strip_string p.phone)
      × (payload.message_text ≡ p.final_text)
      × (payload.account_id ≡ suc account)
      × (payload.attempt ≡ 1)
unfolding validate_worker_payload payload_of
staged_accepted p account allowed h c t m e own phone text =
    let accepted = staged-is_acceptable p account allowed h c t m e own phone text in
    (
      payload_of "whatsapp" (staged_item p),
      rw accepted refl,
      staged-recipient p h phone,
      staged-message_text p,
      staged-account p account e,
      staged-attempt p,
    )
