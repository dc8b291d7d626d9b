-- ===== src/Staging/Accepting.antt =====
-- A row that was staged, on its way over the bridge to a worker.
use senderplatformtest.Prelude.{
  ℕ, suc, ◌≤◌, ◌≡◌, ◌≢◌, refl, sym, ap, ◌∙◌, subst, true, false, Option, none, some, String, List,
  arith, Option-cases, if_cases, Bool-cases, inl, inr, ok,
}
use Prim.Native.Char.{Char, code}
use senderplatformtest.Prelude.Text.{codes, is_space, lower, strip, text_eq}
use senderplatformtest.Prelude.Sort.{contains}
use senderplatformtest.Platform.{PlatformType, platform_of}
use senderplatformtest.Baileys.{QueuePayload}
use senderplatformtest.Payloads.{WorkerPayload}
use senderplatformtest.Validation.{
  lstrip_string, is_blank, platform_text, or_text, strip_string, validate_worker_payload,
}
use senderplatformtest.Validation.Blank.{not_blank}
use senderplatformtest.Validation.Accepting.{staged_item, staged_accepted}
use senderplatformtest.QueueBridge.{StagedQueueItem}
use senderplatformtest.Phase4.{
  plus, Channel, whatsapp, telegram, rubika, bale, channel_name, validate_campaign_channel,
  normalize_phone, build_staged_queue_payload,
}
use senderplatformtest.Phase4.Phones.{normalize_phone-is_blank}
use senderplatformtest.Staging.{Contact, Campaign, build_phase4_mock_final_text, dear}
use senderplatformtest.Staging.Looping.{IsNewRow}

cons_nonempty : (c : Char) (s : String) → String.◌∷◌ c s ≢ ""
cons_nonempty c s e = cc (e)

lstrip_plus-nonempty : (a b : String) → lstrip_string b ≢ "" → lstrip_string (plus a b) ≢ ""
unfolding plus lstrip_string
lstrip_plus-nonempty String.[] b h = h
lstrip_plus-nonempty (String.◌∷◌ c a) b h = elim (Bool-cases (is_space (code c))) [
  | inl t ↦ rw t (lstrip_plus-nonempty a b h)
  | inr f ↦ rw f (cons_nonempty c (plus a b))
]

lstrip_dear-nonempty : (s : String) → lstrip_string (plus dear s) ≢ ""
unfolding plus lstrip_string dear
lstrip_dear-nonempty s e = cc (e)

-- The mock text is not blank, whatever the contact and the goal are.
mock_text-is_blank :
    (contact : Contact) (campaign : Campaign)
    → is_blank (build_phase4_mock_final_text contact campaign) ≡ false
unfolding build_phase4_mock_final_text
mock_text-is_blank contact campaign =
    not_blank _ (lstrip_plus-nonempty _ _ (lstrip_dear-nonempty _))

given : (a b : QueuePayload) → some a ≡ some b → a ≡ b
given a b e = cc (e)

number_given : (a b : ℕ) → some a ≡ some b → a ≡ b
number_given a b e = cc (e)

positive_id : (n : ℕ) {o : Option ℕ} → 1 ≤ n → some n ≡ o → o ≢ some 0
positive_id n positive e zero_id =
    let same : n ≡ 0 = number_given n 0 (e ∙ zero_id) in omega (arith, positive, same)

name_whatsapp : channel_name whatsapp ≡ "whatsapp"
unfolding channel_name
name_whatsapp = refl

-- What a payload that could be built says.
build-fields :
    (campaign_id contact_id : ℕ) (rendered : Option ℕ) (channel phone : String)
    (handle : Option String) (final_text : String) (ch : Channel) (q : QueuePayload)
    → validate_campaign_channel channel ≡ some ch
    → build_staged_queue_payload campaign_id contact_id rendered channel phone handle final_text
      ≡ some q
    → (q.channel ≡ channel_name ch)
      × (normalize_phone phone ≡ some q.phone)
      × (q.campaign_id ≡ campaign_id)
      × (q.contact_id ≡ contact_id)
      × (q.rendered_message_id ≡ rendered)
      × (q.final_text ≡ final_text)
unfolding build_staged_queue_payload
build-fields campaign_id contact_id rendered channel phone handle final_text ch q valid e =
    elim (Option-cases (normalize_phone phone)) [
      | inl bad ↦
          let refused : build_staged_queue_payload campaign_id contact_id rendered channel phone
                handle final_text
              ≡ none =
            rw (build_staged_queue_payload, valid, bad) in
          cc (sym refused ∙ e)
      | inr (normalized, good) ↦
          let made : QueuePayload = record {
            campaign_id = campaign_id;
            contact_id = contact_id;
            rendered_message_id = rendered;
            channel = channel_name ch;
            phone = normalized;
            channel_handle = handle;
            final_text = final_text;
            account_id = none;
          } in
          let built : build_staged_queue_payload campaign_id contact_id rendered channel phone
                handle final_text
              ≡ some made =
            rw (build_staged_queue_payload, valid, good) in
          subst
            (λ x.
              (x.channel ≡ channel_name ch)
              × (normalize_phone phone ≡ some x.phone)
              × (x.campaign_id ≡ campaign_id)
              × (x.contact_id ≡ contact_id)
              × (x.rendered_message_id ≡ rendered)
              × (x.final_text ≡ final_text))
            (given made q (sym built ∙ e)) (refl, good, refl, refl, refl, refl)
    ]

-- The bridge finds the platform of a channel that was let through.
platform_of-whatsapp :
    (channel : String)
    → validate_campaign_channel channel ≡ some whatsapp
    → platform_of channel ≡ some PlatformType.whatsapp
unfolding validate_campaign_channel platform_of
platform_of-whatsapp channel valid =
    let normalized = lower (strip (codes channel)) in
    elim (if_cases (is_blank channel) none _ valid) [
      | inl (_, refused) ↦ cc (refused)
      | inr (_, e1) ↦ elim (if_cases (text_eq normalized (codes "whatsapp")) (some whatsapp) _ e1) [
        | inl (t, _) ↦ rw t refl
        | inr (_, e2) ↦
            elim (if_cases (text_eq normalized (codes "telegram")) (some telegram) _ e2) [
              | inl (_, other) ↦ cc (other)
              | inr (_, e3) ↦
                  elim (if_cases (text_eq normalized (codes "rubika")) (some rubika) _ e3) [
                    | inl (_, other) ↦ cc (other)
                    | inr (_, e4) ↦
                        elim (if_cases (text_eq normalized (codes "bale")) (some bale) none e4) [
                          | inl (_, other) ↦ cc (other)
                          | inr (_, other) ↦ cc (other)
                        ]
                  ]
            ]
      ]
    ]

platform_text-whatsapp :
    (p : QueuePayload) → p.channel ≡ "whatsapp" → platform_text (staged_item p) ≡ codes "whatsapp"
unfolding platform_text staged_item or_text
platform_text-whatsapp p e = rw e refl

-- From staging to the worker. A row that `prepare_campaign_messages` has made for a WhatsApp
-- campaign, with ids that are not 0, is known to the bridge as one for WhatsApp; and once the bridge
-- has put an account of the worker into its payload, the worker accepts the entry, with the mock
-- text, the normalised phone of the contact for recipient, that account and attempt 1.
pub staged_row_accepted :
    (campaign : Campaign) (contacts : List Contact) (item : StagedQueueItem) (account : ℕ)
    (allowed : List ℕ)
    → (row : IsNewRow campaign contacts item)
    → validate_campaign_channel campaign.channel ≡ some whatsapp
    → 1 ≤ campaign.id
    → 1 ≤ item.contact_id
    → contains (suc account) allowed ≡ true
    → (platform_of item.channel ≡ some PlatformType.whatsapp)
      × ((payload : WorkerPayload) × (validate_worker_payload "whatsapp" allowed
              (some (staged_item (record item.queue_payload { account_id = some (suc account) })))
            ≡ ok payload)
          × (normalize_phone row.contact.phone ≡ some item.queue_payload.phone)
          × (payload.recipient ≡ strip_string item.queue_payload.phone)
          × (payload.message_text ≡ build_phase4_mock_final_text row.contact campaign)
          × (payload.account_id ≡ suc account)
          × (payload.attempt ≡ 1))
staged_row_accepted campaign contacts item account allowed row valid positive contact own =
    let text = build_phase4_mock_final_text row.contact campaign in
    let (channel, phone, of_campaign, of_contact, rendered, final) =
      build-fields campaign.id row.contact.id (some row.rendered) campaign.channel row.contact.phone
        row.contact.channel_handle text whatsapp item.queue_payload valid row.payload in
    let p = record item.queue_payload { account_id = some (suc account) } in
    let (payload, accepted, recipient, message, account', attempt) =
      staged_accepted p account allowed (platform_text-whatsapp p (channel ∙ name_whatsapp))
        (rw of_campaign positive) (rw (of_contact, sym row.of_contact) contact)
        (positive_id row.rendered row.rendered_positive (sym rendered)) refl own
        (normalize_phone-is_blank row.contact.phone p.phone phone)
        (rw final (mock_text-is_blank row.contact campaign)) in
    (
      ap platform_of row.same_channel ∙ platform_of-whatsapp campaign.channel valid,
      (payload, accepted, phone, recipient, message ∙ final, account', attempt),
    )
