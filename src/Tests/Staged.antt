-- ===== src/Tests/Staged.antt =====
-- Phone numbers and staging.
use senderplatformtest.Prelude.{
  ◌≡◌, ◌⊎◌, ◌≤◌, refl, true, false, none, some, List, [], ◌∷◌, ok, max, arith, inl, inr,
}
use senderplatformtest.Platform.{CampaignStatus, PlatformType, ready, platform_of}
use senderplatformtest.Baileys.{QueuePayload}
use senderplatformtest.Payloads.{WorkerPayload}
use senderplatformtest.Validation.{
  validate_worker_payload, strip_string, lstrip_string, reverse_onto, is_blank,
}
use senderplatformtest.Validation.Accepting.{staged_item}
use senderplatformtest.QueueBridge.{StagedQueueItem}
use senderplatformtest.Phase4.{
  plus, normalize_phone, normalize_text, without_separators, normalize_persian_digits,
  filter_string, digits_of, drop_string, is_kept, string_starts_with, validate_campaign_channel,
  channel_name, normalize_consent_status, legacy_consent_map, build_staged_queue_payload,
  looks_like_iranian_mobile_with_leading_zero,
}
use senderplatformtest.Phase4.Phones.{normalize_phone-forms, normalize_phone-shape, IsE164}
use senderplatformtest.Staging.{
  Contact, Campaign, Request, build_phase4_mock_final_text, allowed_contacts_list, keep_allowed,
  is_allowed, existing_staged, dict_values, ready_count, compute_effective_limit, at_most,
}
use senderplatformtest.Staging.Preparing.{
  Prepared, start, add_row, new_row, finish_prepare, prepare_campaign_messages, prepare_allowed,
  stage_contacts, stage_found, stage_new, stage_payload, committed,
}
use senderplatformtest.Staging.Looping.{IsNewRow}
use senderplatformtest.Staging.Limiting.{
  IsPrepared, prepare_campaign_messages-IsPrepared, prepare-ready_count,
}
use senderplatformtest.Staging.Accepting.{staged_row_accepted}

normalize_phone-forms_example :
    (normalize_phone (plus "+989" "121234567") ≡ some (plus "+989" "121234567"))
    × (normalize_phone (plus "00989" "121234567") ≡ some (plus "+989" "121234567"))
    × (normalize_phone (plus "989" "121234567") ≡ some (plus "+989" "121234567"))
    × (normalize_phone (plus "09" "121234567") ≡ some (plus "+989" "121234567"))
    × ((string_starts_with "8" "121234567" ≡ true)
        ⊎ (normalize_phone (plus "9" "121234567") ≡ some (plus "+989" "121234567")))
normalize_phone-forms_example = normalize_phone-forms "121234567" refl refl

-- A letter after 0098 stays in the number.
letters : normalize_phone "0098-912abc" ≡ some "+98912abc"
unfolding normalize_phone normalize_text without_separators normalize_persian_digits filter_string
    digits_of drop_string is_kept string_starts_with plus strip_string lstrip_string reverse_onto
    is_blank
letters = refl

abbrev contact : Contact
contact = record {
  id = 5;
  first_name = some "Sara";
  last_name = none;
  full_name = none;
  phone = "0912 123 4567";
  channel_handle = none;
  consent_status = "opted_in";
}

-- The second contact has not agreed.
abbrev contacts : List Contact
contacts = contact ∷ record contact { id = 6; consent_status = "unknown" } ∷ []

abbrev campaign : Campaign
campaign = record {
  id = 3;
  channel = "WhatsApp";
  message_goal = none;
  status = CampaignStatus.draft;
  include_products = false;
  daily_limit = some 10;
  max_contacts = none;
}

abbrev request : Request
request = record { force_mock_output = true; limit = none }

abbrev staged_payload : QueuePayload
staged_payload = record {
  campaign_id = 3;
  contact_id = 5;
  rendered_message_id = some 1;
  channel = "whatsapp";
  phone = "+989121234567";
  channel_handle = none;
  final_text = build_phase4_mock_final_text contact campaign;
  account_id = none;
}

abbrev row : StagedQueueItem
row = record {
  id = 1;
  campaign_id = 3;
  contact_id = 5;
  channel = "WhatsApp";
  status = ready;
  skip_reason = none;
  queue_payload = staged_payload;
}

abbrev out : Prepared
out = finish_prepare campaign contacts 1 1 0 (add_row row (start [] 1 1))

payload_built :
    build_staged_queue_payload 3 5
      (some 1)
      "WhatsApp"
      "0912 123 4567"
      none
      (build_phase4_mock_final_text contact campaign)
    ≡ some staged_payload
unfolding build_staged_queue_payload validate_campaign_channel channel_name normalize_phone
    normalize_text without_separators normalize_persian_digits filter_string digits_of drop_string
    is_kept string_starts_with plus strip_string lstrip_string reverse_onto is_blank
    looks_like_iranian_mobile_with_leading_zero
payload_built = refl

prepared_out : prepare_campaign_messages true true request (some campaign) contacts [] 1 1 ≡ ok out
unfolding prepare_campaign_messages prepare_allowed allowed_contacts_list keep_allowed is_allowed
    normalize_consent_status legacy_consent_map existing_staged stage_contacts stage_found stage_new
    stage_payload new_row committed ready_count dict_values compute_effective_limit at_most start
    is_blank strip_string lstrip_string reverse_onto
prepared_out = rw payload_built refl

prepare_campaign_messages-IsPrepared_example :
    (c : Campaign) × (some campaign ≡ some c) × IsPrepared request c contacts [] out
prepare_campaign_messages-IsPrepared_example =
    prepare_campaign_messages-IsPrepared true true request (some campaign) contacts [] 1 1 out
      (omega arith) tt prepared_out

prepare-ready_count_example : ready_count out.staged ≤ max 10 (ready_count [])
prepare-ready_count_example =
    prepare-ready_count true true request campaign contacts [] 1 1 out 10 (omega arith) tt
      (inr (inl refl)) prepared_out

abbrev new : IsNewRow campaign contacts row
new = record {
  contact = contact;
  listed = inl refl;
  of_contact = refl;
  of_campaign = refl;
  same_channel = refl;
  is_ready = refl;
  rendered = 1;
  rendered_positive = omega arith;
  payload = payload_built;
}

staged_row_accepted_example :
    (platform_of row.channel ≡ some PlatformType.whatsapp)
    × ((payload : WorkerPayload) × (validate_worker_payload "whatsapp"
            (1 ∷ 2 ∷ [])
            (some (staged_item (record row.queue_payload { account_id = some 2 })))
          ≡ ok payload)
        × (normalize_phone new.contact.phone ≡ some row.queue_payload.phone)
        × (payload.recipient ≡ strip_string row.queue_payload.phone)
        × (payload.message_text ≡ build_phase4_mock_final_text new.contact campaign)
        × (payload.account_id ≡ 2)
        × (payload.attempt ≡ 1))
unfolding validate_campaign_channel is_blank strip_string lstrip_string reverse_onto
staged_row_accepted_example =
    staged_row_accepted campaign contacts row 1 (1 ∷ 2 ∷ []) new refl (omega arith) (omega arith)
      refl

normalize_phone-shape_example :
    ((string_starts_with "0098" (without_separators "0098-912abc") ≡ true)
      × ("+98912abc" ≡ plus "+98" (drop_string 4 (without_separators "0098-912abc"))))
    ⊎ IsE164 "+98912abc"
normalize_phone-shape_example = normalize_phone-shape "0098-912abc" "+98912abc" letters
