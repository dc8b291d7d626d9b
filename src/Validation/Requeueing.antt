-- ===== src/Validation/Requeueing.antt =====
-- A retry's entry is accepted, whether or not the entry names a dedupe key of its own.
use senderplatformtest.Prelude.{
  ℕ, suc, ◌+◌, ◌≡◌, refl, ◌∙◌, true, false, some, String, List, ok, arith, Bool-cases, inl, inr,
}
use native.Mathlib.Numerals.{add-one}
use senderplatformtest.Payloads.{WorkerPayload}
use senderplatformtest.Validation.Blank.{not_blank, lstrip_c}
use senderplatformtest.Validation.Retrying.{validate_worker_payload-ok, retry_accepted}
use senderplatformtest.Validation.Accepting.{is_acceptable-fields, positive_ids, filled}
use senderplatformtest.Validation.{
  QueueItem, platform_text, is_given, or_text, recipient_of, fallback_message_id, message_id_of,
  message_text_of, made_dedupe_key, dedupe_key_of, attempt_of, has_required, or_zero, payload_of,
  is_blank, is_acceptable, validate_worker_payload, build_retry_queue_payload,
}

-- A key that is made up starts with a letter.
made-is_blank :
    (item : QueueItem) (campaign contact : ℕ)
    → is_given item.dedupe_key ≡ false
    → item.campaign_id ≡ some campaign
    → item.contact_id ≡ some contact
    → is_blank (dedupe_key_of item) ≡ false
unfolding dedupe_key_of is_given or_text made_dedupe_key
made-is_blank item campaign contact none_given e f =
    let made : dedupe_key_of item ≡ made_dedupe_key item = ground (arith, none_given) in
    rw (made, e, f) (not_blank _ (lstrip_c _))

other_key-is_acceptable :
    (platform : String) (allowed : List ℕ) (item : QueueItem) (n : ℕ)
    → is_blank (dedupe_key_of (record item { attempt = some n })) ≡ false
    → is_acceptable platform allowed item ≡ true
    → is_acceptable platform allowed (record item { attempt = some n }) ≡ true
unfolding is_acceptable has_required message_id_of fallback_message_id recipient_of platform_text
    message_text_of payload_of or_zero
other_key-is_acceptable platform allowed item n h accepted =
    let here = filled (dedupe_key_of (record item { attempt = some n })) h in
    let (required, account, recipient, message, key) =
      is_acceptable-fields platform allowed item accepted in
    let same : is_acceptable platform allowed (record item { attempt = some n })
        ≡ is_acceptable platform allowed item =
      rw (h, here, key, filled (dedupe_key_of item) key) refl in
    same ∙ accepted

-- An entry that is accepted as `payload`: the same worker accepts the entry that
-- `build_retry_queue_payload` makes of it, as a payload with the next attempt.
pub retry_counts :
    (platform : String) (allowed : List ℕ) (item : QueueItem) (payload : WorkerPayload)
    → validate_worker_payload platform allowed (some item) ≡ ok payload
    → (again : WorkerPayload) × (validate_worker_payload platform allowed
          (some (build_retry_queue_payload item payload))
        ≡ ok again)
      × (again.attempt ≡ suc payload.attempt)
unfolding validate_worker_payload build_retry_queue_payload payload_of attempt_of
retry_counts platform allowed item payload h = elim (Bool-cases (is_given item.dedupe_key)) [
  | inl given ↦ (
    record payload { attempt = payload.attempt + 1 },
    retry_accepted platform allowed item payload given h,
    rw add-one,
  )
  | inr none_given ↦
      let (accepted, same) = validate_worker_payload-ok platform allowed item payload h in
      let n = payload.attempt + 1 in
      let (campaign, contact) =
        positive_ids item (is_acceptable-fields platform allowed item accepted).0 in
      let again : is_acceptable platform allowed (record item { attempt = some n }) ≡ true =
        other_key-is_acceptable platform allowed item n
          (made-is_blank (record item { attempt = some n }) (or_zero item.campaign_id)
            (or_zero item.contact_id) none_given campaign contact)
          accepted in
      (payload_of platform (record item { attempt = some n }), rw again refl, rw add-one)
]
