-- ===== src/Validation/Retrying.antt =====
-- A retry's entry against the entry that it repeats.
use senderplatformtest.Prelude.{
  ℕ, ◌+◌, ◌≡◌, refl, ap, ◌∙◌, true, some, String, List, Result, ok, raise, arith, Bool-cases, inl,
  inr,
}
use senderplatformtest.Payloads.{WorkerPayload, WorkerException, payload_validation_error}
use senderplatformtest.Validation.{
  QueueItem, platform_text, is_given, or_text, recipient_of, recipient_type_of, fallback_message_id,
  message_id_of, message_text_of, dedupe_key_of, attempt_of, has_required, or_zero, payload_of,
  is_acceptable, validate_worker_payload, build_retry_queue_payload,
}

pub validate_worker_payload-ok :
    (platform : String) (allowed : List ℕ) (item : QueueItem) (payload : WorkerPayload)
    → validate_worker_payload platform allowed (some item) ≡ ok payload
    → (is_acceptable platform allowed item ≡ true) × (payload_of platform item ≡ payload)
unfolding validate_worker_payload
validate_worker_payload-ok platform allowed item payload h =
    elim (Bool-cases (is_acceptable platform allowed item)) [
      | inl t ↦
          let same : Path (Result WorkerException WorkerPayload) (ok (payload_of platform item))
              (ok payload) =
            ground (arith, h, t) in
          (t, cc)
      | inr f ↦
          let same : Path (Result WorkerException WorkerPayload) (raise payload_validation_error)
              (ok payload) =
            ground (arith, h, f) in
          cc
    ]

retry_key :
    (item : QueueItem) (n : ℕ)
    → is_given item.dedupe_key ≡ true
    → dedupe_key_of (record item { attempt = some n }) ≡ dedupe_key_of item
unfolding dedupe_key_of is_given or_text
retry_key item n h = ground (arith, h)

retry-is_acceptable :
    (platform : String) (allowed : List ℕ) (item : QueueItem) (n : ℕ)
    → is_given item.dedupe_key ≡ true
    → is_acceptable platform allowed (record item { attempt = some n })
      ≡ is_acceptable platform allowed item
unfolding is_acceptable has_required message_id_of fallback_message_id recipient_of platform_text
    message_text_of payload_of or_zero
retry-is_acceptable platform allowed item n h = rw (retry_key item n h) refl

retry-payload_of :
    (platform : String) (item : QueueItem) (n : ℕ)
    → is_given item.dedupe_key ≡ true
    → payload_of platform (record item { attempt = some n })
      ≡ record (payload_of platform item) { attempt = n }
unfolding payload_of message_id_of fallback_message_id recipient_of platform_text recipient_type_of
    message_text_of attempt_of
retry-payload_of platform item n h = rw (retry_key item n h) refl

-- An entry with a dedupe key of its own, which is accepted as `payload`: the entry that
-- `build_retry_queue_payload` makes of it is accepted by the same worker, as the same payload with
-- the next attempt and nothing else changed.
pub retry_accepted :
    (platform : String) (allowed : List ℕ) (item : QueueItem) (payload : WorkerPayload)
    → is_given item.dedupe_key ≡ true
    → validate_worker_payload platform allowed (some item) ≡ ok payload
    → validate_worker_payload platform allowed (some (build_retry_queue_payload item payload))
      ≡ ok (record payload { attempt = payload.attempt + 1 })
unfolding validate_worker_payload build_retry_queue_payload
retry_accepted platform allowed item payload given h =
    let (accepted, same) = validate_worker_payload-ok platform allowed item payload h in
    let n = payload.attempt + 1 in
    let still : is_acceptable platform allowed (record item { attempt = some n }) ≡ true =
      retry-is_acceptable platform allowed item n given ∙ accepted in
    rw still (
      ap {A = WorkerPayload} ok (
        retry-payload_of platform item n given
        ∙ ap {A = WorkerPayload} {B = WorkerPayload} (λ x. record x { attempt = n }) same))
