-- ===== src/Validation.antt =====
-- From a queue's entry to a payload: `normalize_queue_payload` of multi-messaging-platform/workers/
-- payload_adapter.py, `validate_worker_payload` of workers/worker_runtime.py and
-- `build_retry_queue_payload` of workers/retry.py. An entry is its decoded JSON object; the key
-- `metadata` is left out.
pub mod Blank
pub mod Accepting
pub mod Retrying
pub mod Requeueing
use Prim.Native.Char.{code}
use Prim.Native.String.{◌++◌}
use senderplatformtest.Prelude.{
  ℕ, zero, suc, ◌+◌, ◌/◌, ◌%◌, Bool, true, false, not, ◌&&◌, ◌||◌, Option, none, some, String, List,
  ltb, ◌==◌, if◌then◌else◌, str_eq, Result, ok, raise,
}
use senderplatformtest.Prelude.Text.{Text, codes, is_empty, is_space, lower, strip, text_eq}
use senderplatformtest.Prelude.Sort.{contains}
use senderplatformtest.Payloads.{
  MessageId, numbered, paired, WorkerPayload, WorkerException, payload_validation_error,
}

-- The keys of an entry that are read; a missing key is none.
pub record QueueItem : Type 0 where
  pub message_id : Option ℕ
  pub rendered_message_id : Option ℕ
  pub campaign_id : Option ℕ
  pub contact_id : Option ℕ
  pub account_id : Option ℕ
  pub platform : Option String
  pub channel : Option String
  pub recipient : Option String
  pub phone : Option String
  pub channel_handle : Option String
  pub recipient_type : Option String
  pub message_text : Option String
  pub final_text : Option String
  pub media_url : Option String
  pub dedupe_key : Option String
  pub attempt : Option ℕ

-- s.strip(), of a String
unfoldable pub lstrip_string : String → String
lstrip_string String.[] = String.[]
lstrip_string (String.◌∷◌ c s) =
    let rest = lstrip_string s in if is_space (code c) then rest else String.◌∷◌ c s

unfoldable pub reverse_onto : String → String → String
reverse_onto acc String.[] = acc
reverse_onto acc (String.◌∷◌ c s) = reverse_onto (String.◌∷◌ c acc) s

unfoldable pub strip_string : String → String
strip_string s = reverse_onto String.[] (lstrip_string (reverse_onto String.[] (lstrip_string s)))

-- str(n); the fuel `suc n` is more than the number of digits.
unfoldable pub digit : ℕ → String
digit n =
    if n == 0
    then "0"
    else if n == 1
    then "1"
    else if n == 2
    then "2"
    else if n == 3
    then "3"
    else if n == 4
    then "4"
    else if n == 5
    then "5"
    else if n == 6
    then "6"
    else if n == 7
    then "7"
    else if n == 8
    then "8"
    else "9"

decimal : ℕ → ℕ → String → String
unfolding digit
decimal zero n rest = rest
decimal (suc f) n rest =
    let more = decimal f (n / 10) (digit (n % 10) ++ rest) in
    if ltb n 10 then digit n ++ rest else more

unfoldable pub str : ℕ → String
unfolding decimal
str n = decimal (suc n) n ""

-- a or b, where a is a text that may be missing
unfoldable pub or_text : Option String → String → String
or_text none b = b
or_text (some a) b = if str_eq a "" then b else a

unfoldable pub is_given : Option String → Bool
is_given none = false
is_given (some a) = not (str_eq a "")

-- a number that is there and not 0
unfoldable pub is_positive : Option ℕ → Bool
is_positive none = false
is_positive (some zero) = false
is_positive (some (suc n)) = true

-- The platform as `normalize_queue_payload` leaves it.
unfoldable pub platform_text : QueueItem → Text
platform_text item = lower (strip (codes (or_text item.platform (or_text item.channel ""))))

unfoldable pub is_handle_platform : Text → Bool
is_handle_platform platform =
    text_eq platform (codes "bale")
    || (text_eq platform (codes "telegram") || text_eq platform (codes "rubika"))

unfoldable pub recipient_of : QueueItem → String
recipient_of item =
    if text_eq (platform_text item) (codes "whatsapp") && is_given item.phone
    then strip_string (or_text item.phone "")
    else if is_handle_platform (platform_text item) && is_given item.channel_handle
    then strip_string (or_text item.channel_handle "")
    else strip_string (or_text item.recipient (or_text item.phone (or_text item.channel_handle "")))

unfoldable pub recipient_type_of : QueueItem → String
recipient_type_of item =
    if text_eq (platform_text item) (codes "whatsapp") && is_given item.phone
    then "phone_number"
    else if is_handle_platform (platform_text item) && is_given item.channel_handle
    then "channel_handle"
    else or_text item.recipient_type
        (if is_given item.phone then "phone_number" else "channel_handle")

unfoldable pub fallback_message_id : QueueItem → Option MessageId
fallback_message_id item = elim item.rendered_message_id [
  | some id ↦ some (numbered id)
  | none ↦ elim item.campaign_id [
    | none ↦ none
    | some campaign ↦ elim item.contact_id [
      | none ↦ none
      | some contact ↦ some (paired campaign contact)
    ]
  ]
]

unfoldable pub message_id_of : QueueItem → Option MessageId
message_id_of item = elim item.message_id [
  | none ↦ fallback_message_id item
  | some zero ↦ fallback_message_id item
  | some (suc n) ↦ some (numbered (suc n))
]

-- int(normalized.get("attempt") or 1)
unfoldable pub attempt_or_one : Option ℕ → ℕ
attempt_or_one none = 1
attempt_or_one (some zero) = 1
attempt_or_one (some (suc n)) = suc n

unfoldable pub made_dedupe_key : QueueItem → String
made_dedupe_key item = elim item.campaign_id [
  | none ↦ ""
  | some campaign ↦ elim item.contact_id [
    | none ↦ ""
    | some contact ↦
        "c" ++ str campaign ++ "-ct" ++ str contact ++ "-a" ++ str (attempt_or_one item.attempt)
  ]
]

unfoldable pub dedupe_key_of : QueueItem → String
dedupe_key_of item = or_text item.dedupe_key (made_dedupe_key item)

unfoldable pub message_text_of : QueueItem → String
message_text_of item = or_text item.message_text (or_text item.final_text "")

-- `not data.get("message_id")` is what makes a message id of 0 missing.
unfoldable pub is_message_id : Option MessageId → Bool
is_message_id none = false
is_message_id (some (numbered zero)) = false
is_message_id (some (numbered (suc n))) = true
is_message_id (some (paired campaign contact)) = true

-- data.get("attempt", 1), the field's default
unfoldable pub attempt_of : Option ℕ → ℕ
attempt_of none = 1
attempt_of (some n) = n

unfoldable pub or_zero : Option ℕ → ℕ
or_zero none = 0
or_zero (some n) = n

or_numbered : Option MessageId → MessageId
or_numbered none = numbered 0
or_numbered (some id) = id

-- Every field of REQUIRED_PAYLOAD_FIELDS is there. The recipient's type is never empty.
unfoldable pub has_required : QueueItem → Bool
has_required item =
    is_message_id (message_id_of item)
    && (is_positive item.campaign_id
        && (is_positive item.contact_id
            && (is_positive item.account_id
                && (not (is_empty (platform_text item))
                    && (not (str_eq (recipient_of item) "")
                        && (not (str_eq (message_text_of item) "")
                            && not (str_eq (dedupe_key_of item) "")))))))

-- The model of the normalised dict, once the required fields are there and the platform is the
-- worker's.
unfoldable pub payload_of : String → QueueItem → WorkerPayload
unfolding or_zero or_numbered
payload_of platform item = record {
  message_id = or_numbered (message_id_of item);
  campaign_id = or_zero item.campaign_id;
  contact_id = or_zero item.contact_id;
  account_id = or_zero item.account_id;
  platform = platform;
  recipient = recipient_of item;
  recipient_type = recipient_type_of item;
  message_text = message_text_of item;
  media_url = item.media_url;
  dedupe_key = dedupe_key_of item;
  attempt = attempt_of item.attempt;
}

unfoldable pub is_blank : String → Bool
is_blank s = str_eq (strip_string s) ""

unfoldable pub is_acceptable : String → List ℕ → QueueItem → Bool
is_acceptable platform allowed item =
    has_required item
    && (text_eq (platform_text item) (codes platform)
        && (contains (payload_of platform item).account_id allowed
            && (not (is_blank (recipient_of item))
                && (not (is_blank (message_text_of item)) && not (is_blank (dedupe_key_of item))))))

-- An entry that is no JSON object is none.
unfoldable pub validate_worker_payload :
    String → List ℕ → Option QueueItem → Result WorkerException WorkerPayload
validate_worker_payload platform allowed none = raise payload_validation_error
validate_worker_payload platform allowed (some item) =
    if is_acceptable platform allowed item
    then ok (payload_of platform item)
    else raise payload_validation_error

unfoldable pub build_retry_queue_payload : QueueItem → WorkerPayload → QueueItem
build_retry_queue_payload item payload = record item { attempt = some (payload.attempt + 1) }
