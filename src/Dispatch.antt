-- ===== src/Dispatch.antt =====
-- Dry run, shadow mode and the consent gate on the way to a channel: `dispatch_message` of
-- multi-messaging-platform/core_engine/services/message_dispatch.py, consent_gate.py,
-- `enqueue_message` and `send_message_via_queue` of queue_manager.py, and the log of message_log.py.
-- Metrics, the metadata of a log entry and the texts of errors are left out; the two handlers that
-- `set_push_to_queue` and `set_send_to_channel` install are parameters.
pub mod Sending
pub mod Modes
use senderplatformtest.Prelude.{
  ℕ, Bool, true, false, not, ◌&&◌, ◌||◌, Option, none, some, List, [], ◌∷◌, String, if◌then◌else◌,
  str_eq, Result, ok, raise, ◌>>=◌,
}
use senderplatformtest.Prelude.Text.{Text, codes, text_eq, lower}
use senderplatformtest.Platform.{PlatformType, platform_value, SendStatus}
use senderplatformtest.Consent.{ConsentDb, BlockReason, get_consent_block_reason}

pub record MessagePayload : Type 0 where
  pub contact_id : ℕ
  pub campaign_id : ℕ
  pub platform : PlatformType
  pub chat_identifier : String
  pub message_text : String
  pub media_url : Option String
  pub attempt_count : ℕ

pub record MessageLog : Type 0 where
  pub contact_id : ℕ
  pub campaign_id : ℕ
  pub platform : PlatformType
  pub chat_identifier : String
  pub original_chat_identifier : String
  pub message_text : String
  pub status : SendStatus
  pub media_url : Option String
  pub attempt_count : ℕ

-- The keys that are read of a payload's dict; a missing key is none.
pub record RawPayload : Type 0 where
  pub contact_id : ℕ
  pub campaign_id : ℕ
  pub platform : Option String
  pub channel : Option String
  pub chat_identifier : Option String
  pub customer_phone : Option String
  pub metadata_chat_identifier : Option String
  pub message_text : Option String
  pub final_text : Option String
  pub media_url : Option String
  pub attempt_count : Option ℕ

-- What a handler saw of the messages, newest first, and the log.
pub record World : Type 0 where
  pub logs : List MessageLog
  pub pushed : List MessagePayload
  pub sent : List MessagePayload

pub record Settings : Type 0 where
  pub dry_run : Bool
  pub shadow_mode : Bool
  pub shadow_phone_number : String

-- What the channel's handler returns.
pub record SendResult : Type 0 where
  pub ok : Option Bool
  pub success : Option Bool
  pub status : Option String

-- A channel's handler raises, or returns a result or None.
pub data Answer : Type 0 where
  raised : Answer
  answered : Option SendResult → Answer

pub record Handlers : Type 0 where
  -- false where `_push_to_queue` raises
  pub push_to_queue : Option (MessagePayload → Bool)
  pub send_to_channel : Option (MessagePayload → Answer)

pub record Response : Type 0 where
  pub enqueued : Option Bool
  pub dispatched : Option Bool
  pub status : SendStatus
  pub block_reason : Option BlockReason
  pub queue_payload : Option MessagePayload
  pub log : MessageLog

pub data DispatchError : Type 0 where
  invalid_payload : DispatchError

-- a or b, of texts that may be missing
unfoldable pub or_text : Option String → String → String
or_text none b = b
or_text (some a) b = if str_eq a "" then b else a

-- The values that the field `platform` admits.
unfoldable pub literal_of : Text → Option PlatformType
literal_of text =
    if text_eq text (codes "whatsapp")
    then some PlatformType.whatsapp
    else if text_eq text (codes "telegram")
    then some PlatformType.telegram
    else if text_eq text (codes "rubika")
    then some PlatformType.rubika
    else if text_eq text (codes "bale")
    then some PlatformType.bale
    else none

or_zero : Option ℕ → ℕ
or_zero none = 0
or_zero (some n) = n

unfoldable pub payload_dict_to_message_payload : RawPayload → Result DispatchError MessagePayload
unfolding or_text literal_of or_zero
payload_dict_to_message_payload raw =
    elim (literal_of (lower (codes (or_text raw.platform (or_text raw.channel ""))))) [
      | none ↦ raise invalid_payload
      | some platform ↦ ok (record {
        contact_id = raw.contact_id;
        campaign_id = raw.campaign_id;
        platform = platform;
        chat_identifier =
            or_text raw.chat_identifier
              (or_text raw.customer_phone (or_text raw.metadata_chat_identifier ""));
        message_text = or_text raw.message_text (or_text raw.final_text "");
        media_url = raw.media_url;
        attempt_count = or_zero raw.attempt_count;
      })
    ]

-- message.model_dump()
unfoldable pub model_dump : MessagePayload → RawPayload
model_dump m = record {
  contact_id = m.contact_id;
  campaign_id = m.campaign_id;
  platform = some (platform_value m.platform);
  channel = none;
  chat_identifier = some m.chat_identifier;
  customer_phone = none;
  metadata_chat_identifier = none;
  message_text = some m.message_text;
  final_text = none;
  media_url = m.media_url;
  attempt_count = some m.attempt_count;
}

unfoldable pub apply_shadow_recipient : MessagePayload → String → MessagePayload
apply_shadow_recipient payload shadow_phone = record payload { chat_identifier = shadow_phone }

-- settings.SHADOW_MODE and settings.SHADOW_PHONE_NUMBER
unfoldable pub is_shadow : Settings → Bool
is_shadow settings = settings.shadow_mode && not (str_eq settings.shadow_phone_number "")

is_true : Option Bool → Bool
is_true none = false
is_true (some b) = b

unfoldable pub is_send_success : Option SendResult → Bool
unfolding is_true or_text
is_send_success none = false
is_send_success (some result) =
    is_true result.ok
    || (is_true result.success
        || (let status = lower (codes (or_text result.status "")) in
            text_eq status (codes "success")
            || (text_eq status (codes "sent") || text_eq status (codes "ok"))))

-- The log entry of a message that went to `chat`.
unfoldable pub log_of : MessagePayload → String → SendStatus → MessageLog
log_of m chat status = record {
  contact_id = m.contact_id;
  campaign_id = m.campaign_id;
  platform = m.platform;
  chat_identifier = chat;
  original_chat_identifier = m.chat_identifier;
  message_text = m.message_text;
  status = status;
  media_url = m.media_url;
  attempt_count = m.attempt_count;
}

unfoldable pub record_message_log : MessageLog → World → World
record_message_log entry w = record w { logs = entry ∷ w.logs }
