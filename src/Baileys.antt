-- ===== src/Baileys.antt =====
-- Jobs for the Node worker: multi-messaging-platform/core_engine/services/baileys_queue.py.
use senderplatformtest.Prelude.{ℕ, Option, none, some, String, if◌then◌else◌, str_eq, filter}
use senderplatformtest.Prelude.Text.{Text, codes, strip, is_empty, is_digit}
use senderplatformtest.Redis.{RedisKey, other_key}

abbrev pub raw_outgoing_list : RedisKey
raw_outgoing_list = other_key "whatsapp:raw_outgoing"

-- The staged payload: the keys of `build_staged_queue_payload` (phase4_utils.py) that a push reads,
-- and the account that the bridge adds.
pub record QueuePayload : Type 0 where
  pub campaign_id : ℕ
  pub contact_id : ℕ
  pub rendered_message_id : Option ℕ
  pub channel : String
  pub phone : String
  pub channel_handle : Option String
  pub final_text : String
  pub account_id : Option ℕ

pub record BaileysJob : Type 0 where
  -- the payload has neither message_id, dedupe_key nor jobId, so that str(None) is the id
  pub job_id : String
  pub sender_digits : Text
  pub jid_digits : Text
  pub text : Text
  pub route : String

-- `_digits`
unfoldable pub digits : String → Text
digits value = filter is_digit (codes value)

-- `_to_jid`, with None for its `ValueError`; the suffix is left out.
unfoldable pub to_jid : String → Option Text
unfolding digits
to_jid recipient = let d = digits recipient in if is_empty d then none else some d

-- `_resolve_sender_phone`, given the account's phone number: the first None is an account that is
-- not there or has no phone.
unfoldable pub resolve_sender_phone : Option String → Option Text
unfolding digits
resolve_sender_phone none = none
resolve_sender_phone (some phone) = let d = digits phone in if is_empty d then none else some d

-- payload.get("phone") or payload.get("channel_handle") or ""
recipient_of : QueuePayload → String
recipient_of payload =
    if str_eq payload.phone ""
    then elim payload.channel_handle [ none ↦ "" | some handle ↦ handle ]
    else payload.phone

-- `enqueue_baileys_from_worker_payload` up to the RPUSH, for a staged payload
unfoldable pub baileys_job : Option String → QueuePayload → String → Option BaileysJob
unfolding resolve_sender_phone to_jid recipient_of
baileys_job sender_phone payload route = elim (resolve_sender_phone sender_phone) [
  | none ↦ none
  | some sender ↦ elim (to_jid (recipient_of payload)) [
    | none ↦ none
    | some jid ↦ some (record {
      job_id = "None";
      sender_digits = sender;
      jid_digits = jid;
      text = strip (codes payload.final_text);
      route = route;
    })
  ]
]
