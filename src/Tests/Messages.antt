-- ===== src/Tests/Messages.antt =====
-- Dispatch and delivery.
use senderplatformtest.Prelude.{◌≡◌, refl, true, false, Option, none, some, [], Result, ok, str_eq}
use senderplatformtest.Platform.{PlatformType, SendStatus}
use senderplatformtest.Consent.{
  ConsentDb, get_consent_block_reason, latest_event_opted_in, latest_of,
}
use senderplatformtest.Payloads.{WorkerPayload, WorkerResult, WorkerException, WorkerSettings}
use senderplatformtest.Delivery.{Connector, whatsapp_evolution, deliver_platform_message}
use senderplatformtest.Delivery.Safety.{IsLive, serves, connector_needs_gates}
use senderplatformtest.Dispatch.{
  MessagePayload, RawPayload, World, Settings, Answer, Handlers, Response,
  payload_dict_to_message_payload, is_shadow, apply_shadow_recipient, or_text, literal_of,
  model_dump,
}
use senderplatformtest.Dispatch.Sending.{
  dispatch_message, send_message_via_queue, check_consent_or_log, consent_gate, reason_gate,
  dispatch_checked, enqueue_message, enqueue_checked, enqueue_dry_run, enqueue_response,
  dispatch_enqueued,
}
use senderplatformtest.Dispatch.Modes.{Audience, dispatch_message-Audience}
use senderplatformtest.Tests.{payload, sent_result, live_settings}

abbrev deliver_live :
    Connector → WorkerPayload → WorkerSettings → Result WorkerException WorkerResult
deliver_live c p settings = ok sent_result

abbrev dry_settings : WorkerSettings
dry_settings = record live_settings { dry_run = true }

abbrev raw : RawPayload
raw = record {
  contact_id = 5;
  campaign_id = 3;
  platform = some "WhatsApp";
  channel = none;
  chat_identifier = none;
  customer_phone = some "+989120000000";
  metadata_chat_identifier = none;
  message_text = some "hello";
  final_text = none;
  media_url = none;
  attempt_count = none;
}

abbrev consents : ConsentDb
consents = record { contact = λ i. some (record { blacklisted = false }); events = []; audits = [] }

abbrev db : Option ConsentDb
db = some consents

abbrev handlers : Handlers
handlers = record {
  push_to_queue = none;
  send_to_channel =
      some (λ m. Answer.answered (some (record { ok = some true; success = none; status = none })));
}

abbrev live : Settings
live = record { dry_run = false; shadow_mode = false; shadow_phone_number = "" }

abbrev dry : Settings
dry = record live { dry_run = true }

abbrev shadow : Settings
shadow = record live { shadow_mode = true; shadow_phone_number = "+980000" }

abbrev world : World
world = record { logs = []; pushed = []; sent = [] }

abbrev message : MessagePayload
message = record {
  contact_id = 5;
  campaign_id = 3;
  platform = PlatformType.whatsapp;
  chat_identifier = "+989120000000";
  message_text = "hello";
  media_url = none;
  attempt_count = 0;
}

abbrev sent : Response × World
sent = dispatch_checked live handlers message world

returned : dispatch_message live handlers db raw world ≡ ok sent
unfolding dispatch_message check_consent_or_log consent_gate reason_gate
    payload_dict_to_message_payload or_text literal_of get_consent_block_reason
    latest_event_opted_in latest_of
returned = refl

abbrev logged : Response × World
logged = enqueue_dry_run message world

dry_returned : send_message_via_queue dry handlers db db raw world ≡ ok logged
unfolding send_message_via_queue enqueue_message enqueue_checked enqueue_dry_run dispatch_enqueued
    dispatch_message check_consent_or_log consent_gate reason_gate payload_dict_to_message_payload
    or_text literal_of get_consent_block_reason latest_event_opted_in latest_of
dry_returned = refl

abbrev queued : Response × World
queued =
    enqueue_response message (apply_shadow_recipient message "+980000") SendStatus.shadow_sent world

abbrev shadowed : Response × World
shadowed =
    dispatch_checked shadow handlers (record message { chat_identifier = "+980000" }) queued.1

shadow_returned : send_message_via_queue shadow handlers db db raw world ≡ ok shadowed
unfolding send_message_via_queue enqueue_message enqueue_checked enqueue_response dispatch_enqueued
    dispatch_message check_consent_or_log consent_gate reason_gate model_dump is_shadow
    apply_shadow_recipient payload_dict_to_message_payload or_text literal_of
    get_consent_block_reason latest_event_opted_in latest_of
shadow_returned = refl

connector_needs_gates_example :
    IsLive live_settings
    × (str_eq "whatsapp" (serves whatsapp_evolution) ≡ true)
    × ((deliver_platform_message deliver_live "ab" "whatsapp" payload live_settings).result
        ≡ deliver_live whatsapp_evolution payload live_settings)
unfolding deliver_platform_message
connector_needs_gates_example =
    connector_needs_gates deliver_live "ab" "whatsapp" payload live_settings whatsapp_evolution refl

dispatch_message-Audience_example : Audience live db raw world sent.1
dispatch_message-Audience_example =
    dispatch_message-Audience live handlers db raw world sent returned
