-- ===== src/Delivery.antt =====
-- How a worker delivers, simulates or refuses: multi-messaging-platform/workers/delivery.py. The
-- connectors are arguments; beside its result a delivery tells which of them it called.
pub mod Safety
use Prim.Native.String.{◌++◌}
use senderplatformtest.Prelude.{
  ℕ, Bool, true, false, not, Option, none, some, String, if◌then◌else◌, str_eq, Result, ok,
}
use senderplatformtest.Prelude.Text.{Text, codes, strip, lower, text_eq}
use senderplatformtest.Payloads.{WorkerPayload, WorkerResult, WorkerException, WorkerSettings}

pub data Connector : Type 0 where
  bale telegram whatsapp_evolution whatsapp_web whatsapp_cloud rubika : Connector

pub record Delivered : Type 0 where
  pub result : Result WorkerException WorkerResult
  pub called : Option Connector

synthetic_platform_message_id : String → String → WorkerPayload → String
synthetic_platform_message_id prefix nonce payload =
    prefix ++ "-" ++ payload.dedupe_key ++ "-" ++ nonce

simulated : String → String → Delivered
simulated status message_id = record {
  result = ok (record {
    success = true;
    status = status;
    error_code = none;
    platform_message_id = some message_id;
    retryable = false;
  });
  called = none;
}

refused : String → String → Delivered
refused status error_code = record {
  result = ok (record {
    success = false;
    status = status;
    error_code = some error_code;
    platform_message_id = none;
    retryable = false;
  });
  called = none;
}

-- settings.WHATSAPP_DELIVERY_MODE.strip().lower()
abbrev pub is_mode : String → WorkerSettings → Bool
is_mode mode settings = text_eq (lower (strip (codes settings.whatsapp_delivery_mode))) (codes mode)

module _
    (deliver_live : Connector
      → WorkerPayload
      → WorkerSettings
      → Result WorkerException WorkerResult) where
  live : Connector → WorkerPayload → WorkerSettings → Delivered
  live c payload settings = record { result = deliver_live c payload settings; called = some c }

  deliver_whatsapp : WorkerPayload → WorkerSettings → Delivered
  unfolding live
  deliver_whatsapp payload settings =
      if is_mode "evolution" settings
      then live whatsapp_evolution payload settings
      else if is_mode "web" settings
      then live whatsapp_web payload settings
      else live whatsapp_cloud payload settings

  -- `nonce` is the random part of a synthetic id.
  unfoldable pub deliver_platform_message :
      String → String → WorkerPayload → WorkerSettings → Delivered
  unfolding synthetic_platform_message_id simulated refused live deliver_whatsapp
  deliver_platform_message nonce platform payload settings =
      if settings.dry_run
      then simulated "dry_run" (synthetic_platform_message_id "dry" nonce payload)
      else if settings.shadow_mode
      then (if str_eq settings.shadow_phone_number ""
          then refused "failed_permanent" "shadow_phone_missing"
          else simulated "shadow_sent" (synthetic_platform_message_id "shadow" nonce payload))
      else if not settings.real_message_sending_enabled
      then refused "failed_permanent" "real_send_disabled"
      else if not settings.channel_connectors_enabled
      then refused "failed_permanent" "connectors_disabled"
      else if str_eq platform "bale"
      then live bale payload settings
      else if str_eq platform "telegram"
      then live telegram payload settings
      else if str_eq platform "whatsapp"
      then deliver_whatsapp payload settings
      else if str_eq platform "rubika"
      then live rubika payload settings
      else refused "placeholder_not_implemented" "not_implemented"
