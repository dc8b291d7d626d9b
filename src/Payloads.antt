-- ===== src/Payloads.antt =====
-- What workers take from a queue and report: multi-messaging-platform/workers/payloads.py,
-- errors.py, and the settings of config.py that the delivery reads. Ids are numbers; the texts of
-- error messages are left out.
use senderplatformtest.Prelude.{ℕ, Bool, Option, String}

-- A number, or `f"{campaign_id}:{contact_id}"`.
pub data MessageId : Type 0 where
  numbered : ℕ → MessageId
  paired : ℕ → ℕ → MessageId

pub record WorkerPayload : Type 0 where
  pub message_id : MessageId
  pub campaign_id : ℕ
  pub contact_id : ℕ
  pub account_id : ℕ
  pub platform : String
  pub recipient : String
  pub recipient_type : String
  pub message_text : String
  pub media_url : Option String
  pub dedupe_key : String
  pub attempt : ℕ

pub record WorkerResult : Type 0 where
  pub success : Bool
  pub status : String
  pub error_code : Option String
  pub platform_message_id : Option String
  pub retryable : Bool

-- The exceptions that `run_once` tells apart: those of errors.py and any other.
pub data WorkerException : Type 0 where
  worker_error : WorkerException
  retryable_worker_error : WorkerException
  permanent_worker_error : WorkerException
  rate_limit_worker_error : WorkerException
  session_invalid_error : WorkerException
  payload_validation_error : WorkerException
  other_exception : WorkerException

pub record WorkerSettings : Type 0 where
  pub dry_run : Bool
  pub shadow_mode : Bool
  pub shadow_phone_number : String
  pub real_message_sending_enabled : Bool
  pub channel_connectors_enabled : Bool
  pub whatsapp_delivery_mode : String
  pub whatsapp_hourly_send_cap : ℕ
  pub whatsapp_daily_send_cap : ℕ
  pub whatsapp_distributed_lock_enabled : Bool
  pub whatsapp_distributed_lock_ttl_seconds : ℕ
