-- ===== src/Results/Tables.antt =====
-- The two tables of multi-messaging-platform/workers/db.py that read a worker's status.
use senderplatformtest.Prelude.{List, [], ◌∷◌, String}
use senderplatformtest.Platform.{SendStatus, MessageAttemptStatus}

unfoldable pub result_to_send_status : List (String × SendStatus)
result_to_send_status =
    ("dry_run", SendStatus.dry_run)
    ∷ ("shadow_sent", SendStatus.shadow_sent)
    ∷ ("delivered", SendStatus.delivered)
    ∷ ("read", SendStatus.read)
    ∷ ("failed_retryable", SendStatus.failed_retryable)
    ∷ ("failed_permanent", SendStatus.failed_permanent)
    ∷ ("placeholder_not_implemented", SendStatus.failed_permanent)
    ∷ ("live_send_disabled", SendStatus.failed_permanent)
    ∷ ("connectors_disabled", SendStatus.failed_permanent)
    ∷ ("bale_session_missing", SendStatus.failed_permanent)
    ∷ ("bale_chat_id_required", SendStatus.failed_permanent)
    ∷ ("bale_unauthorized", SendStatus.failed_permanent)
    ∷ ("bale_api_error", SendStatus.failed_permanent)
    ∷ ("bale_rate_limited", SendStatus.failed_retryable)
    ∷ ("bale_timeout", SendStatus.failed_retryable)
    ∷ ("bale_transport_error", SendStatus.failed_retryable)
    ∷ ("bale_http_error", SendStatus.failed_retryable)
    ∷ ("bale_bad_response", SendStatus.failed_retryable)
    ∷ ("telegram_session_missing", SendStatus.failed_permanent)
    ∷ ("telegram_chat_id_required", SendStatus.failed_permanent)
    ∷ ("telegram_unauthorized", SendStatus.failed_permanent)
    ∷ ("telegram_api_error", SendStatus.failed_permanent)
    ∷ ("telegram_rate_limited", SendStatus.failed_retryable)
    ∷ ("telegram_timeout", SendStatus.failed_retryable)
    ∷ ("telegram_transport_error", SendStatus.failed_retryable)
    ∷ ("telegram_http_error", SendStatus.failed_retryable)
    ∷ ("telegram_bad_response", SendStatus.failed_retryable)
    ∷ ("rubika_session_missing", SendStatus.failed_permanent)
    ∷ ("rubika_chat_id_required", SendStatus.failed_permanent)
    ∷ ("rubika_unauthorized", SendStatus.failed_permanent)
    ∷ ("rubika_api_error", SendStatus.failed_permanent)
    ∷ ("rubika_rate_limited", SendStatus.failed_retryable)
    ∷ ("rubika_timeout", SendStatus.failed_retryable)
    ∷ ("rubika_transport_error", SendStatus.failed_retryable)
    ∷ ("rubika_http_error", SendStatus.failed_retryable)
    ∷ ("rubika_bad_response", SendStatus.failed_retryable)
    ∷ ("whatsapp_session_missing", SendStatus.failed_permanent)
    ∷ ("whatsapp_recipient_invalid", SendStatus.failed_permanent)
    ∷ ("whatsapp_unauthorized", SendStatus.failed_permanent)
    ∷ ("whatsapp_reengagement_required", SendStatus.failed_permanent)
    ∷ ("whatsapp_undeliverable", SendStatus.failed_permanent)
    ∷ ("whatsapp_not_registered", SendStatus.failed_permanent)
    ∷ ("whatsapp_empty_message", SendStatus.failed_permanent)
    ∷ ("whatsapp_api_error", SendStatus.failed_permanent)
    ∷ ("whatsapp_rate_limited", SendStatus.failed_retryable)
    ∷ ("whatsapp_timeout", SendStatus.failed_retryable)
    ∷ ("whatsapp_transport_error", SendStatus.failed_retryable)
    ∷ ("whatsapp_http_error", SendStatus.failed_retryable)
    ∷ ("whatsapp_bad_response", SendStatus.failed_retryable)
    ∷ ("whatsapp_web_session_missing", SendStatus.failed_permanent)
    ∷ ("whatsapp_web_not_linked", SendStatus.failed_permanent)
    ∷ ("whatsapp_web_profile_missing", SendStatus.failed_permanent)
    ∷ ("whatsapp_web_session_expired", SendStatus.failed_permanent)
    ∷ ("whatsapp_web_recipient_invalid", SendStatus.failed_permanent)
    ∷ ("whatsapp_web_invalid_payload", SendStatus.failed_permanent)
    ∷ ("whatsapp_web_send_failed", SendStatus.failed_retryable)
    ∷ ("whatsapp_send_throttled", SendStatus.failed_retryable)
    ∷ ("whatsapp_hourly_cap_reached", SendStatus.failed_retryable)
    ∷ ("whatsapp_browser_lock_busy", SendStatus.failed_retryable)
    ∷ []

unfoldable pub result_to_attempt_status : List (String × MessageAttemptStatus)
result_to_attempt_status =
    ("dry_run", MessageAttemptStatus.dry_run)
    ∷ ("shadow_sent", MessageAttemptStatus.shadow_sent)
    ∷ ("delivered", MessageAttemptStatus.success)
    ∷ ("read", MessageAttemptStatus.success)
    ∷ ("failed_retryable", MessageAttemptStatus.failed_retryable)
    ∷ ("failed_permanent", MessageAttemptStatus.failed_permanent)
    ∷ ("placeholder_not_implemented", MessageAttemptStatus.failed_permanent)
    ∷ ("live_send_disabled", MessageAttemptStatus.failed_permanent)
    ∷ ("connectors_disabled", MessageAttemptStatus.failed_permanent)
    ∷ ("bale_session_missing", MessageAttemptStatus.failed_permanent)
    ∷ ("bale_chat_id_required", MessageAttemptStatus.failed_permanent)
    ∷ ("bale_unauthorized", MessageAttemptStatus.failed_permanent)
    ∷ ("bale_api_error", MessageAttemptStatus.failed_permanent)
    ∷ ("bale_rate_limited", MessageAttemptStatus.failed_retryable)
    ∷ ("bale_timeout", MessageAttemptStatus.failed_retryable)
    ∷ ("bale_transport_error", MessageAttemptStatus.failed_retryable)
    ∷ ("bale_http_error", MessageAttemptStatus.failed_retryable)
    ∷ ("bale_bad_response", MessageAttemptStatus.failed_retryable)
    ∷ ("telegram_session_missing", MessageAttemptStatus.failed_permanent)
    ∷ ("telegram_chat_id_required", MessageAttemptStatus.failed_permanent)
    ∷ ("telegram_unauthorized", MessageAttemptStatus.failed_permanent)
    ∷ ("telegram_api_error", MessageAttemptStatus.failed_permanent)
    ∷ ("telegram_rate_limited", MessageAttemptStatus.failed_retryable)
    ∷ ("telegram_timeout", MessageAttemptStatus.failed_retryable)
    ∷ ("telegram_transport_error", MessageAttemptStatus.failed_retryable)
    ∷ ("telegram_http_error", MessageAttemptStatus.failed_retryable)
    ∷ ("telegram_bad_response", MessageAttemptStatus.failed_retryable)
    ∷ ("rubika_session_missing", MessageAttemptStatus.failed_permanent)
    ∷ ("rubika_chat_id_required", MessageAttemptStatus.failed_permanent)
    ∷ ("rubika_unauthorized", MessageAttemptStatus.failed_permanent)
    ∷ ("rubika_api_error", MessageAttemptStatus.failed_permanent)
    ∷ ("rubika_rate_limited", MessageAttemptStatus.failed_retryable)
    ∷ ("rubika_timeout", MessageAttemptStatus.failed_retryable)
    ∷ ("rubika_transport_error", MessageAttemptStatus.failed_retryable)
    ∷ ("rubika_http_error", MessageAttemptStatus.failed_retryable)
    ∷ ("rubika_bad_response", MessageAttemptStatus.failed_retryable)
    ∷ ("whatsapp_session_missing", MessageAttemptStatus.failed_permanent)
    ∷ ("whatsapp_recipient_invalid", MessageAttemptStatus.failed_permanent)
    ∷ ("whatsapp_unauthorized", MessageAttemptStatus.failed_permanent)
    ∷ ("whatsapp_reengagement_required", MessageAttemptStatus.failed_permanent)
    ∷ ("whatsapp_undeliverable", MessageAttemptStatus.failed_permanent)
    ∷ ("whatsapp_not_registered", MessageAttemptStatus.failed_permanent)
    ∷ ("whatsapp_empty_message", MessageAttemptStatus.failed_permanent)
    ∷ ("whatsapp_api_error", MessageAttemptStatus.failed_permanent)
    ∷ ("whatsapp_rate_limited", MessageAttemptStatus.failed_retryable)
    ∷ ("whatsapp_timeout", MessageAttemptStatus.failed_retryable)
    ∷ ("whatsapp_transport_error", MessageAttemptStatus.failed_retryable)
    ∷ ("whatsapp_http_error", MessageAttemptStatus.failed_retryable)
    ∷ ("whatsapp_bad_response", MessageAttemptStatus.failed_retryable)
    ∷ ("whatsapp_web_session_missing", MessageAttemptStatus.failed_permanent)
    ∷ ("whatsapp_web_not_linked", MessageAttemptStatus.failed_permanent)
    ∷ ("whatsapp_web_profile_missing", MessageAttemptStatus.failed_permanent)
    ∷ ("whatsapp_web_session_expired", MessageAttemptStatus.failed_permanent)
    ∷ ("whatsapp_web_recipient_invalid", MessageAttemptStatus.failed_permanent)
    ∷ ("whatsapp_web_invalid_payload", MessageAttemptStatus.failed_permanent)
    ∷ ("whatsapp_web_send_failed", MessageAttemptStatus.failed_retryable)
    ∷ ("whatsapp_send_throttled", MessageAttemptStatus.failed_retryable)
    ∷ ("whatsapp_hourly_cap_reached", MessageAttemptStatus.failed_retryable)
    ∷ ("whatsapp_browser_lock_busy", MessageAttemptStatus.failed_retryable)
    ∷ []
