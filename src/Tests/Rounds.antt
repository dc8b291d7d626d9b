-- ===== src/Tests/Rounds.antt =====
-- The pool's worker, run until its queues are empty.
use senderplatformtest.Prelude.{◌≤◌, ◌≡◌, [], arith, All, inl, refl}
use senderplatformtest.Tests.{surroundings, worker, no_rows}
use senderplatformtest.Tests.Workers.{redis, store, no_reason}
use senderplatformtest.Delivery.{deliver_platform_message}
use senderplatformtest.Lock.{acquire, new_lock, release}
use senderplatformtest.Results.{
  update_message_attempt_result, recipient_part, send_status_of, get_status, result_to_send_status,
  update_recipient, has_recipient,
}
use senderplatformtest.PoolWorker.Assembly.{report_of, pool_rounds-drain, pool_ports}
use senderplatformtest.PoolWorker.{
  get_account_delay, locked_send, send_message, settle, within_daily_cap,
}
use senderplatformtest.RateLimit.{
  can_send_daily, incr_daily_count, is_hourly_cap_reached, is_min_delay_active,
  record_successful_send, set_min_delay,
}
use senderplatformtest.Validation.{
  validate_worker_payload, is_acceptable, has_required, is_message_id, message_id_of, is_positive,
  platform_text, or_text, recipient_of, is_given, strip_string, reverse_onto, lstrip_string,
  message_text_of, dedupe_key_of, attempt_of, is_blank, payload_of,
}
use senderplatformtest.Worker.Draining.{IsWork, run_rounds, work_left}
use senderplatformtest.Worker.{
  queue_of, scan, read_next_payload, handle_result, deliver, process, run_once,
  should_schedule_retry, is_redis_truthy,
}

enough_calls : work_left redis (pool_ports redis surroundings no_reason) worker store ≤ 3
unfolding pool_ports validate_worker_payload is_acceptable has_required is_message_id message_id_of
    is_positive platform_text or_text recipient_of is_given strip_string reverse_onto lstrip_string
    message_text_of dedupe_key_of attempt_of is_blank payload_of work_left
enough_calls = omega arith

no_stops :
    All IsWork (run_rounds redis (pool_ports redis surroundings no_reason) 3 worker store no_rows).0
unfolding deliver_platform_message acquire new_lock release pool_ports get_account_delay locked_send
    send_message settle within_daily_cap can_send_daily incr_daily_count is_hourly_cap_reached
    is_min_delay_active record_successful_send set_min_delay validate_worker_payload is_acceptable
    has_required is_message_id message_id_of is_positive platform_text or_text recipient_of is_given
    strip_string reverse_onto lstrip_string message_text_of dedupe_key_of is_blank payload_of
    run_rounds scan read_next_payload handle_result deliver process run_once should_schedule_retry
    is_redis_truthy update_message_attempt_result recipient_part send_status_of get_status
    result_to_send_status report_of update_recipient has_recipient
no_stops = (tt, (tt, (tt, tt)))

pool_rounds-drain_example :
    redis.items
      (queue_of redis worker 1)
      (run_rounds redis (pool_ports redis surroundings no_reason) 3 worker store no_rows).2
    ≡ []
pool_rounds-drain_example =
    pool_rounds-drain redis surroundings no_reason 3 worker store no_rows (omega arith) enough_calls
      no_stops 1 (inl refl)
