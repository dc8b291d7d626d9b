-- ===== src/Dispatch/Sending.antt =====
-- `check_consent_or_log`, `dispatch_message`, `enqueue_message` and `send_message_via_queue`.
use senderplatformtest.Prelude.{
  Bool, true, false, not, ◌&&◌, Option, none, some, ◌∷◌, if◌then◌else◌, Result, ok, ◌>>=◌,
}
use senderplatformtest.Platform.{platform_value, SendStatus}
use senderplatformtest.Consent.{ConsentDb, BlockReason, get_consent_block_reason}
use senderplatformtest.Dispatch.{
  MessagePayload, RawPayload, World, Settings, Answer, Handlers, Response, DispatchError,
  payload_dict_to_message_payload, model_dump, apply_shadow_recipient, is_shadow, is_send_success,
  log_of, record_message_log,
}

unfoldable pub block_status : BlockReason → SendStatus
block_status BlockReason.blacklisted = SendStatus.blacklisted
block_status BlockReason.opted_out = SendStatus.opted_out

-- The response of the gate, with its entry in the log.
unfoldable pub gate : MessagePayload → SendStatus → Option BlockReason → World → Response × World
gate m status reason w =
    let entry = log_of m m.chat_identifier status in
    (
      record {
        enqueued = some false;
        dispatched = some false;
        status = status;
        block_reason = reason;
        queue_payload = none;
        log = entry;
      },
      record_message_log entry w,
    )

-- The response to the reason that the consent check gives.
unfoldable pub reason_gate : MessagePayload → Option BlockReason → World → Option (Response × World)
reason_gate m none w = none
reason_gate m (some reason) w = some (gate m (block_status reason) (some reason) w)

-- The session is none where the consent check raises. `none` lets the message pass.
unfoldable pub consent_gate : Option ConsentDb → MessagePayload → World → Option (Response × World)
consent_gate none m w = some (gate m SendStatus.failed_retryable none w)
consent_gate (some session) m w =
    reason_gate m (get_consent_block_reason session m.contact_id (some (platform_value m.platform)))
      w

unfoldable pub check_consent_or_log :
    Option ConsentDb → RawPayload → World → Result DispatchError (Option (Response × World))
check_consent_or_log db raw w =
    payload_dict_to_message_payload raw >>= λ m. ok (consent_gate db m w)

-- A response of dispatch_message, with its entry in the log.
unfoldable pub dispatch_response :
    MessagePayload → MessagePayload → SendStatus → Bool → World → Response × World
dispatch_response m to status dispatched w =
    let entry = log_of m to.chat_identifier status in
    (
      record {
        enqueued = none;
        dispatched = some dispatched;
        status = status;
        block_reason = none;
        queue_payload = none;
        log = entry;
      },
      record_message_log entry w,
    )

-- `_push_to_queue(dispatch_payload)`: whether it returned, and what the handler saw.
unfoldable pub push : Option (MessagePayload → Bool) → MessagePayload → World → Bool × World
push none to w = (true, w)
push (some handler) to w = (handler to, record w { pushed = to ∷ w.pushed })

-- `_send_to_channel(dispatch_payload)`: whether the send counts as a failure.
unfoldable pub channel_failed : Answer → Bool
channel_failed Answer.raised = true
channel_failed (Answer.answered result) = not (is_send_success result)

unfoldable pub send : Option (MessagePayload → Answer) → MessagePayload → World → Bool × World
send none to w = (false, w)
send (some handler) to w = (channel_failed (handler to), record w { sent = to ∷ w.sent })

-- From the call of the channel on.
unfoldable pub dispatch_sent :
    Settings → Handlers → MessagePayload → MessagePayload → World → Response × World
dispatch_sent settings handlers m to w =
    let (failed, w') = send handlers.send_to_channel to w in
    if not (is_shadow settings) && failed
    then dispatch_response m to SendStatus.failed_retryable false w'
    else (let status = if is_shadow settings then SendStatus.shadow_sent else SendStatus.queued in
        dispatch_response m to status true w')

-- The message as it leaves: to the shadow phone in shadow mode.
unfoldable pub dispatch_payload : Settings → MessagePayload → MessagePayload
dispatch_payload settings m =
    if is_shadow settings then apply_shadow_recipient m settings.shadow_phone_number else m

unfoldable pub dispatch_checked : Settings → Handlers → MessagePayload → World → Response × World
dispatch_checked settings handlers m w =
    let to = dispatch_payload settings m in
    let (pushed, w') = push handlers.push_to_queue to w in
    if settings.dry_run
    then dispatch_response m m SendStatus.dry_run false w
    else (if pushed
        then dispatch_sent settings handlers m to w'
        else dispatch_response m to SendStatus.failed_retryable false w')

unfoldable pub dispatch_message :
    Settings
    → Handlers
    → Option ConsentDb
    → RawPayload
    → World
    → Result DispatchError (Response × World)
dispatch_message settings handlers db raw w = check_consent_or_log db raw w >>= λ blocked.
    elim blocked [
      | some response ↦ ok response
      | none ↦
          payload_dict_to_message_payload raw >>= λ m. ok (dispatch_checked settings handlers m w)
    ]

-- A response of enqueue_message, with its entry in the log.
unfoldable pub enqueue_response :
    MessagePayload → MessagePayload → SendStatus → World → Response × World
enqueue_response m to status w =
    let entry = log_of m to.chat_identifier status in
    (
      record {
        enqueued = some true;
        dispatched = none;
        status = status;
        block_reason = none;
        queue_payload = some to;
        log = entry;
      },
      record_message_log entry w,
    )

unfoldable pub enqueue_dry_run : MessagePayload → World → Response × World
enqueue_dry_run m w =
    let entry = log_of m m.chat_identifier SendStatus.dry_run in
    (
      record {
        enqueued = some false;
        dispatched = none;
        status = SendStatus.dry_run;
        block_reason = none;
        queue_payload = none;
        log = entry;
      },
      record_message_log entry w,
    )

unfoldable pub enqueue_checked : Settings → MessagePayload → World → Response × World
enqueue_checked settings m w =
    if settings.dry_run
    then enqueue_dry_run m w
    else if is_shadow settings
    then enqueue_response m (apply_shadow_recipient m settings.shadow_phone_number)
        SendStatus.shadow_sent w
    else enqueue_response m m SendStatus.queued w

unfoldable pub enqueue_message :
    Settings → Option ConsentDb → RawPayload → World → Result DispatchError (Response × World)
enqueue_message settings db raw w = check_consent_or_log db raw w >>= λ blocked. elim blocked [
  | some response ↦ ok response
  | none ↦ payload_dict_to_message_payload raw >>= λ m. ok (enqueue_checked settings m w)
]

-- The second step of send_message_via_queue: it has no payload where nothing was enqueued.
unfoldable pub dispatch_enqueued :
    Settings
    → Handlers
    → Option ConsentDb
    → Response
    → World
    → Result DispatchError (Response × World)
dispatch_enqueued settings handlers db response w = elim response.queue_payload [
  | none ↦ ok (response, w)
  | some m ↦ dispatch_message settings handlers db (model_dump m) w
]

-- dispatch_message opens a session of its own: `fresh` is what it finds.
unfoldable pub send_message_via_queue :
    Settings
    → Handlers
    → Option ConsentDb
    → Option ConsentDb
    → RawPayload
    → World
    → Result DispatchError (Response × World)
send_message_via_queue settings handlers db fresh raw w =
    enqueue_message settings db raw w >>= λ r. dispatch_enqueued settings handlers fresh r.0 r.1
