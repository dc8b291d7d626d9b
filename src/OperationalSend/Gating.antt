-- ===== src/OperationalSend/Gating.antt =====
-- When a test message leaves the program: `send_account_test_message` and
-- `operational_send_capabilities` of operational_send.py.
use senderplatformtest.Prelude.{
  take, ◌≡◌, refl, sym, ap, ◌∙◌, subst, Option-cases, Bool, true, false, not, ◌&&◌, Option, none,
  some, String, if◌then◌else◌, Result, ok, raise, Result-cases, inl, inr, arith, ◌⊎◌,
}
use senderplatformtest.Platform.{whatsapp, platform_eq}
use senderplatformtest.Payloads.{WorkerPayload, WorkerResult, WorkerException, WorkerSettings}
use senderplatformtest.Delivery.{Connector, deliver_platform_message}
use senderplatformtest.OperationalSend.{
  OpsSettings, OpsAccount, Answers, OperationalSendError, preflight_failed, TestPayload, Action,
  deliver, push_to_worker_queue, enqueue_baileys, build_test_worker_payload,
  build_live_send_preflight, preflight_checks, global_live_env_checks, all_passed, failed_checks,
  is_banned, build_operational_worker_settings, goes_to_queue, route_test_message,
}

-- Whether a live send may go on, before the payload is built; the error names three checks at most.
unfoldable pub preflight_refusal :
    OpsSettings → OpsAccount → Answers → Bool → Option OperationalSendError
preflight_refusal settings account answers dry_run =
    let (ready, checks) = build_live_send_preflight settings account answers in
    if not dry_run && not ready
    then some (preflight_failed (take 3 (failed_checks checks)))
    else none

unfoldable pub send_account_test_message :
    OpsSettings
    → WorkerSettings
    → OpsAccount
    → Answers
    → String
    → String
    → Option String
    → Bool
    → Bool
    → Result OperationalSendError Action
unfolding preflight_refusal
send_account_test_message settings base account answers test_id message_text recipient dry_run
      confirm_live_send =
    elim (preflight_refusal settings account answers dry_run) [
      | some e ↦ raise e
      | none ↦ elim (build_test_worker_payload account test_id message_text recipient) [
        | raise e ↦ raise e
        | ok payload ↦
            elim (build_operational_worker_settings settings base dry_run confirm_live_send) [
              | raise e ↦ raise e
              | ok worker_settings ↦
                  route_test_message settings account answers dry_run payload worker_settings
            ]
      ]
    ]

-- `live_send_allowed` of `operational_send_capabilities`
unfoldable pub live_send_allowed : OpsSettings → Bool
live_send_allowed settings =
    settings.ops_live_send_api_enabled
    && (settings.real_message_sending_enabled
        && (settings.channel_connectors_enabled && not settings.dry_run))

-- What a live test message needs.
pub record IsAllowed (settings : OpsSettings) (account : OpsAccount) (answers : Answers)
    (confirm_live_send : Bool) : Type 0 where
  pub confirmed : confirm_live_send ≡ true
  pub environment : live_send_allowed settings ≡ true
  pub not_banned : is_banned account.status ≡ false
  pub session : answers.session_ready ≡ true
  pub guard : platform_eq account.platform whatsapp ≡ true → answers.send_allowed ≡ true

-- The action is a delivery that calls no connector, whatever is delivered.
abbrev pub IsQuiet : Action → Type 0
IsQuiet (deliver payload worker_settings) =
    (deliver_live : Connector
      → WorkerPayload
      → WorkerSettings
      → Result WorkerException WorkerResult)
    (nonce platform : String) (p : WorkerPayload)
    → (deliver_platform_message deliver_live nonce platform p worker_settings).called ≡ none
IsQuiet (push_to_worker_queue payload) = ⊥
IsQuiet (enqueue_baileys payload) = ⊥

abbrev IsQuietResult : Result OperationalSendError Action → Type 0
IsQuietResult (ok action) = IsQuiet action
IsQuietResult (raise e) = Unit

abbrev is_dry : Result OperationalSendError WorkerSettings → Bool
is_dry (ok w) = w.dry_run
is_dry (raise e) = false

module _ (settings : OpsSettings) (base : WorkerSettings) (account : OpsAccount) (answers : Answers)
    (test_id message_text : String) (recipient : Option String) where
  no_refusal-passed :
      preflight_refusal settings account answers false ≡ none
      → all_passed (preflight_checks settings account answers) ≡ true
  unfolding preflight_refusal build_live_send_preflight
  no_refusal-passed h = ground arith

  passed_lem :
      all_passed (preflight_checks settings account answers) ≡ true
      → (live_send_allowed settings ≡ true)
        × (is_banned account.status ≡ false)
        × (answers.session_ready ≡ true)
        × (platform_eq account.platform whatsapp ≡ true → answers.send_allowed ≡ true)
  unfolding all_passed preflight_checks global_live_env_checks live_send_allowed
  passed_lem h = (ground arith, ground arith, ground arith, ground arith)

  live_settings-confirmed :
      (confirm : Bool) (w : WorkerSettings)
      → build_operational_worker_settings settings base false confirm ≡ ok w
      → confirm ≡ true
  unfolding build_operational_worker_settings
  live_settings-confirmed true w h = refl
  live_settings-confirmed false w h = cc

  dry_settings-IsQuiet :
      (confirm : Bool) (payload : TestPayload) (w : WorkerSettings)
      → build_operational_worker_settings settings base true confirm ≡ ok w
      → IsQuiet (deliver payload w)
  unfolding build_operational_worker_settings deliver_platform_message
  dry_settings-IsQuiet confirm payload w h deliver_live nonce platform p =
      let dry : w.dry_run ≡ true = ap is_dry (sym h) in rw dry refl

  abbrev sent : Bool → Bool → Result OperationalSendError Action
  sent dry confirm =
      send_account_test_message settings base account answers test_id message_text recipient dry
        confirm

  raised :
      (e : OperationalSendError) (action : Action) (r : Result OperationalSendError Action)
      → r ≡ raise e
      → r ≡ ok action
      → ⊥
  raised e action r h k = cc

  -- What a call that is not refused has passed.
  steps_of :
      (dry confirm : Bool) (action : Action)
      → send_account_test_message settings base account answers test_id message_text recipient dry
          confirm
        ≡ ok action
      → (preflight_refusal settings account answers dry ≡ none)
        × (payload : TestPayload) × (w : WorkerSettings) × (build_operational_worker_settings
              settings base dry confirm
            ≡ ok w)
        × (route_test_message settings account answers dry payload w ≡ ok action)
  unfolding send_account_test_message
  steps_of dry confirm action h =
      elim (Option-cases (preflight_refusal settings account answers dry)) [
        | inr (e, refusal) ↦
            absurd
              (raised e action (sent dry confirm) (rw (send_account_test_message, refusal) refl) h)
        | inl free ↦
            elim (Result-cases (build_test_worker_payload account test_id message_text recipient)) [
              | inr (e, refusal) ↦ absurd (
                  raised e action (sent dry confirm)
                    (rw (send_account_test_message, free, refusal) refl) h)
              | inl (payload, built) ↦
                  elim (Result-cases
                    (build_operational_worker_settings settings base dry confirm)) [
                      | inr (e, refusal) ↦ absurd (
                          raised e action (sent dry confirm)
                            (rw (send_account_test_message, free, built, refusal) refl) h)
                      | inl (w, derived) ↦ (
                        free,
                        payload,
                        w,
                        derived,
                        sym (rw (send_account_test_message, free, built, derived) refl) ∙ h,
                      )
                    ]
            ]
      ]

  dry_route :
      (payload : TestPayload) (w : WorkerSettings)
      → route_test_message settings account answers true payload w ≡ ok (deliver payload w)
  unfolding route_test_message goes_to_queue
  dry_route payload w = refl

  -- A test message that is not refused. In a dry run it goes to the delivery, with settings under
  -- which the delivery calls no connector, whatever is delivered. Otherwise it was confirmed, the
  -- environment allows live sends as `operational_send_capabilities` says, the account is not banned,
  -- its session is ready, and for WhatsApp the send guard allows it.
  pub send_account_test_message-IsAllowed :
      (dry_run confirm_live_send : Bool) (action : Action)
      → send_account_test_message settings base account answers test_id message_text recipient
          dry_run confirm_live_send
        ≡ ok action
      → ((dry_run ≡ true) × IsQuiet action)
        ⊎ ((dry_run ≡ false) × IsAllowed settings account answers confirm_live_send)
  send_account_test_message-IsAllowed true confirm action h =
      let (free, payload, w, derived, routed) = steps_of true confirm action h in
      inl (
        refl,
        subst {A = Result OperationalSendError Action} IsQuietResult
            (sym (dry_route payload w) ∙ routed) (dry_settings-IsQuiet confirm payload w derived),
      )
  send_account_test_message-IsAllowed false confirm action h =
      let (free, payload, w, derived, routed) = steps_of false confirm action h in
      let (environment, not_banned, session, guard) = passed_lem (no_refusal-passed free) in
      inr (
        refl,
        record {
          confirmed = live_settings-confirmed confirm w derived;
          environment = environment;
          not_banned = not_banned;
          session = session;
          guard = guard;
        },
      )
