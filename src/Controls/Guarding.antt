-- ===== src/Controls/Guarding.antt =====
-- The WhatsApp send guard, the warmup's lock and the checks before staging.
use senderplatformtest.Prelude.{
  ℕ, ◌≡◌, ◌↔◌, ◌⊎◌, refl, ◌∙◌, Bool, true, false, none, some, Bool-cases, inl, inr, Result, ok,
  raise, if◌then◌else◌, bind_returned,
}
use senderplatformtest.Redis.{whatsapp_send_kill_switch_key, text, Redis}
use senderplatformtest.Controls.{
  Done, done, GuardEnv, kill_switch_on, disabled_by_environment, switch_text, parse_guard_bool,
  is_truthy, value_text, whatsapp_sending_disabled_by_env, whatsapp_send_kill_switch_enabled,
  assert_whatsapp_send_allowed, set_whatsapp_send_kill_switch, whatsapp_send_guard_status,
  node_kill_switch_key, WarmupError, service_unreachable, service_refused, passed_through,
  warmup_lock_key, warmup_lock_ttl_seconds, SafetySettings, assert_phase_4_staging_safe, refuse,
  SafetyViolation, real_sending, real_queue_push, worker_execution, channel_connectors,
}

module _ {Item : Type 0} (redis : Redis Item) where
  open redis use {
    Store, get, ttl, set, delete, set_ex, get-set_self, get-set_ne, get-set_ex_self,
    ttl-set_ex_self, get-delete_self, get-set_ex_ne, get-delete_ne,
  }

  guard_switch : (enabled : Bool) → parse_guard_bool (some (switch_text enabled)) ≡ enabled
  unfolding parse_guard_bool is_truthy value_text switch_text
  guard_switch true = refl
  guard_switch false = refl

  guard_after :
      (enabled : Bool) (s : Store)
      → get whatsapp_send_kill_switch_key (set_whatsapp_send_kill_switch redis enabled s)
        ≡ some (switch_text enabled)
  unfolding set_whatsapp_send_kill_switch
  guard_after enabled s =
      get-set_ne node_kill_switch_key whatsapp_send_kill_switch_key (switch_text enabled)
        (set whatsapp_send_kill_switch_key (switch_text enabled) s) (λ same. cc (same))
      ∙ get-set_self whatsapp_send_kill_switch_key (switch_text enabled) s

  node_after :
      (enabled : Bool) (s : Store)
      → get node_kill_switch_key (set_whatsapp_send_kill_switch redis enabled s)
        ≡ some (switch_text enabled)
  unfolding set_whatsapp_send_kill_switch
  node_after enabled s =
      get-set_self node_kill_switch_key (switch_text enabled)
        (set whatsapp_send_kill_switch_key (switch_text enabled) s)

  -- With Redis in reach, the guard after a switch: where the environment disables sending it raises
  -- for that; otherwise it raises exactly if the switch was set on. The copy for the Node service
  -- has the same value.
  pub set_whatsapp_send_kill_switch-guard :
      (env : GuardEnv) (enabled : Bool) (s : Store)
      → (assert_whatsapp_send_allowed redis env true (set_whatsapp_send_kill_switch redis enabled s)
          ≡ (if whatsapp_sending_disabled_by_env env
              then raise disabled_by_environment
              else if enabled
              then raise kill_switch_on
              else ok done))
        × (get node_kill_switch_key (set_whatsapp_send_kill_switch redis enabled s)
            ≡ some (switch_text enabled))
  unfolding assert_whatsapp_send_allowed whatsapp_send_kill_switch_enabled
  set_whatsapp_send_kill_switch-guard env enabled s =
      (rw (guard_after enabled s, guard_switch enabled) refl, node_after enabled s)

  -- The status that the API shows allows sending exactly where the guard lets a message pass.
  pub guard_status-agrees :
      (env : GuardEnv) (reachable : Bool) (s : Store)
      → ((whatsapp_send_guard_status redis env reachable s).sending_allowed ≡ true)
        ↔ (assert_whatsapp_send_allowed redis env reachable s ≡ ok done)
  unfolding whatsapp_send_guard_status assert_whatsapp_send_allowed
  guard_status-agrees env reachable s = elim (Bool-cases (whatsapp_sending_disabled_by_env env)) [
    | inl off ↦ rw off (λ h. cc (h), λ h. cc (h))
    | inr free ↦ elim (Bool-cases (whatsapp_send_kill_switch_enabled redis reachable s)) [
      | inl on ↦ rw (free, on) (λ h. cc (h), λ h. cc (h))
      | inr no_switch ↦ rw (free, no_switch) (λ h. refl, λ h. refl)
    ]
  ]

  abbrev locked : Store → Store
  locked s = set_ex warmup_lock_key (text "locked") warmup_lock_ttl_seconds s

  abbrev pub IsLocked : Store → Type 0
  IsLocked s = (get warmup_lock_key s ≡ some (text "locked")) × (ttl warmup_lock_key s ≡ 86400)

  -- A try ended by accepting, by a failure that the code expects, or by another exception.
  abbrev pub Tried : Store → Result WarmupError Done × Store → Type 0
  Tried s out =
      ((out.0 ≡ ok done) × IsLocked out.1)
      ⊎ (((out.0 ≡ raise service_unreachable)
            ⊎ ((code : ℕ) × (out.0 ≡ raise (service_refused code))))
          × (get warmup_lock_key out.1 ≡ none))
      ⊎ ((out.0 ≡ raise passed_through) × IsLocked out.1)

refuse_lem :
    (violation : SafetyViolation) (enabled : Bool) (d : Done)
    → refuse violation enabled ≡ ok d
    → enabled ≡ false
unfolding refuse
refuse_lem violation true d e = cc
refuse_lem violation false d e = refl

-- Staging is let through exactly if every switch that could send is off.
pub assert_phase_4_staging_safe_iff :
    (settings : SafetySettings)
    → (assert_phase_4_staging_safe settings ≡ ok done) ↔ (
        (settings.real_message_sending_enabled ≡ false)
        × (settings.real_queue_push_enabled ≡ false)
        × (settings.worker_execution_enabled ≡ false)
        × (settings.channel_connectors_enabled ≡ false))
unfolding assert_phase_4_staging_safe refuse
assert_phase_4_staging_safe_iff settings = (
  λ h.
      let (d1, e1, h1) =
        bind_returned (refuse real_sending settings.real_message_sending_enabled) _ h in
      let (d2, e2, h2) =
        bind_returned (refuse real_queue_push settings.real_queue_push_enabled) _ h1 in
      let (d3, e3, h3) =
        bind_returned (refuse worker_execution settings.worker_execution_enabled) _ h2 in
      (
        refuse_lem real_sending settings.real_message_sending_enabled d1 e1,
        refuse_lem real_queue_push settings.real_queue_push_enabled d2 e2,
        refuse_lem worker_execution settings.worker_execution_enabled d3 e3,
        refuse_lem channel_connectors settings.channel_connectors_enabled done h3,
      ),
  λ (a, b, c, d). rw (a, b, c, d) refl,
)
