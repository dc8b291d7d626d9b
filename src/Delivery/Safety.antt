-- ===== src/Delivery/Safety.antt =====
-- When a live connector is called, and what the other branches report.
use senderplatformtest.Prelude.{
  Result-cases, inl, inr, ◌≡◌, ◌≢◌, true, false, none, some, String, ◌⊎◌, arith, str_eq, Result, ok,
  raise,
}
use senderplatformtest.Payloads.{WorkerPayload, WorkerResult, WorkerException, WorkerSettings}
use senderplatformtest.Delivery.{Connector, bale, telegram, rubika, deliver_platform_message}

-- All gates are open: neither a dry run nor shadow mode, and both kinds of live sending enabled.
pub record IsLive (settings : WorkerSettings) : Type 0 where
  pub no_dry_run : settings.dry_run ≡ false
  pub no_shadow : settings.shadow_mode ≡ false
  pub real : settings.real_message_sending_enabled ≡ true
  pub connectors : settings.channel_connectors_enabled ≡ true

-- The channel that a connector serves.
abbrev pub serves : Connector → String
serves bale = "bale"
serves telegram = "telegram"
serves rubika = "rubika"
serves _ = "whatsapp"

module _
    (deliver_live : Connector
      → WorkerPayload
      → WorkerSettings
      → Result WorkerException WorkerResult)
    (nonce platform : String) (payload : WorkerPayload) (settings : WorkerSettings) where
  -- A connector is called only with all gates open, it is one of the worker's own channel, and the
  -- result is the connector's.
  pub connector_needs_gates :
      (c : Connector)
      → (deliver_platform_message deliver_live nonce platform payload settings).called ≡ some c
      → IsLive settings
        × (str_eq platform (serves c) ≡ true)
        × ((deliver_platform_message deliver_live nonce platform payload settings).result
            ≡ deliver_live c payload settings)
  unfolding deliver_platform_message
  connector_needs_gates c e = ground arith

  nothing_raised :
      (deliver_platform_message deliver_live nonce platform payload settings).called ≡ none
      → (x : WorkerException)
      → (deliver_platform_message deliver_live nonce platform payload settings).result ≢ raise x
  unfolding deliver_platform_message
  nothing_raised e x h = ground arith

  simulation_result :
      (deliver_platform_message deliver_live nonce platform payload settings).called ≡ none
      → (r : WorkerResult)
      → (deliver_platform_message deliver_live nonce platform payload settings).result ≡ ok r
      → (r.retryable ≡ false)
        × ((r.success ≡ false)
            ⊎ ((r.status ≡ "dry_run") × (settings.dry_run ≡ true))
            ⊎ ((r.status ≡ "shadow_sent") × (settings.shadow_mode ≡ true)))
  unfolding deliver_platform_message
  simulation_result e r h = ground arith

  -- With no connector called there is a result, which does not ask for a retry; it is no success, or
  -- one of the two simulations, marked as such and only in the mode that it is named after.
  pub simulation_is_marked :
      (deliver_platform_message deliver_live nonce platform payload settings).called ≡ none
      → (r : WorkerResult) × ((deliver_platform_message deliver_live nonce platform payload
            settings).result
          ≡ ok r)
        × (r.retryable ≡ false)
        × ((r.success ≡ false)
            ⊎ ((r.status ≡ "dry_run") × (settings.dry_run ≡ true))
            ⊎ ((r.status ≡ "shadow_sent") × (settings.shadow_mode ≡ true)))
  simulation_is_marked e =
      let d = (deliver_platform_message deliver_live nonce platform payload settings).result in
      elim (Result-cases d) [
        | inr (x, h) ↦ absurd (nothing_raised e x h)
        | inl (r, h) ↦ let (final, kind) = simulation_result e r h in (r, h, final, kind)
      ]
