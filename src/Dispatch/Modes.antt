-- ===== src/Dispatch/Modes.antt =====
-- What dry run, shadow mode and the consent gate let through.
use senderplatformtest.Prelude.{
  ◌≡◌, refl, ap, ◌∙◌, true, false, Option, none, some, ◌∷◌, arith, subst, Option-cases, Bool-cases,
  str_eq, Result, ok, raise, ◌>>=◌, bind_returned, inl, inr, ◌⊎◌,
}
use senderplatformtest.Platform.{platform_value, SendStatus}
use senderplatformtest.Consent.{ConsentDb, BlockReason, get_consent_block_reason}
use senderplatformtest.Dispatch.{
  MessagePayload, RawPayload, World, Settings, Handlers, Response, DispatchError,
  payload_dict_to_message_payload, model_dump, apply_shadow_recipient, is_shadow,
  record_message_log,
}
use senderplatformtest.Dispatch.Sending.{
  block_status, gate, reason_gate, consent_gate, check_consent_or_log, dispatch_response, push,
  send, dispatch_sent, dispatch_payload, dispatch_checked, dispatch_message, enqueue_response,
  enqueue_dry_run, enqueue_checked, enqueue_message, dispatch_enqueued, send_message_via_queue,
}

-- The consent check found the session and no reason against the message.
pub record Permits (db : Option ConsentDb) (m : MessagePayload) : Type 0 where
  pub session : ConsentDb
  pub found : db ≡ some session
  pub allowed :
      get_consent_block_reason session m.contact_id (some (platform_value m.platform)) ≡ none

-- What a call adds to what the channel's handler saw.
abbrev pub Reaches : MessagePayload → World → World → Type 0
Reaches to w w' = (w'.sent ≡ w.sent) ⊎ (w'.sent ≡ to ∷ w.sent)

reason_gate-none :
    (m : MessagePayload) (o : Option BlockReason) (w : World) → reason_gate m o w ≡ none → o ≡ none
unfolding reason_gate
reason_gate-none m none w h = refl
reason_gate-none m (some reason) w h = cc

consent_gate-none :
    (db : Option ConsentDb) (m : MessagePayload) (w : World)
    → consent_gate db m w ≡ none
    → Permits db m
unfolding consent_gate
consent_gate-none none m w h = cc
consent_gate-none (some session) m w h = record {
  session = session;
  found = refl;
  allowed =
      reason_gate-none m
        (get_consent_block_reason session m.contact_id (some (platform_value m.platform))) w h;
}

-- What the gate's response says and leaves.
abbrev Gated : World → Response → World → Type 0
Gated w response w' =
    (w'.logs ≡ response.log ∷ w.logs)
    × (w'.pushed ≡ w.pushed)
    × (w'.sent ≡ w.sent)
    × (response.queue_payload ≡ none)

gate-Gated :
    (m : MessagePayload) (status : SendStatus) (reason : Option BlockReason) (w : World)
    → (response : Response) (w' : World)
    → Path (Option (Response × World)) (some (gate m status reason w)) (some (response, w'))
    → Gated w response w'
unfolding gate record_message_log
gate-Gated m status reason w response w' h = ground arith

reason_gate-some :
    (m : MessagePayload) (o : Option BlockReason) (w : World) (response : Response) (w' : World)
    → reason_gate m o w ≡ some (response, w')
    → Gated w response w'
unfolding reason_gate
reason_gate-some m none w response w' h = cc
reason_gate-some m (some reason) w response w' h =
    gate-Gated m (block_status reason) (some reason) w response w' h

consent_gate-some :
    (db : Option ConsentDb) (m : MessagePayload) (w : World) (response : Response) (w' : World)
    → consent_gate db m w ≡ some (response, w')
    → Gated w response w'
unfolding consent_gate
consent_gate-some none m w response w' h =
    gate-Gated m SendStatus.failed_retryable none w response w' h
consent_gate-some (some session) m w response w' h =
    reason_gate-some m
      (get_consent_block_reason session m.contact_id (some (platform_value m.platform))) w response
      w' h

-- The front of `dispatch_message` and of `enqueue_message`, after the payload is read as `p`.
abbrev front :
    Result DispatchError MessagePayload
    → Result DispatchError (Option (Response × World))
    → (MessagePayload → Response × World)
    → Result DispatchError (Response × World)
front p blocked checked =
    blocked >>= λ b. elim b [ some response ↦ ok response | none ↦ p >>= λ m. ok (checked m) ]

-- The two ways in which it returns: the gate's response, or what comes after the gate.
abbrev Passed :
    Option ConsentDb
    → Result DispatchError MessagePayload
    → World
    → (MessagePayload → Response × World)
    → Response × World
    → Type 0
Passed db p w checked r =
    Gated w r.0 r.1 ⊎ ((m : MessagePayload) × (p ≡ ok m) × Permits db m × (checked m ≡ r))

front-gate :
    (db : Option ConsentDb) (m : MessagePayload) (w : World) (o : Option (Response × World))
    → (checked : MessagePayload → Response × World) (r : Response × World) → consent_gate db m w ≡ o
    → front (ok m) (ok o) checked ≡ ok r
    → Passed db (ok m) w checked r
front-gate db m w none checked r e h =
    let same : checked m ≡ r = cc in inr (m, refl, consent_gate-none db m w e, same)
front-gate db m w (some s) checked r e h =
    let same : s ≡ r = cc in inl (consent_gate-some db m w r.0 r.1 (e ∙ ap some same))

front-Passed :
    (p : Result DispatchError MessagePayload) (db : Option ConsentDb) (w : World)
    → (checked : MessagePayload → Response × World) (r : Response × World)
    → front p (p >>= λ m. ok (consent_gate db m w)) checked ≡ ok r
    → Passed db p w checked r
front-Passed (raise err) db w checked r h = cc
front-Passed (ok m) db w checked r h = front-gate db m w (consent_gate db m w) checked r refl h

dispatch_checked-logs :
    (settings : Settings) (handlers : Handlers) (m : MessagePayload) (w : World)
    → let (response, w') = dispatch_checked settings handlers m w in w'.logs ≡ response.log ∷ w.logs
unfolding dispatch_checked dispatch_sent dispatch_response push send record_message_log
dispatch_checked-logs settings handlers m w = ground arith

dispatch_checked-sent :
    (settings : Settings) (handlers : Handlers) (m : MessagePayload) (w : World)
    → let (response, w') = dispatch_checked settings handlers m w in
      (w'.sent ≡ w.sent)
      ⊎ ((settings.dry_run ≡ false) × (w'.sent ≡ dispatch_payload settings m ∷ w.sent))
unfolding dispatch_checked dispatch_sent dispatch_response push send record_message_log
dispatch_checked-sent settings handlers m w = ground arith

-- A call of `dispatch_message` that returns: it writes one entry to the log, the one that its
-- response carries.
pub dispatch_message-logged :
    (settings : Settings) (handlers : Handlers) (db : Option ConsentDb) (raw : RawPayload)
    → (w : World) (r : Response × World) → dispatch_message settings handlers db raw w ≡ ok r
    → r.1.logs ≡ r.0.log ∷ w.logs
unfolding dispatch_message check_consent_or_log
dispatch_message-logged settings handlers db raw w r h =
    elim (front-Passed (payload_dict_to_message_payload raw) db w
      (λ m. dispatch_checked settings handlers m w) r h) [
        | inl gated ↦ gated.0
        | inr (m, e, permits, same) ↦
            subst (λ x. x.1.logs ≡ x.0.log ∷ w.logs) same
              (dispatch_checked-logs settings handlers m w)
      ]

-- Whom the message that leaves is for: in shadow mode with a shadow phone it is for that phone, and
-- otherwise the message is as it was.
abbrev pub AddressedTo : Settings → MessagePayload → MessagePayload → Type 0
AddressedTo settings m to =
    ((settings.shadow_mode ≡ true)
      × (str_eq settings.shadow_phone_number "" ≡ false)
      × (to ≡ record m { chat_identifier = settings.shadow_phone_number }))
    ⊎ (((settings.shadow_mode ≡ false) ⊎ (str_eq settings.shadow_phone_number "" ≡ true))
        × (to ≡ m))

dispatch_payload-AddressedTo :
    (settings : Settings) (m : MessagePayload)
    → AddressedTo settings m (dispatch_payload settings m)
unfolding dispatch_payload apply_shadow_recipient is_shadow
dispatch_payload-AddressedTo settings m = elim (Bool-cases settings.shadow_mode) [
  | inr off ↦ inr (inl off, rw off refl)
  | inl on ↦ elim (Bool-cases (str_eq settings.shadow_phone_number "")) [
    | inl no_phone ↦ inr (inr no_phone, rw (on, no_phone) refl)
    | inr phone ↦ inl (on, phone, rw (on, phone) refl)
  ]
]

-- What `dispatch_message` may let the channel's handler see.
pub data Audience (settings : Settings) (db : Option ConsentDb) (raw : RawPayload) (w w' : World)
    : Type 0 where
  nobody : w'.sent ≡ w.sent → Audience settings db raw w w'
  recipient :
      (m to : MessagePayload)
      → payload_dict_to_message_payload raw ≡ ok m
      → Permits db m
      → settings.dry_run ≡ false
      → AddressedTo settings m to
      → w'.sent ≡ to ∷ w.sent
      → Audience settings db raw w w'

-- A call of `dispatch_message` that returns sends nothing, or it sends one message: then dry run is
-- off, the consent check found its session and no reason against the contact, and the message is
-- the payload's, with the shadow phone for its recipient in shadow mode with such a phone. In shadow
-- mode without a phone it goes to its own recipient.
pub dispatch_message-Audience :
    (settings : Settings) (handlers : Handlers) (db : Option ConsentDb) (raw : RawPayload)
    → (w : World) (r : Response × World) → dispatch_message settings handlers db raw w ≡ ok r
    → Audience settings db raw w r.1
unfolding dispatch_message check_consent_or_log
dispatch_message-Audience settings handlers db raw w r h =
    elim (front-Passed (payload_dict_to_message_payload raw) db w
      (λ m. dispatch_checked settings handlers m w) r h) [
        | inl gated ↦ nobody gated.2
        | inr (m, e, permits, same) ↦ elim (dispatch_checked-sent settings handlers m w) [
          | inl kept ↦ nobody (subst (λ x. x.1.sent ≡ w.sent) same kept)
          | inr (live, sent) ↦
              recipient m (dispatch_payload settings m) e permits live
                (dispatch_payload-AddressedTo settings m)
                (subst (λ x. x.1.sent ≡ dispatch_payload settings m ∷ w.sent) same sent)
        ]
      ]

enqueue_checked-keeps :
    (settings : Settings) (m : MessagePayload) (w : World)
    → let (response, w') = enqueue_checked settings m w in
      (w'.sent ≡ w.sent)
      × (w'.pushed ≡ w.pushed)
      × (settings.dry_run ≡ true → response.queue_payload ≡ none)
unfolding enqueue_checked enqueue_response enqueue_dry_run record_message_log
enqueue_checked-keeps settings m w = ground arith

enqueue_message-keeps :
    (settings : Settings) (db : Option ConsentDb) (raw : RawPayload) (w : World)
    → (r : Response × World) → enqueue_message settings db raw w ≡ ok r
    → (r.1.sent ≡ w.sent)
      × (r.1.pushed ≡ w.pushed)
      × (settings.dry_run ≡ true → r.0.queue_payload ≡ none)
unfolding enqueue_message check_consent_or_log
enqueue_message-keeps settings db raw w r h =
    elim (front-Passed (payload_dict_to_message_payload raw) db w
      (λ m. enqueue_checked settings m w) r h) [
        | inl gated ↦ (gated.2, gated.1, λ dry. gated.3)
        | inr (m, e, permits, same) ↦
            subst
              (λ x.
                (x.1.sent ≡ w.sent)
                × (x.1.pushed ≡ w.pushed)
                × (settings.dry_run ≡ true → x.0.queue_payload ≡ none))
              same (enqueue_checked-keeps settings m w)
      ]

dispatch_enqueued-cases :
    (settings : Settings) (handlers : Handlers) (db : Option ConsentDb) (response : Response)
    → (w : World) (r : Response × World) → dispatch_enqueued settings handlers db response w ≡ ok r
    → ((response.queue_payload ≡ none) × ((response, w) ≡ r))
      ⊎ ((m : MessagePayload) × (response.queue_payload ≡ some m)
          × (dispatch_message settings handlers db (model_dump m) w ≡ ok r))
unfolding dispatch_enqueued
dispatch_enqueued-cases settings handlers db response w r h =
    elim (Option-cases response.queue_payload) [
      | inl e ↦
          let same : Path (Result DispatchError (Response × World)) (ok (response, w)) (ok r) =
            ground (arith, h, e) in
          inl (e, cc)
      | inr (m, e) ↦ inr (m, e, ground (arith, h, e))
    ]

-- `send_message_via_queue` in dry run, where it returns: neither of the two handlers sees a message.
pub send_message_via_queue-dry_run :
    (settings : Settings) (handlers : Handlers) (db fresh : Option ConsentDb) (raw : RawPayload)
    → (w : World) (r : Response × World) → settings.dry_run ≡ true
    → send_message_via_queue settings handlers db fresh raw w ≡ ok r
    → (r.1.sent ≡ w.sent) × (r.1.pushed ≡ w.pushed)
unfolding send_message_via_queue
send_message_via_queue-dry_run settings handlers db fresh raw w r dry h =
    let (r1, e, rest) = bind_returned (enqueue_message settings db raw w) _ h in
    let (sent, pushed, none_e) = enqueue_message-keeps settings db raw w r1 e in
    elim (dispatch_enqueued-cases settings handlers fresh r1.0 r1.1 r rest) [
      | inl (nothing_left, same) ↦
          (subst (λ x. x.1.sent ≡ w.sent) same sent, subst (λ x. x.1.pushed ≡ w.pushed) same pushed)
      | inr (m, some_e, later) ↦ let e0 = none_e dry in cc
    ]

AddressedTo-shadow :
    (settings : Settings) (m to : MessagePayload)
    → is_shadow settings ≡ true
    → AddressedTo settings m to
    → to.chat_identifier ≡ settings.shadow_phone_number
unfolding is_shadow
AddressedTo-shadow settings m to shadow (inl (on, phone, same)) = ap (λ x. x.chat_identifier) same
AddressedTo-shadow settings m to shadow (inr (inl off, same)) = ground (arith, shadow, off)
AddressedTo-shadow settings m to shadow (inr (inr no_phone, same)) =
    ground (arith, shadow, no_phone)

-- `send_message_via_queue` in shadow mode with a phone number, where it returns: the channel's
-- handler sees no message, or one that is addressed to the shadow phone.
pub send_message_via_queue-shadow :
    (settings : Settings) (handlers : Handlers) (db fresh : Option ConsentDb) (raw : RawPayload)
    → (w : World) (r : Response × World) → is_shadow settings ≡ true
    → send_message_via_queue settings handlers db fresh raw w ≡ ok r
    → (r.1.sent ≡ w.sent)
      ⊎ ((to : MessagePayload) × (to.chat_identifier ≡ settings.shadow_phone_number)
          × (r.1.sent ≡ to ∷ w.sent))
unfolding send_message_via_queue
send_message_via_queue-shadow settings handlers db fresh raw w r shadow h =
    let (r1, e, rest) = bind_returned (enqueue_message settings db raw w) _ h in
    let (sent, pushed, none_e) = enqueue_message-keeps settings db raw w r1 e in
    elim (dispatch_enqueued-cases settings handlers fresh r1.0 r1.1 r rest) [
      | inl (nothing_left, same) ↦ inl (subst (λ x. x.1.sent ≡ w.sent) same sent)
      | inr (m, some_e, later) ↦
          elim (dispatch_message-Audience settings handlers fresh (model_dump m) r1.1 r later) [
            | nobody kept ↦ inl (kept ∙ sent)
            | recipient m' to e' permits live addressed reached ↦ inr (
              to,
              AddressedTo-shadow settings m' to shadow addressed,
              reached ∙ ap (λ l. to ∷ l) sent,
            )
          ]
    ]
