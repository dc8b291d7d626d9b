-- ===== src/Sessions/Limits.antt =====
-- How often a session is reconnected.
use senderplatformtest.Prelude.{
  ℕ, ◌+◌, ◌≤◌, ◌≡◌, refl, ap, sym, ◌∙◌, subst, true, false, some, List, [], ◌∷◌, length,
  length-append, All, arith, Option-cases, Bool-cases, inl, inr,
}
use senderplatformtest.Prelude.Text.{Text, codes, text_eq, text_eq-eq, lower, strip}
use senderplatformtest.Sessions.{
  ChannelSession, Outcome, quiet, or_blank, is_state, status_of, record_disconnect_event,
  mark_yellow, attempt, process_disconnected, process_account, reconnect_round, normalize_status,
  sync_one, is_logout, receive, Event, step, run,
}

-- The steps that no webhook takes.
abbrev pub IsInternal : Event → Type 0
IsInternal (Event.monitored now raw) = Unit
IsInternal (Event.ticked now) = Unit
IsInternal (Event.updated now state reason) = ⊥

-- What one step adds to the attempts.
abbrev Counts : ChannelSession → Outcome → Type 0
Counts cs out =
    (out.session.reconnect_attempts ≡ length out.reconnects + cs.reconnect_attempts)
    × (cs.reconnect_attempts ≤ 3 → out.session.reconnect_attempts ≤ 3)

process_disconnected-Counts :
    (now : ℕ) (cs : ChannelSession) → Counts cs (process_disconnected now cs)
unfolding process_disconnected record_disconnect_event mark_yellow attempt
process_disconnected-Counts now cs = ground arith

sync_one-attempts :
    (now : ℕ) (s : Text) (cs : ChannelSession)
    → (sync_one now s cs).1.reconnect_attempts ≡ cs.reconnect_attempts
unfolding sync_one
sync_one-attempts now s cs = ground arith

status_of-disconnected :
    (cs : ChannelSession)
    → cs.evolution_status ≡ some (codes "disconnected")
    → text_eq (status_of cs) (codes "connected") ≡ false
unfolding status_of or_blank
status_of-disconnected cs e =
    subst (λ o. text_eq (lower (strip (or_blank o))) (codes "connected") ≡ false) (sym e) refl

process_account-Counts :
    (now : ℕ) (cs : ChannelSession)
    → cs.evolution_status ≡ some (codes "disconnected")
    → Counts cs (process_account now cs)
unfolding process_account quiet
process_account-Counts now cs e =
    ground (arith, status_of-disconnected cs e, process_disconnected-Counts now cs)

reconnect_round-Counts : (now : ℕ) (cs : ChannelSession) → Counts cs (reconnect_round now cs)
unfolding reconnect_round quiet
reconnect_round-Counts now cs = elim (Option-cases cs.evolution_status) [
  | inl e ↦ ground arith
  | inr (s, e) ↦ elim (Bool-cases (text_eq s (codes "disconnected"))) [
    | inr f ↦ ground arith
    | inl t ↦
        let same = process_account-Counts now cs (e ∙ ap some (text_eq-eq s _ t)) in
        ground (arith, same)
  ]
]

step-Counts : (e : Event) (cs : ChannelSession) → IsInternal e → Counts cs (step e cs)
unfolding step quiet
step-Counts (Event.monitored now raw) cs i =
    let same = sync_one-attempts now (normalize_status raw) cs in
    (omega (arith, same), λ h. omega (arith, same))
step-Counts (Event.ticked now) cs i = reconnect_round-Counts now cs
step-Counts (Event.updated now state reason) cs i = elim i [ ]

is_blocked :
    (cs : ChannelSession)
    → cs.authorization_state ≡ some "blocked"
    → is_state cs.authorization_state "blocked" ≡ true
unfolding is_state
is_blocked cs h = subst (λ o. is_state o "blocked" ≡ true) (sym h) refl

-- Without a webhook, over any sequence of the monitor's updates and the loop's rounds: a session
-- with at most three attempts is reconnected as often as its attempts grow, and never has more than
-- three of them.
pub run-attempts :
    (events : List Event) (cs : ChannelSession)
    → All IsInternal events
    → cs.reconnect_attempts ≤ 3
    → let (cs', reconnects) = run events cs in
      (cs'.reconnect_attempts ≡ length reconnects + cs.reconnect_attempts)
      × (cs'.reconnect_attempts ≤ 3)
unfolding run
run-attempts [] cs i h = (omega arith, h)
run-attempts (e ∷ events) cs (i, rest) h =
    let (grown, bound) = step-Counts e cs i in
    let (later, within) = run-attempts events (step e cs).session rest (bound h) in
    (
      omega (
        arith,
        grown,
        later,
        length-append (step e cs).reconnects (run events (step e cs).session).1,
      ),
      within,
    )

-- What a step does to a blocked session.
abbrev StaysBlocked : Outcome → Type 0
StaysBlocked out = (out.session.authorization_state ≡ some "blocked") × (out.reconnects ≡ [])

sync_one-authorization :
    (now : ℕ) (s : Text) (cs : ChannelSession)
    → (sync_one now s cs).1.authorization_state ≡ cs.authorization_state
unfolding sync_one
sync_one-authorization now s cs = ground arith

reconnect_round-blocked :
    (now : ℕ) (cs : ChannelSession)
    → cs.authorization_state ≡ some "blocked"
    → StaysBlocked (reconnect_round now cs)
unfolding reconnect_round process_account quiet
reconnect_round-blocked now cs h =
    let shut : is_state cs.authorization_state "blocked" ≡ true = is_blocked cs h in
    elim (Option-cases cs.evolution_status) [
      | inl e ↦ ground arith
      | inr (s, e) ↦ elim (Bool-cases (text_eq s (codes "disconnected"))) [
        | inr f ↦ ground arith
        | inl t ↦ ground (arith, status_of-disconnected cs (e ∙ ap some (text_eq-eq s _ t)))
      ]
    ]

step-StaysBlocked :
    (e : Event) (cs : ChannelSession)
    → IsInternal e
    → cs.authorization_state ≡ some "blocked"
    → StaysBlocked (step e cs)
unfolding step quiet
step-StaysBlocked (Event.monitored now raw) cs i h =
    (sync_one-authorization now (normalize_status raw) cs ∙ h, refl)
step-StaysBlocked (Event.ticked now) cs i h = reconnect_round-blocked now cs h
step-StaysBlocked (Event.updated now state reason) cs i h = elim i [ ]

run-StaysBlocked :
    (events : List Event) (cs : ChannelSession)
    → All IsInternal events
    → cs.authorization_state ≡ some "blocked"
    → (run events cs).1 ≡ []
unfolding run
run-StaysBlocked [] cs i h = refl
run-StaysBlocked (e ∷ events) cs (i, rest) h =
    let (stays, none_now) = step-StaysBlocked e cs i h in
    rw none_now (run-StaysBlocked events (step e cs).session rest stays)

receive-logout :
    (now : ℕ) (state : Text) (cs : ChannelSession)
    → (receive now state (some 401) cs).0.authorization_state ≡ some "blocked"
unfolding receive is_logout
receive-logout now state cs = refl

-- After a webhook with the reason 401, whatever its state and whatever the session was: until the
-- next webhook no sequence of the monitor's updates and the loop's rounds reconnects the account.
pub logout_stops_reconnects :
    (now : ℕ) (state : Text) (cs : ChannelSession) (events : List Event)
    → All IsInternal events
    → (run (Event.updated now state (some 401) ∷ events) cs).1 ≡ []
unfolding run step
logout_stops_reconnects now state cs events i =
    run-StaysBlocked events (receive now state (some 401) cs).0 i (receive-logout now state cs)
