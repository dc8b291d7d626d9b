-- ===== src/Sessions.antt =====
-- The state of an account's WhatsApp session and the three programs that move it:
-- multi-messaging-platform/workers/whatsapp_auto_reconnect.py, workers/whatsapp_health_monitor.py
-- and the receiver of core_engine/api/evolution_webhook.py. Times are seconds; the list of
-- disconnects is the decoded JSON, empty where there is none or it cannot be read.
pub mod Limits
use senderplatformtest.Prelude.{
  ℕ, suc, ◌+◌, Bool, true, false, not, ◌&&◌, ◌||◌, Option, none, some, List, [], ◌∷◌, ◌++◌, String,
  ltb, leb, ◌==◌, if◌then◌else◌, str_eq, length, filter,
}
use senderplatformtest.Prelude.Text.{
  Text, codes, text_eq, is_empty, is_digit, lower, strip, isdigit, int_from,
}
use mathlib.Core.List.{reverse}

pub record ChannelSession : Type 0 where
  pub account_id : ℕ
  pub evolution_status : Option Text
  pub authorization_state : Option String
  pub socket_state : Option String
  pub reconnect_attempts : ℕ
  pub disconnect_events : List ℕ
  pub last_disconnect_at : Option ℕ
  pub connected_at : Option ℕ
  pub disconnected_at : Option ℕ

pub data Alert : Type 0 where
  yellow_card : ℕ → ℕ → Alert
  reconnect_failed : ℕ → ℕ → Alert
  recovered : ℕ → Alert
  blocked : ℕ → Alert

-- A session after a step, the alerts that the step sends, and the accounts it reconnects.
pub record Outcome : Type 0 where
  pub session : ChannelSession
  pub alerts : List Alert
  pub reconnects : List ℕ

unfoldable pub quiet : ChannelSession → Outcome
quiet cs = record { session = cs; alerts = []; reconnects = [] }

max_reconnect_attempts : ℕ
max_reconnect_attempts = 3

-- `cs.authorization_state == state`, of a value that may be missing
unfoldable pub is_state : Option String → String → Bool
is_state none state = false
is_state (some s) state = str_eq s state

unfoldable pub or_blank : Option Text → Text
or_blank none = []
or_blank (some s) = s

-- (cs.evolution_status or "").strip().lower()
unfoldable pub status_of : ChannelSession → Text
unfolding or_blank
status_of cs = lower (strip (or_blank cs.evolution_status))

-- `_record_disconnect_event`, with the window of ten minutes.
unfoldable pub record_disconnect_event : ℕ → ChannelSession → ℕ × ChannelSession
record_disconnect_event now cs =
    let events = filter (λ e. leb now (e + 600)) (cs.disconnect_events ++ now ∷ []) in
    (length events, record cs { disconnect_events = events })

unfoldable pub recovered_session : ChannelSession → ChannelSession
recovered_session cs = record cs {
  reconnect_attempts = 0;
  socket_state = some "online";
  authorization_state = some "authorized";
}

-- The yellow card, and its alert on the way into that state.
unfoldable pub mark_yellow : ℕ → ChannelSession → ChannelSession × List Alert
mark_yellow recent_count cs =
    if leb 3 recent_count && not (is_state cs.authorization_state "blocked")
    then (
      record cs { authorization_state = some "yellow_card" },
      if is_state cs.authorization_state "yellow_card"
          then []
          else yellow_card cs.account_id recent_count ∷ [],
    )
    else (cs, [])

-- The attempt, unless there were three.
unfoldable pub attempt : ChannelSession × List Alert → Outcome
unfolding max_reconnect_attempts
attempt (cs, alerts) =
    if leb max_reconnect_attempts cs.reconnect_attempts
    then record {
      session = cs;
      alerts = alerts ++ reconnect_failed cs.account_id cs.reconnect_attempts ∷ [];
      reconnects = [];
    }
    else record {
      session = record cs { reconnect_attempts = cs.reconnect_attempts + 1 };
      alerts = alerts;
      reconnects = cs.account_id ∷ [];
    }

unfoldable pub process_disconnected : ℕ → ChannelSession → Outcome
process_disconnected now cs =
    let (recent_count, cs') =
      record_disconnect_event now (record cs { socket_state = some "offline" }) in
    attempt (mark_yellow recent_count (record cs' { last_disconnect_at = some now }))

-- `_process_account`
unfoldable pub process_account : ℕ → ChannelSession → Outcome
process_account now cs =
    if text_eq (status_of cs) (codes "connected")
    then quiet (recovered_session cs)
    else if is_state cs.authorization_state "blocked"
    then quiet cs
    else if text_eq (status_of cs) (codes "disconnected")
    then process_disconnected now cs
    else quiet cs

-- `_loop` at one session: the query takes the disconnected ones.
unfoldable pub reconnect_round : ℕ → ChannelSession → Outcome
reconnect_round now cs = elim cs.evolution_status [
  | none ↦ quiet cs
  | some s ↦ if text_eq s (codes "disconnected") then process_account now cs else quiet cs
]

-- `_normalize_status` of the monitor, `_normalize_state` of the webhook
unfoldable pub normalize_status : Text → Text
normalize_status raw =
    let s = lower (strip raw) in
    if text_eq s (codes "open")
    then codes "connected"
    else if text_eq s (codes "close") || text_eq s (codes "closed")
    then codes "disconnected"
    else if text_eq s (codes "connecting")
    then codes "connecting"
    else if is_empty s
    then codes "unknown"
    else s

-- `_sync_one` of the monitor: whether the session changed, and what it is.
unfoldable pub sync_one : ℕ → Text → ChannelSession → Bool × ChannelSession
sync_one now new_status cs =
    if text_eq (status_of cs) new_status
    then (false, cs)
    else (let cs' = record cs { evolution_status = some new_status } in
        if text_eq new_status (codes "connected")
        then (true, record cs' { connected_at = some now; disconnected_at = none })
        else if text_eq new_status (codes "disconnected")
        then (true, record cs' { disconnected_at = some now })
        else (true, cs'))

unfoldable pub is_logout : Option ℕ → Bool
is_logout none = false
is_logout (some reason) = reason == 401

-- The receiver's part for the state, before the reason is looked at.
unfoldable pub receive_state : ℕ → Text → Bool → ChannelSession → ChannelSession × List Alert
receive_state now normalized logout cs =
    let cs' = record cs { evolution_status = some normalized } in
    if text_eq normalized (codes "connected")
    then (
      record cs' {
        connected_at = some now;
        disconnected_at = none;
        authorization_state = some "authorized";
        socket_state = some "online";
        reconnect_attempts = 0;
      },
      if is_state cs.authorization_state "authorized" || logout
          then []
          else recovered cs.account_id ∷ [],
    )
    else if text_eq normalized (codes "disconnected")
    then (record cs' { disconnected_at = some now; socket_state = some "offline" }, [])
    else (cs', [])

-- `evolution_webhook_receiver` at a session: a connection.update with a state and a reason.
unfoldable pub receive : ℕ → Text → Option ℕ → ChannelSession → ChannelSession × List Alert
unfolding is_logout
receive now state reason cs =
    let (cs', alerts) = receive_state now (normalize_status state) (is_logout reason) cs in
    if is_logout reason
    then (
      record cs' { authorization_state = some "blocked"; socket_state = some "offline" },
      alerts
          ++ (if is_state cs.authorization_state "blocked" then [] else blocked cs.account_id ∷ []),
    )
    else (cs', alerts)

-- The steps of the three programs at one session.
pub data Event : Type 0 where
  monitored : ℕ → Text → Event
  ticked : ℕ → Event
  updated : ℕ → Text → Option ℕ → Event

unfoldable pub step : Event → ChannelSession → Outcome
step (monitored now raw) cs = quiet (sync_one now (normalize_status raw) cs).1
step (ticked now) cs = reconnect_round now cs
step (updated now state reason) cs =
    let (cs', alerts) = receive now state reason cs in
    record { session = cs'; alerts = alerts; reconnects = [] }

-- The session after a sequence of steps, and all that they reconnect.
unfoldable pub run : List Event → ChannelSession → ChannelSession × List ℕ
run [] cs = (cs, [])
run (e ∷ events) cs =
    let out = step e cs in let (cs', rest) = run events out.session in (cs', out.reconnects ++ rest)
