-- ===== src/Consent.antt =====
-- Opt-in, opt-out and the blacklist: multi-messaging-platform/core_engine/services/
-- consent_service.py. The session's tables are the state; a database that fails is left out here
-- (consent_gate catches it, see Dispatch).
pub mod Laws
use senderplatformtest.Prelude.{
  ℕ, Bool, true, false, not, ◌||◌, Option, none, some, List, [], ◌∷◌, String, ◌==◌, if◌then◌else◌,
  str_eq,
}
use senderplatformtest.Platform.{PlatformType, platform_eq, platform_of}

pub record Contact : Type 0 where
  pub blacklisted : Bool

pub record OptEvent : Type 0 where
  pub contact_id : ℕ
  pub opted_in : Bool
  pub channel : Option PlatformType
  pub reason : Option String

pub record AuditLog : Type 0 where
  pub username : String
  pub action : String
  pub resource_id : ℕ
  pub platform : Option String
  pub reason : String

-- The events stand newest first, as `ORDER BY timestamp DESC, id DESC` gives them.
pub record ConsentDb : Type 0 where
  pub contact : ℕ → Option Contact
  pub events : List OptEvent
  pub audits : List AuditLog

unfoldable pub parse_platform : Option String → Option PlatformType
parse_platform none = none
parse_platform (some text) = if str_eq text "" then none else platform_of text

-- event.channel is None or event.channel == platform_enum
abbrev pub applies : Option PlatformType → Option PlatformType → Bool
applies none p = true
applies (some c) none = false
applies (some c) (some p) = platform_eq c p

-- The loop over the contact's events; the query's filter is the first test.
unfoldable pub latest_of : ℕ → Option PlatformType → List OptEvent → Bool
latest_of contact_id platform [] = true
latest_of contact_id platform (e ∷ events) =
    let rest = latest_of contact_id platform events in
    if e.contact_id == contact_id
    then (if applies e.channel platform then e.opted_in else rest)
    else rest

unfoldable pub latest_event_opted_in : ConsentDb → ℕ → Option String → Bool
latest_event_opted_in db contact_id platform =
    latest_of contact_id (parse_platform platform) db.events

-- reason or None
abbrev reason_or_none : String → Option String
reason_or_none reason = if str_eq reason "" then none else some reason

unfoldable pub record_event :
    Bool → String → ConsentDb → ℕ → Option String → String → String → ConsentDb
record_event opted_in action db contact_id platform reason username = record {
  contact =
      λ i. if i == contact_id then some (record { blacklisted = not opted_in }) else db.contact i;
  events =
      record {
        contact_id = contact_id;
        opted_in = opted_in;
        channel = parse_platform platform;
        reason = reason_or_none reason;
      }
      ∷ db.events;
  audits =
      record {
        username = username;
        action = action;
        resource_id = contact_id;
        platform = platform;
        reason = reason;
      }
      ∷ db.audits;
}

-- `none` is the `ValueError` for a contact that is not there.
unfoldable pub record_opt_in : ConsentDb → ℕ → Option String → String → String → Option ConsentDb
unfolding record_event
record_opt_in db contact_id platform reason username = elim (db.contact contact_id) [
  | none ↦ none
  | some c ↦ some (record_event true "record_opt_in" db contact_id platform reason username)
]

unfoldable pub record_opt_out : ConsentDb → ℕ → Option String → String → String → Option ConsentDb
unfolding record_event
record_opt_out db contact_id platform reason username = elim (db.contact contact_id) [
  | none ↦ none
  | some c ↦ some (record_event false "record_opt_out" db contact_id platform reason username)
]

unfoldable pub has_opted_in : ConsentDb → ℕ → Option String → Bool
has_opted_in db contact_id platform = elim (db.contact contact_id) [
  | none ↦ false
  | some c ↦ if c.blacklisted then false else latest_event_opted_in db contact_id platform
]

pub data BlockReason : Type 0 where
  opted_out blacklisted : BlockReason

unfoldable pub get_consent_block_reason : ConsentDb → ℕ → Option String → Option BlockReason
get_consent_block_reason db contact_id platform = elim (db.contact contact_id) [
  | none ↦ none
  | some c ↦
      if not (latest_event_opted_in db contact_id platform)
      then some opted_out
      else if c.blacklisted
      then some blacklisted
      else none
]
