-- ===== src/Staging.antt =====
-- Staging the messages of a campaign: multi-messaging-platform/core_engine/services/
-- phase4_prepare.py and the summary of phase4_staging.py. The tables of one campaign are the state:
-- its contacts by ascending id and its rows of staged_queue_items. The product snapshot, and whether
-- the database takes the commit, are arguments; the rendered messages are their ids.
pub mod Preparing
pub mod Looping
pub mod Limiting
pub mod Accepting
use senderplatformtest.Prelude.{
  ℕ, zero, suc, ◌+◌, ◌-◌, min, Bool, true, false, not, ◌&&◌, ◌||◌, Option, none, some, List, [],
  ◌∷◌, ◌++◌, String, ltb, leb, ◌==◌, if◌then◌else◌, length, filter, Result, ok, raise, ◌>>=◌,
  str_eq,
}
use senderplatformtest.Platform.{CampaignStatus, prepared, StagedQueueItemStatus, ready}
use senderplatformtest.Baileys.{QueuePayload}
use senderplatformtest.Validation.{strip_string}
use senderplatformtest.QueueBridge.{StagedQueueItem, is_ready}
use senderplatformtest.Phase4.{
  plus, Consent, allowed, blocked, normalize_consent_status, build_full_name,
  build_staged_queue_payload,
}

pub record Contact : Type 0 where
  pub id : ℕ
  pub first_name : Option String
  pub last_name : Option String
  pub full_name : Option String
  pub phone : String
  pub channel_handle : Option String
  pub consent_status : String

pub record Campaign : Type 0 where
  pub id : ℕ
  pub channel : String
  pub message_goal : Option String
  pub status : CampaignStatus
  pub include_products : Bool
  pub daily_limit : Option ℕ
  pub max_contacts : Option ℕ

pub record Request : Type 0 where
  pub force_mock_output : Bool
  pub limit : Option ℕ

-- 400, 404, 400, an uncaught ValueError for a consent status or a payload, and 500.
pub data PrepareError : Type 0 where
  real_rendering_disabled : PrepareError
  campaign_not_found : PrepareError
  no_valid_snapshot : PrepareError
  invalid_consent_status : PrepareError
  invalid_payload : PrepareError
  commit_failed : PrepareError

or_text : Option String → String → String
or_text none b = b
or_text (some a) b = if str_eq a "" then b else a

-- The Persian parts of the text: "customer", "dear", the default goal, and the notice that this is
-- a dry run.
unfoldable default_name : String
default_name = "\u{645}\u{634}\u{62a}\u{631}\u{6cc}"

unfoldable dear : String
dear = " \u{639}\u{632}\u{6cc}\u{632}، "

unfoldable default_goal : String
default_goal =
    "\u{686}\u{646}\u{62f} \u{645}\u{62d}\u{635}\u{648}\u{644} \u{645}\u{648}\u{62c}\u{648}\u{62f} \u{628}\u{627} \u{642}\u{6cc}\u{645}\u{62a} \u{631}\u{648}\u{632}"

unfoldable notice : String
notice =
    " \u{622}\u{645}\u{627}\u{62f}\u{647} \u{628}\u{631}\u{631}\u{633}\u{6cc} \u{627}\u{633}\u{62a}. \u{627}\u{6cc}\u{646} \u{67e}\u{6cc}\u{627}\u{645} \u{641}\u{642}\u{637} \u{62a}\u{633}\u{62a} dry-run \u{627}\u{633}\u{62a} \u{648} \u{627}\u{631}\u{633}\u{627}\u{644} \u{648}\u{627}\u{642}\u{639}\u{6cc} \u{627}\u{646}\u{62c}\u{627}\u{645} \u{646}\u{634}\u{62f}\u{647}."

-- `build_phase4_mock_final_text`
unfoldable pub build_phase4_mock_final_text : Contact → Campaign → String
unfolding or_text default_name dear default_goal notice
build_phase4_mock_final_text contact campaign =
    let display_name =
      or_text contact.full_name
        (or_text (build_full_name contact.first_name contact.last_name) default_name) in
    let goal_hint = strip_string (or_text campaign.message_goal default_goal) in
    plus display_name (plus dear (plus goal_hint notice))

unfoldable pub at_most : Option ℕ → ℕ → ℕ
at_most none n = n
at_most (some limit) n = min n limit

-- `_compute_effective_limit`
unfoldable pub compute_effective_limit : ℕ → Option ℕ → Option ℕ → Option ℕ → ℕ
unfolding at_most
compute_effective_limit allowed_contacts request_limit daily_limit max_contacts =
    at_most max_contacts (at_most daily_limit (at_most request_limit allowed_contacts))

unfoldable pub is_allowed : Consent → Bool
is_allowed allowed = true
is_allowed _ = false

is_blocked : Consent → Bool
is_blocked blocked = true
is_blocked _ = false

unfoldable pub keep_allowed :
    Contact → Option Consent → Option (List Contact) → Option (List Contact)
unfolding is_allowed
keep_allowed contact none rest = none
keep_allowed contact (some consent) none = none
keep_allowed contact (some consent) (some rest) =
    some (if is_allowed consent then contact ∷ rest else rest)

-- [c for c in contacts if is_consent_allowed(c.consent_status)], with None where one raises
unfoldable pub allowed_contacts_list : List Contact → Option (List Contact)
unfolding keep_allowed
allowed_contacts_list [] = some []
allowed_contacts_list (c ∷ contacts) =
    keep_allowed c (normalize_consent_status (some c.consent_status))
      (allowed_contacts_list contacts)

unfoldable pub is_blocked_contact : Contact → Bool
unfolding is_blocked
is_blocked_contact c = elim (normalize_consent_status (some c.consent_status)) [
  | none ↦ false
  | some consent ↦ is_blocked consent
]

-- The dict from contacts to rows: the last row of a contact stands for it.
unfoldable pub has_row : ℕ → List StagedQueueItem → Bool
has_row contact_id [] = false
has_row contact_id (item ∷ items) = item.contact_id == contact_id || has_row contact_id items

unfoldable pub existing_staged : ℕ → List StagedQueueItem → Option StagedQueueItem
existing_staged contact_id [] = none
existing_staged contact_id (item ∷ items) =
    let later = existing_staged contact_id items in
    if has_row contact_id items
    then later
    else if item.contact_id == contact_id
    then some item
    else none

unfoldable pub dict_values : List StagedQueueItem → List StagedQueueItem
dict_values [] = []
dict_values (item ∷ items) =
    let rest = dict_values items in if has_row item.contact_id items then rest else item ∷ rest

abbrev pub is_ready_item : StagedQueueItem → Bool
is_ready_item item = is_ready item.status

unfoldable pub ready_count : List StagedQueueItem → ℕ
ready_count items = length (filter is_ready_item items)
