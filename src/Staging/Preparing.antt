-- ===== src/Staging/Preparing.antt =====
-- The loop of `prepare_campaign_messages` and what is around it (multi-messaging-platform/
-- core_engine/services/phase4_prepare.py).
use senderplatformtest.Prelude.{
  ℕ, ◌+◌, ◌-◌, Bool, not, ◌&&◌, ◌||◌, Option, none, some, List, [], ◌∷◌, ◌++◌, ltb, leb,
  if◌then◌else◌, length, filter, Result, ok, raise, ◌>>=◌,
}
use senderplatformtest.Platform.{prepared, ready}
use senderplatformtest.Baileys.{QueuePayload}
use senderplatformtest.QueueBridge.{StagedQueueItem}
use senderplatformtest.Phase4.{build_staged_queue_payload}
use senderplatformtest.Staging.{
  Contact, Campaign, Request, PrepareError, real_rendering_disabled, campaign_not_found,
  no_valid_snapshot, invalid_consent_status, invalid_payload, commit_failed,
  build_phase4_mock_final_text, compute_effective_limit, allowed_contacts_list, is_blocked_contact,
  existing_staged, dict_values, is_ready_item, ready_count,
}

-- What the loop carries. The sequences of the database give the ids.
pub record Progress : Type 0 where
  pub staged : List StagedQueueItem
  pub returned_items : List StagedQueueItem
  pub already_staged_count : ℕ
  pub newly_staged_count : ℕ
  pub next_id : ℕ
  pub next_rendered_id : ℕ

-- A contact that has a row.
unfoldable pub take_existing : StagedQueueItem → Progress → Progress
take_existing item p =
    if is_ready_item item
    then record p {
      already_staged_count = p.already_staged_count + 1;
      returned_items = p.returned_items ++ item ∷ [];
    }
    else p

unfoldable pub new_row : Campaign → Contact → ℕ → QueuePayload → StagedQueueItem
new_row campaign contact id payload = record {
  id = id;
  campaign_id = campaign.id;
  contact_id = contact.id;
  channel = campaign.channel;
  status = ready;
  skip_reason = none;
  queue_payload = payload;
}

unfoldable pub add_row : StagedQueueItem → Progress → Progress
add_row item p = record p {
  staged = p.staged ++ item ∷ [];
  returned_items = p.returned_items ++ item ∷ [];
  newly_staged_count = p.newly_staged_count + 1;
  next_id = p.next_id + 1;
  next_rendered_id = p.next_rendered_id + 1;
}

unfoldable pub stage_payload :
    Campaign → Contact → Progress → Option QueuePayload → Result PrepareError Progress
stage_payload campaign contact p none = raise invalid_payload
stage_payload campaign contact p (some payload) =
    ok (add_row (new_row campaign contact p.next_id payload) p)

-- A contact that has no row.
unfoldable pub stage_new : Campaign → ℕ → Contact → Progress → Result PrepareError Progress
stage_new campaign new_ready_slots contact p =
    if leb new_ready_slots p.newly_staged_count
    then ok p
    else stage_payload campaign contact p (
        build_staged_queue_payload campaign.id contact.id (some p.next_rendered_id) campaign.channel
          contact.phone contact.channel_handle (build_phase4_mock_final_text contact campaign))

-- One round of the loop, given the contact's row.
unfoldable pub stage_found :
    Campaign → ℕ → Contact → Progress → Option StagedQueueItem → Result PrepareError Progress
stage_found campaign new_ready_slots contact p (some item) = ok (take_existing item p)
stage_found campaign new_ready_slots contact p none = stage_new campaign new_ready_slots contact p

unfoldable pub stage_contacts :
    Campaign → ℕ → List Contact → Progress → Result PrepareError Progress
stage_contacts campaign new_ready_slots [] p = ok p
stage_contacts campaign new_ready_slots (contact ∷ contacts) p =
    stage_found campaign new_ready_slots contact p (existing_staged contact.id p.staged)
    >>= stage_contacts campaign new_ready_slots contacts

pub record Prepared : Type 0 where
  pub campaign : Campaign
  pub staged : List StagedQueueItem
  pub returned_items : List StagedQueueItem
  pub total_contacts : ℕ
  pub allowed_contacts : ℕ
  pub skipped_contacts : ℕ
  pub ready : ℕ
  pub blocked_count : ℕ
  pub already_staged_count : ℕ
  pub newly_staged_count : ℕ
  pub limit_applied : Option ℕ

-- The rows after the loop and the answer.
unfoldable pub finish_prepare : Campaign → List Contact → ℕ → ℕ → ℕ → Progress → Prepared
finish_prepare campaign contacts allowed_contacts effective_limit existing_ready_count p =
    let ready = ready_count p.returned_items in
    record {
      campaign =
          if ltb 0 ready || ltb 0 existing_ready_count
          then record campaign { status = prepared }
          else campaign;
      staged = p.staged;
      returned_items = p.returned_items;
      total_contacts = length contacts;
      allowed_contacts = allowed_contacts;
      skipped_contacts = length contacts - allowed_contacts;
      ready = ready;
      blocked_count = length (filter is_blocked_contact contacts);
      already_staged_count = p.already_staged_count;
      newly_staged_count = p.newly_staged_count;
      limit_applied = if ltb effective_limit allowed_contacts then some effective_limit else none;
    }

unfoldable pub start : List StagedQueueItem → ℕ → ℕ → Progress
start staged next_id next_rendered_id = record {
  staged = staged;
  returned_items = [];
  already_staged_count = 0;
  newly_staged_count = 0;
  next_id = next_id;
  next_rendered_id = next_rendered_id;
}

-- the commit
unfoldable pub committed : Bool → Prepared → Result PrepareError Prepared
committed commits prepared_now = if commits then ok prepared_now else raise commit_failed

unfoldable pub prepare_allowed :
    Bool
    → Request
    → Campaign
    → List Contact
    → List StagedQueueItem
    → ℕ
    → ℕ
    → List Contact
    → Result PrepareError Prepared
prepare_allowed commits request campaign contacts staged next_id next_rendered_id allowed_list =
    let effective_limit =
      compute_effective_limit (length allowed_list) request.limit campaign.daily_limit
        campaign.max_contacts in
    let existing_ready_count = ready_count (dict_values staged) in
    stage_contacts campaign (effective_limit - existing_ready_count) allowed_list
      (start staged next_id next_rendered_id)
    >>= λ p. committed commits (
        finish_prepare campaign contacts (length allowed_list) effective_limit existing_ready_count
          p)

-- `prepare_campaign_messages`; `snapshot` says whether there is a valid one.
unfoldable pub prepare_campaign_messages :
    Bool
    → Bool
    → Request
    → Option Campaign
    → List Contact
    → List StagedQueueItem
    → ℕ
    → ℕ
    → Result PrepareError Prepared
prepare_campaign_messages commits snapshot request found contacts staged next_id next_rendered_id =
    if not request.force_mock_output then raise real_rendering_disabled else elim found [
      | none ↦ raise campaign_not_found
      | some campaign ↦
          if campaign.include_products && not snapshot
          then raise no_valid_snapshot
          else elim (allowed_contacts_list contacts) [
            | none ↦ raise invalid_consent_status
            | some allowed_list ↦
                prepare_allowed commits request campaign contacts staged next_id next_rendered_id
                  allowed_list
          ]
    ]
