-- ===== src/Results.antt =====
-- How a worker's result reaches the database: `update_message_attempt_result` of
-- multi-messaging-platform/workers/db.py. The rows that it reads and writes are the state; times
-- and the texts of errors are left out, and that the ids of rows refer to rows is not checked.
mod Tables
unfoldable pub use Tables.{result_to_send_status, result_to_attempt_status}
pub mod Statuses
pub mod Recording
pub mod Repeating
use senderplatformtest.Prelude.{
  ℕ, zero, suc, ◌+◌, Bool, true, false, ◌&&◌, ◌||◌, Option, none, some, List, [], ◌∷◌, ◌++◌, String,
  ◌==◌, if◌then◌else◌, str_eq, Result, ok, raise,
}
use senderplatformtest.Platform.{SendStatus, MessageAttemptStatus}
use senderplatformtest.Payloads.{WorkerException, other_exception}
use senderplatformtest.Validation.{str}
use senderplatformtest.Phase4.{plus}

module _ {A : Type 0} where
  -- table.get(status)
  unfoldable pub get_status : String → List (String × A) → Option A
  get_status status [] = none
  get_status status ((key, value) ∷ table) =
      if str_eq key status then some value else get_status status table

  -- The two defaults behind a look-up that finds nothing.
  abbrev pub or_default : Option A → Option Bool → A → A → Option A
  or_default (some status) success yes_status no_status = some status
  or_default none none yes_status no_status = none
  or_default none (some true) yes_status no_status = some yes_status
  or_default none (some false) yes_status no_status = some no_status

unfoldable pub send_status_of : String → Option Bool → Option SendStatus
send_status_of status success =
    or_default (get_status status result_to_send_status) success SendStatus.delivered
      SendStatus.failed_permanent

unfoldable pub attempt_status_of : String → Option Bool → Option MessageAttemptStatus
attempt_status_of status success =
    or_default (get_status status result_to_attempt_status) success MessageAttemptStatus.success
      MessageAttemptStatus.failed_permanent

pub record CampaignRecipient : Type 0 where
  pub campaign_id : ℕ
  pub contact_id : ℕ
  pub send_status : SendStatus
  pub failure_reason : Option String
  pub final_message_id : Option ℕ

pub record Message : Type 0 where
  pub id : ℕ
  pub campaign_id : ℕ
  pub account_id : ℕ
  pub contact_id : ℕ
  pub rendered_text : String
  pub dedupe_key : String

pub record RenderedMessage : Type 0 where
  pub campaign_id : ℕ
  pub contact_id : ℕ
  pub final_text : String

pub record MessageAttempt : Type 0 where
  pub message_id : ℕ
  pub attempt_no : ℕ
  pub status : MessageAttemptStatus
  pub platform_message_id : Option String
  pub error_code : Option String

pub record Db : Type 0 where
  pub recipients : List CampaignRecipient
  pub messages : List Message
  pub next_message_id : ℕ
  pub rendered : ℕ → Option RenderedMessage
  pub attempts : List MessageAttempt

-- The arguments of a call; ids that `_coerce_int` cannot read are none.
pub record Report : Type 0 where
  pub message_id : Option ℕ
  pub attempt_no : ℕ
  pub status : String
  pub platform_message_id : Option String
  pub error_code : Option String
  pub campaign_id : Option ℕ
  pub contact_id : Option ℕ
  pub account_id : Option ℕ
  pub failure_reason : Option String
  pub success : Option Bool

-- session.get(Message, id)
unfoldable pub get_message : ℕ → List Message → Option Message
get_message id [] = none
get_message id (m ∷ messages) = if m.id == id then some m else get_message id messages

-- account_id_int or 1
abbrev or_one : Option ℕ → ℕ
or_one none = 1
or_one (some zero) = 1
or_one (some (suc n)) = suc n

-- f"rm_{message_id}_{campaign_id}_{contact_id}"
unfoldable pub rm_key : ℕ → ℕ → ℕ → String
unfolding plus
rm_key id campaign contact =
    plus "rm_" (plus (str id) (plus "_" (plus (str campaign) (plus "_" (str contact)))))

-- The column `dedupe_key` is unique.
unfoldable pub has_key : String → List Message → Bool
has_key key [] = false
has_key key (m ∷ messages) = str_eq m.dedupe_key key || has_key key messages

unfoldable pub new_message : Report → RenderedMessage → String → Db → Message
new_message r m key db = record {
  id = db.next_message_id;
  campaign_id = m.campaign_id;
  account_id = or_one r.account_id;
  contact_id = m.contact_id;
  rendered_text = m.final_text;
  dedupe_key = key;
}

-- The message for the recipient's `final_message_id`: the one with the id, or one that is made of the
-- rendered message with the id. The flush raises where the key is taken.
unfoldable pub find_or_create : Report → ℕ → ℕ → ℕ → Db → Result WorkerException (Option ℕ × Db)
unfolding new_message rm_key has_key
find_or_create r id campaign contact db = elim (get_message id db.messages) [
  | some m ↦ ok (some m.id, db)
  | none ↦ elim (db.rendered id) [
    | none ↦ ok (none, db)
    | some m ↦
        if has_key (rm_key id campaign contact) db.messages
        then raise other_exception
        else ok (
          some db.next_message_id,
          record db {
            messages = new_message r m (rm_key id campaign contact) db ∷ db.messages;
            next_message_id = db.next_message_id + 1;
          },
        )
  ]
]

-- failure_reason, where it is not empty
abbrev given : Option String → Bool
given none = false
given (some reason) = if str_eq reason "" then false else true

abbrev is_received : SendStatus → Bool
is_received SendStatus.delivered = true
is_received SendStatus.read = true
is_received _ = false

abbrev or_kept : Option ℕ → Option ℕ → Option ℕ
or_kept none kept = kept
or_kept (some id) kept = some id

-- The first recipient of the campaign and the contact.
unfoldable pub has_recipient : ℕ → ℕ → List CampaignRecipient → Bool
has_recipient campaign contact [] = false
has_recipient campaign contact (p ∷ recipients) =
    let rest = has_recipient campaign contact recipients in
    if p.campaign_id == campaign && p.contact_id == contact then true else rest

unfoldable pub mark : Report → SendStatus → Option ℕ → CampaignRecipient → CampaignRecipient
mark r status message p = record p {
  send_status = status;
  failure_reason =
      if given r.failure_reason
      then r.failure_reason
      else if is_received status
      then none
      else p.failure_reason;
  final_message_id = or_kept message p.final_message_id;
}

unfoldable pub mark_first :
    Report → SendStatus → Option ℕ → ℕ → ℕ → List CampaignRecipient → List CampaignRecipient
unfolding mark
mark_first r status message campaign contact [] = []
mark_first r status message campaign contact (p ∷ recipients) =
    let rest = p ∷ mark_first r status message campaign contact recipients in
    if p.campaign_id == campaign && p.contact_id == contact
    then mark r status message p ∷ recipients
    else rest

unfoldable pub message_part :
    Report → Option ℕ → ℕ → ℕ → Db → Result WorkerException (Option ℕ × Db)
message_part r none campaign contact db = ok (none, db)
message_part r (some id) campaign contact db = find_or_create r id campaign contact db

-- The recipient's part, once its ids and a status are known.
unfoldable pub update_recipient : Report → SendStatus → ℕ → ℕ → Db → Result WorkerException Db
update_recipient r status campaign contact db =
    if has_recipient campaign contact db.recipients
    then elim (message_part r r.message_id campaign contact db) [
      | raise e ↦ raise e
      | ok (message, db') ↦
          ok (record db' {
            recipients = mark_first r status message campaign contact db'.recipients;
          })
    ]
    else ok db

unfoldable pub recipient_part :
    Report → Option SendStatus → Option ℕ → Option ℕ → Db → Result WorkerException Db
recipient_part r (some status) (some campaign) (some contact) db =
    update_recipient r status campaign contact db
recipient_part r _ _ _ db = ok db

-- The attempt's part.
unfoldable pub attempt_part : Report → Option MessageAttemptStatus → Option ℕ → Db → Db
attempt_part r (some status) (some id) db = elim (get_message id db.messages) [
  | none ↦ db
  | some m ↦ record db {
    attempts =
        record {
          message_id = id;
          attempt_no = r.attempt_no;
          status = status;
          platform_message_id = r.platform_message_id;
          error_code = r.error_code;
        }
        ∷ db.attempts;
  }
]
attempt_part r _ _ db = db

-- An exception rolls the session back and is raised again.
unfoldable pub update_message_attempt_result : Report → Db → Result WorkerException Db
update_message_attempt_result r db =
    elim (recipient_part r (send_status_of r.status r.success) r.campaign_id r.contact_id db) [
      | raise e ↦ raise e
      | ok db' ↦ ok (attempt_part r (attempt_status_of r.status r.success) r.message_id db')
    ]
