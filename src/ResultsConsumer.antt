-- ===== src/ResultsConsumer.antt =====
-- From the lists that the Node worker fills to the database: multi-messaging-platform/core_engine/
-- services/baileys_results_consumer.py and baileys_session_service.py. JSON values are texts, as
-- `str` gives them, and a missing key is none; decoding an entry, which may fail, is an argument,
-- and so is whether the database takes a commit.
pub mod Draining
pub mod Disconnecting
pub mod Serving
use senderplatformtest.Prelude.{
  ℕ, zero, suc, ◌+◌, Bool, true, false, not, ◌||◌, Option, none, some, List, [], ◌∷◌, ◌++◌, String,
  ltb, ◌==◌, if◌then◌else◌, length, take, filter, map, Result, ok, raise,
}
use senderplatformtest.Prelude.Text.{Text, codes, text_eq, is_empty, is_digit, isdigit, int_from}
use senderplatformtest.Redis.{RedisKey, other_key, Redis}
use senderplatformtest.Platform.{PlatformType, whatsapp, AccountStatus, requires_login, platform_eq}
use senderplatformtest.QueueBridge.{Account}
use senderplatformtest.Baileys.{digits}

abbrev pub results_list : RedisKey
results_list = other_key "whatsapp:results"

abbrev pub session_status_list : RedisKey
session_status_list = other_key "whatsapp:session_status"

-- The keys of a decoded entry that the two consumers read.
pub record BaileysItem : Type 0 where
  pub job_id : Option Text
  pub message_id : Option Text
  pub account_id_camel : Option Text
  pub account_id : Option Text
  pub jid : Option Text
  pub recipient : Option Text
  pub message_text : Option Text
  pub text : Option Text
  pub status : Option Text
  pub kind : Option Text
  pub reason : Option Text
  pub error : Option Text
  pub platform_message_id : Option Text
  pub route : Option Text
  pub timestamp : Option Text

-- int(account_id) where that is a number, and the text otherwise
pub data AccountRef : Type 0 where
  numbered : ℕ → AccountRef
  named : Text → AccountRef

pub record AuditLog : Type 0 where
  pub resource_id : Text
  pub account_id : AccountRef
  pub recipient : Text
  pub message_id : Option Text
  pub message_text : Option Text
  pub success : Bool
  pub status : Text
  pub platform_message_id : Option Text
  pub error_code : Option Text
  pub route : Option Text
  pub timestamp : Option Text
  pub jid : Option Text

-- a or b, of texts that may be missing
unfoldable pub or_text : Option Text → Text → Text
or_text none b = b
or_text (some a) b = if is_empty a then b else a

unfoldable pub or_option : Option Text → Option Text → Option Text
or_option none b = b
or_option (some a) b = if is_empty a then b else some a

-- `_status_to_success`
unfoldable pub status_to_success : Text → Bool
status_to_success status = text_eq status (codes "delivered")

unfoldable pub has_at : Text → Bool
has_at [] = false
has_at (c ∷ s) = c == 64 || has_at s

-- s.split("@", 1)[0]
unfoldable pub before_at : Text → Text
before_at [] = []
before_at (c ∷ s) = let rest = c ∷ before_at s in if c == 64 then [] else rest

-- `_recipient_digits`
unfoldable pub recipient_digits : BaileysItem → Text
recipient_digits item =
    let recipient = or_text item.jid (or_text item.recipient []) in
    if has_at recipient then before_at recipient else filter is_digit recipient

unfoldable pub account_ref : Text → AccountRef
account_ref account_id =
    if isdigit account_id then numbered (int_from 0 account_id) else named account_id

-- `_build_audit_row`, less the clock and the constant columns
unfoldable pub build_audit_row : BaileysItem → AuditLog
build_audit_row item =
    let status = or_text item.status (codes "unknown") in
    let success = status_to_success status in
    let account_id = or_text item.account_id_camel (or_text item.account_id (codes "unknown")) in
    record {
      resource_id = account_id;
      account_id = account_ref account_id;
      recipient = recipient_digits item;
      message_id = or_option item.job_id item.message_id;
      message_text = or_option item.message_text item.text;
      success = success;
      status = status;
      platform_message_id = item.platform_message_id;
      error_code = if success then none else item.error;
      route = item.route;
      timestamp = item.timestamp;
      jid = item.jid;
    }

pub record BatchCounts : Type 0 where
  pub processed : ℕ
  pub failed : ℕ

abbrev no_batch : BatchCounts
no_batch = record { processed = 0; failed = 0 }

-- The exception of the database, which the batch raises again.
pub data DatabaseError : Type 0 where
  database_error : DatabaseError

-- LRANGE key 0 (batch_size - 1), which is LRANGE key 0 -1 where the size is 0
unfoldable pub lrange_first {ℓ} : {A : Type ℓ} → ℕ → List A → List A
lrange_first zero xs = xs
lrange_first (suc n) xs = take (suc n) xs

-- `resolve_account_by_phone`: the match of the highest id
unfoldable pub matches_phone : Text → Account → Bool
unfolding digits
matches_phone key account = elim account.phone_number [
  | none ↦ false
  | some phone ↦ if platform_eq account.platform whatsapp then text_eq (digits phone) key else false
]

unfoldable pub better : Account → Account → Account
better best row = if ltb best.id row.id then row else best

unfoldable pub max_by_id : Account → List Account → Account
max_by_id best [] = best
max_by_id best (row ∷ rows) = max_by_id (better best row) rows

unfoldable pub resolve_account_by_phone : List Account → Text → Option Account
resolve_account_by_phone accounts phone_digits =
    let key = filter is_digit phone_digits in
    if is_empty key then none else elim (filter (matches_phone key) accounts) [
      | [] ↦ none
      | first ∷ rest ↦ some (max_by_id first rest)
    ]

-- What `store_whatsapp_web_session` is given for an account that is not linked any more.
pub record StoredSession : Type 0 where
  pub account_id : ℕ
  pub linked : Bool
  pub phone : Text

pub record AccountsDb : Type 0 where
  pub accounts : List Account
  pub sessions : List StoredSession

-- account.status = AccountStatus.REQUIRES_LOGIN, of the row with the id
unfoldable pub set_requires_login : ℕ → Account → Account
set_requires_login id a = if a.id == id then record a { status = requires_login } else a

unfoldable pub mark_account : AccountsDb → Text → Option Account → Bool × AccountsDb
mark_account db phone_digits none = (false, db)
mark_account db phone_digits (some account) = (
  true,
  record {
    accounts = map (set_requires_login account.id) db.accounts;
    sessions =
        db.sessions
        ++ record { account_id = account.id; linked = false; phone = filter is_digit phone_digits }
          ∷ [];
  },
)

-- `mark_baileys_session_disconnected`, and its return value
unfoldable pub mark_baileys_session_disconnected : AccountsDb → Text → Bool × AccountsDb
mark_baileys_session_disconnected db phone_digits =
    mark_account db phone_digits (resolve_account_by_phone db.accounts phone_digits)

unfoldable pub is_disconnect : Text → Bool
is_disconnect status =
    text_eq status (codes "session_invalid")
    || (text_eq status (codes "disconnected") || text_eq status (codes "session_invalid_401"))

unfoldable pub phone_of : BaileysItem → Text
phone_of item = filter is_digit (or_text item.account_id_camel (or_text item.account_id []))

-- One round of the loop over the session events.
unfoldable pub session_event : Option BaileysItem → AccountsDb → Bool × AccountsDb
session_event none db = (false, db)
session_event (some item) db =
    if not (is_disconnect (or_text item.status (or_text item.kind [])))
    then (false, db)
    else mark_baileys_session_disconnected db (phone_of item)

module _ {Item : Type 0} (redis : Redis Item) (parse_json : Item → Option BaileysItem) where
  open redis use {Store, items, ltrim}

  -- One round of the loop over the entries: a row, or one more that failed.
  unfoldable pub add_row :
      Option BaileysItem → List AuditLog × BatchCounts → List AuditLog × BatchCounts
  add_row none (rows, counts) = (rows, record counts { failed = counts.failed + 1 })
  add_row (some item) (rows, counts) =
      (build_audit_row item ∷ rows, record counts { processed = counts.processed + 1 })

  unfoldable pub audit_rows : List Item → List AuditLog × BatchCounts
  audit_rows [] = ([], no_batch)
  audit_rows (raw ∷ raws) = add_row (parse_json raw) (audit_rows raws)

  -- what follows the read
  unfoldable pub store_batch :
      Bool
      → List Item
      → List AuditLog × BatchCounts
      → Store
      → List AuditLog
      → Result DatabaseError BatchCounts × Store × List AuditLog
  store_batch commits raw_items ([], counts) s logs =
      (ok counts, ltrim results_list (length raw_items) s, logs)
  store_batch commits raw_items (row ∷ rows, counts) s logs =
      if not commits
      then (raise database_error, s, logs)
      else (ok counts, ltrim results_list (length raw_items) s, logs ++ row ∷ rows)

  unfoldable pub consume_results :
      Bool
      → List Item
      → Store
      → List AuditLog
      → Result DatabaseError BatchCounts × Store × List AuditLog
  consume_results commits [] s logs = (ok no_batch, s, logs)
  consume_results commits (raw ∷ raws) s logs =
      store_batch commits (raw ∷ raws) (audit_rows (raw ∷ raws)) s logs

  unfoldable pub consume_whatsapp_results_batch :
      Bool → ℕ → Store → List AuditLog → Result DatabaseError BatchCounts × Store × List AuditLog
  consume_whatsapp_results_batch commits batch_size s logs =
      consume_results commits (lrange_first batch_size (items results_list s)) s logs

  -- processed += 1, or failed += 1
  unfoldable pub count_event : Bool → AccountsDb × BatchCounts → AccountsDb × BatchCounts
  count_event true (db, counts) = (db, record counts { processed = counts.processed + 1 })
  count_event false (db, counts) = (db, record counts { failed = counts.failed + 1 })

  unfoldable pub session_events : List Item → AccountsDb → AccountsDb × BatchCounts
  session_events [] db = (db, no_batch)
  session_events (raw ∷ raws) db =
      let out = session_event (parse_json raw) db in count_event out.0 (session_events raws out.1)

  unfoldable pub consume_events :
      Bool → List Item → Store → AccountsDb → Result DatabaseError BatchCounts × Store × AccountsDb
  consume_events commits [] s db = (ok no_batch, s, db)
  consume_events commits (raw ∷ raws) s db =
      if not commits
      then (raise database_error, s, db)
      else let (db', counts) = session_events (raw ∷ raws) db in
        (ok counts, ltrim session_status_list (length (raw ∷ raws)) s, db')

  unfoldable pub consume_whatsapp_session_status_batch :
      Bool → ℕ → Store → AccountsDb → Result DatabaseError BatchCounts × Store × AccountsDb
  consume_whatsapp_session_status_batch commits batch_size s db =
      consume_events commits (lrange_first batch_size (items session_status_list s)) s db
