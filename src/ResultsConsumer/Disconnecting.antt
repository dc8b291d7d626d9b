-- ===== src/ResultsConsumer/Disconnecting.antt =====
-- Which accounts a batch of whatsapp:session_status sends back to the login.
use senderplatformtest.Prelude.{
  ℕ, ◌+◌, ◌≡◌, refl, sym, ap, subst, ◌∙◌, Bool, true, false, not, Option, none, some, List, [], ◌∷◌,
  map, arith, length, drop, filter, Result, ok, Bool-cases, List-cases, ◌⊎◌, inl, inr, ltb, ◌==◌,
  if◌then◌else◌,
}
use senderplatformtest.Prelude.Text.{Text, is_empty, is_digit}
use senderplatformtest.Prelude.Sort.{contains}
use senderplatformtest.Redis.{Redis}
use senderplatformtest.Platform.{requires_login}
use senderplatformtest.QueueBridge.{Account}
use senderplatformtest.ResultsConsumer.{
  BaileysItem, BatchCounts, no_batch, DatabaseError, AccountsDb, or_text, lrange_first,
  matches_phone, better, max_by_id, resolve_account_by_phone, set_requires_login, mark_account,
  count_event, mark_baileys_session_disconnected, is_disconnect, phone_of, session_event,
  session_events, consume_events, consume_whatsapp_session_status_batch, session_status_list,
}

abbrev found_id : Option Account → Option ℕ
found_id none = none
found_id (some account) = some account.id

-- The id of the account that an event sends back to the login, if there is one.
unfoldable pub account_of : List Account → Option BaileysItem → Option ℕ
account_of accounts none = none
account_of accounts (some item) =
    if not (is_disconnect (or_text item.status (or_text item.kind [])))
    then none
    else found_id (resolve_account_by_phone accounts (phone_of item))

-- The rows with the given ids have lost their login.
unfoldable pub logged_out : List ℕ → Account → Account
logged_out ids a = if contains a.id ids then record a { status = requires_login } else a

logged_out_none : (accounts : List Account) → map (logged_out []) accounts ≡ accounts
unfolding logged_out
logged_out_none [] = refl
logged_out_none (a ∷ rest) = ap (λ l. a ∷ l) (logged_out_none rest)

logged_out-set :
    (id : ℕ) (ids : List ℕ) (a : Account)
    → logged_out ids (set_requires_login id a) ≡ logged_out (id ∷ ids) a
unfolding logged_out set_requires_login
logged_out-set id ids a = ground arith

logged_out-sets :
    (id : ℕ) (ids : List ℕ) (accounts : List Account)
    → map (logged_out ids) (map (set_requires_login id) accounts)
      ≡ map (logged_out (id ∷ ids)) accounts
logged_out-sets id ids [] = refl
logged_out-sets id ids (a ∷ rest) =
    rw (logged_out-set id ids a)
      (ap (λ l. logged_out (id ∷ ids) a ∷ l) (logged_out-sets id ids rest))

-- A login that is lost changes neither who has a phone nor which id is the highest.
matches_phone-set :
    (id : ℕ) (key : Text) (a : Account)
    → matches_phone key (set_requires_login id a) ≡ matches_phone key a
unfolding matches_phone set_requires_login
matches_phone-set id key a = elim (Bool-cases (a.id == id)) [
  | inl t ↦ rw t refl
  | inr f ↦ rw f refl
]

filter_matches-set :
    (id : ℕ) (key : Text) (accounts : List Account)
    → filter (matches_phone key) (map (set_requires_login id) accounts)
      ≡ map (set_requires_login id) (filter (matches_phone key) accounts)
filter_matches-set id key [] = refl
filter_matches-set id key (a ∷ rest) = elim (Bool-cases (matches_phone key a)) [
  | inl t ↦
      rw (matches_phone-set id key a, t)
        (ap (λ l. set_requires_login id a ∷ l) (filter_matches-set id key rest))
  | inr f ↦ rw (matches_phone-set id key a, f) (filter_matches-set id key rest)
]

id-set : (id : ℕ) (a : Account) → (set_requires_login id a).id ≡ a.id
unfolding set_requires_login
id-set id a = elim (Bool-cases (a.id == id)) [ inl t ↦ rw t refl | inr f ↦ rw f refl ]

better-set :
    (id : ℕ) (best row : Account)
    → better (set_requires_login id best) (set_requires_login id row)
      ≡ set_requires_login id (better best row)
unfolding better
better-set id best row = elim (Bool-cases (ltb best.id row.id)) [
  | inl t ↦
      let same : ltb (set_requires_login id best).id (set_requires_login id row).id ≡ true =
        rw (id-set id best, id-set id row) t in
      rw (same, t) refl
  | inr f ↦
      let same : ltb (set_requires_login id best).id (set_requires_login id row).id ≡ false =
        rw (id-set id best, id-set id row) f in
      rw (same, f) refl
]

max_by_id-set :
    (id : ℕ) (best : Account) (rows : List Account)
    → max_by_id (set_requires_login id best) (map (set_requires_login id) rows)
      ≡ set_requires_login id (max_by_id best rows)
unfolding max_by_id
max_by_id-set id best [] = refl
max_by_id-set id best (row ∷ rows) =
    ap (λ b. max_by_id b (map (set_requires_login id) rows)) (better-set id best row)
    ∙ max_by_id-set id (better best row) rows

resolve-set :
    (id : ℕ) (phone : Text) (accounts : List Account)
    → found_id (resolve_account_by_phone (map (set_requires_login id) accounts) phone)
      ≡ found_id (resolve_account_by_phone accounts phone)
unfolding resolve_account_by_phone
resolve-set id phone accounts =
    let key = filter is_digit phone in
    elim (Bool-cases (is_empty key)) [
      | inl t ↦ rw t refl
      | inr f ↦ elim (List-cases (filter (matches_phone key) accounts)) [
        | inl nobody ↦ rw (f, filter_matches-set id key accounts, nobody) refl
        | inr (first, rest, e) ↦
            rw (f, filter_matches-set id key accounts, e, max_by_id-set id first rest)
              (ap some (id-set id (max_by_id first rest)))
      ]
    ]

account_of-set :
    (id : ℕ) (accounts : List Account) (event : Option BaileysItem)
    → account_of (map (set_requires_login id) accounts) event ≡ account_of accounts event
unfolding account_of
account_of-set id accounts none = refl
account_of-set id accounts (some item) =
    elim (Bool-cases (is_disconnect (or_text item.status (or_text item.kind [])))) [
      | inr f ↦ rw f refl
      | inl t ↦ rw t (resolve-set id (phone_of item) accounts)
    ]

module _ {Item : Type 0} (redis : Redis Item) (parse_json : Item → Option BaileysItem) where
  open redis use {Store, items, items-ltrim_self}

  keep : Option ℕ → List ℕ → List ℕ
  keep none rest = rest
  keep (some id) rest = id ∷ rest

  -- The accounts that a batch sends back to the login, by the table as it was before.
  unfoldable pub disconnected : List Account → List Item → List ℕ
  unfolding keep
  disconnected accounts [] = []
  disconnected accounts (raw ∷ raws) =
      keep (account_of accounts (parse_json raw)) (disconnected accounts raws)

  disconnected-set :
      (id : ℕ) (accounts : List Account) (raws : List Item)
      → disconnected (map (set_requires_login id) accounts) raws ≡ disconnected accounts raws
  unfolding disconnected
  disconnected-set id accounts [] = refl
  disconnected-set id accounts (raw ∷ raws) =
      rw (account_of-set id accounts (parse_json raw), disconnected-set id accounts raws) refl

  -- After the events, exactly the accounts that a disconnect names are REQUIRES_LOGIN.
  IsApplied : List Account → List Item → AccountsDb × BatchCounts → Type 0
  IsApplied accounts raws out =
      (out.0.accounts ≡ map (logged_out (disconnected accounts raws)) accounts)
      × (out.1.processed ≡ length (disconnected accounts raws))
      × (out.1.processed + out.1.failed ≡ length raws)

  IsEvent : AccountsDb → Option ℕ → Bool × AccountsDb → Type 0
  IsEvent db named out =
      ((named ≡ none) × (out ≡ (false, db)))
      ⊎ ((id : ℕ) × (named ≡ some id)
          × (out.0 ≡ true)
          × (out.1.accounts ≡ map (set_requires_login id) db.accounts))

  mark_account-IsEvent :
      (db : AccountsDb) (phone : Text) (o : Option Account)
      → IsEvent db (found_id o) (mark_account db phone o)
  unfolding mark_account IsEvent
  mark_account-IsEvent db phone none = inl (refl, refl)
  mark_account-IsEvent db phone (some account) = inr (account.id, refl, refl, refl)

  -- One event: nothing, or the row of the account that it names.
  session_event-IsEvent :
      (event : Option BaileysItem) (db : AccountsDb)
      → IsEvent db (account_of db.accounts event) (session_event event db)
  unfolding session_event account_of mark_baileys_session_disconnected IsEvent
  session_event-IsEvent none db = inl (refl, refl)
  session_event-IsEvent (some item) db =
      elim (Bool-cases (is_disconnect (or_text item.status (or_text item.kind [])))) [
        | inr f ↦ rw f (inl (refl, refl))
        | inl t ↦ rw t (
            mark_account-IsEvent db (phone_of item)
              (resolve_account_by_phone db.accounts (phone_of item)))
      ]

  event-IsApplied :
      (raw : Item) (raws : List Item) (db : AccountsDb) (named : Option ℕ) (out : Bool × AccountsDb)
      → account_of db.accounts (parse_json raw) ≡ named
      → IsEvent db named out
      → IsApplied out.1.accounts raws (session_events redis parse_json raws out.1)
      → IsApplied db.accounts
          (raw ∷ raws)
          (count_event redis parse_json out.0 (session_events redis parse_json raws out.1))
  unfolding disconnected IsApplied keep IsEvent count_event
  event-IsApplied raw raws db named out e (inl (nobody, same)) applied =
      let start : IsApplied db.accounts raws (session_events redis parse_json raws db) =
        subst (λ o. IsApplied o.1.accounts raws (session_events redis parse_json raws o.1)) same
          applied in
      let (rows, marked, total) = start in rw (e, nobody, same) (rows, marked, omega arith)
  event-IsApplied raw raws db named out e (inr (id, who, yes_marked, set)) applied =
      let (rows, marked, total) = applied in
      let same_ids : disconnected out.1.accounts raws ≡ disconnected db.accounts raws =
        ap (λ l. disconnected l raws) set ∙ disconnected-set id db.accounts raws in
      rw (e, who, yes_marked)
        (
          rows
              ∙ rw (set, disconnected-set id db.accounts raws)
                  (logged_out-sets id (disconnected db.accounts raws) db.accounts),
          omega (arith, marked, ap length same_ids),
          omega arith,
        )

  session_events-IsApplied :
      (raws : List Item) (db : AccountsDb)
      → IsApplied db.accounts raws (session_events redis parse_json raws db)
  unfolding session_events disconnected IsApplied
  session_events-IsApplied [] db = (sym (logged_out_none db.accounts), refl, omega arith)
  session_events-IsApplied (raw ∷ raws) db =
      let event = parse_json raw in
      let out = session_event event db in
      event-IsApplied raw raws db (account_of db.accounts event) out refl
        (session_event-IsEvent event db) (session_events-IsApplied raws out.1)

  -- What a batch that the database takes leaves.
  abbrev pub IsLoggedOut :
      List Item
      → Store
      → AccountsDb
      → Result DatabaseError BatchCounts × Store × AccountsDb
      → Type 0
  IsLoggedOut read s db out =
      (items session_status_list out.1 ≡ drop (length read) (items session_status_list s))
      × (out.2.accounts ≡ map (logged_out (disconnected db.accounts read)) db.accounts)
      × ((counts : BatchCounts) × (out.0 ≡ ok counts)
          × (counts.processed ≡ length (disconnected db.accounts read))
          × (counts.processed + counts.failed ≡ length read))

  consume_events-IsLoggedOut :
      (read : List Item) (s : Store) (db : AccountsDb)
      → IsLoggedOut read s db (consume_events redis parse_json true read s db)
  unfolding consume_events disconnected IsApplied
  consume_events-IsLoggedOut [] s db =
      (refl, sym (logged_out_none db.accounts), (no_batch, refl, refl, omega arith))
  consume_events-IsLoggedOut (raw ∷ raws) s db =
      let (rows, marked, total) = session_events-IsApplied (raw ∷ raws) db in
      (
        items-ltrim_self session_status_list (length (raw ∷ raws)) s,
        rows,
        ((session_events redis parse_json (raw ∷ raws) db).1, refl, marked, total),
      )

  -- A batch of session events that the database takes removes exactly the entries that it has read
  -- and counts every one of them as processed or failed. Exactly the accounts that a disconnect
  -- event names by its phone number are REQUIRES_LOGIN after it, each event's account being the one
  -- that the table before the batch gives; every other row, and every other column, is unchanged.
  pub consume_session_status_batch-IsLoggedOut :
      (batch_size : ℕ) (s : Store) (db : AccountsDb)
      → IsLoggedOut
          (lrange_first batch_size (items session_status_list s))
          s
          db
          (consume_whatsapp_session_status_batch redis parse_json true batch_size s db)
  unfolding consume_whatsapp_session_status_batch
  consume_session_status_batch-IsLoggedOut batch_size s db =
      consume_events-IsLoggedOut (lrange_first batch_size (items session_status_list s)) s db
