-- ===== src/ResultsConsumer/Draining.antt =====
-- What becomes of the entries of whatsapp:results: one batch, and batch after batch, as the
-- schedule of multi-messaging-platform/core_engine/tasks.py runs them.
use senderplatformtest.Prelude.{
  ℕ, zero, suc, ◌+◌, ◌-◌, ◌*◌, ◌≤◌, ◌≡◌, ◌≢◌, refl, sym, ap, ◌∙◌, true, false, Option, none, some,
  List, [], ◌∷◌, ◌++◌, map, arith, length, take, drop, Result, ok, raise, List-cases, inl, inr,
  append_nil, append_assoc,
}
use mathlib.Core.List.{map-append}
use senderplatformtest.Redis.{Redis}
use senderplatformtest.ResultsConsumer.{
  BaileysItem, AuditLog, BatchCounts, no_batch, DatabaseError, database_error, build_audit_row,
  lrange_first, add_row, audit_rows, store_batch, consume_results, consume_whatsapp_results_batch,
  results_list,
}

module _ {ℓ} {A : Type ℓ} where
  drop_all : (xs : List A) → drop (length xs) xs ≡ []
  drop_all [] = refl
  drop_all (x ∷ xs) = drop_all xs

  take-drop-length : (n : ℕ) (xs : List A) → take n xs ++ drop (length (take n xs)) xs ≡ xs
  take-drop-length zero xs = refl
  take-drop-length (suc n) [] = refl
  take-drop-length (suc n) (x ∷ xs) = ap (λ l. x ∷ l) (take-drop-length n xs)

  pub lrange_first-rest :
      (n : ℕ) (xs : List A) → lrange_first n xs ++ drop (length (lrange_first n xs)) xs ≡ xs
  unfolding lrange_first
  lrange_first-rest zero xs = ap (λ l. xs ++ l) (drop_all xs) ∙ append_nil xs
  lrange_first-rest (suc n) xs = take-drop-length (suc n) xs

  length-drop : (n : ℕ) (xs : List A) → length (drop n xs) ≡ length xs - n
  length-drop zero xs = omega arith
  length-drop (suc n) [] = omega arith
  length-drop (suc n) (x ∷ xs) = omega (arith, length-drop n xs)

  length-take_rest : (n : ℕ) (xs : List A) → length (drop (length (take n xs)) xs) ≤ length xs - n
  length-take_rest zero xs = omega arith
  length-take_rest (suc n) [] = omega arith
  length-take_rest (suc n) (x ∷ xs) = omega (arith, length-take_rest n xs)

module _ {Item : Type 0} (redis : Redis Item) (parse_json : Item → Option BaileysItem) where
  open redis use {Store, items, ltrim, get, items-ltrim_self, items-ltrim_ne, get-ltrim}

  keep : Option BaileysItem → List BaileysItem → List BaileysItem
  keep none rest = rest
  keep (some item) rest = item ∷ rest

  -- The entries that decode to an object.
  unfoldable pub decoded : List Item → List BaileysItem
  unfolding keep
  decoded [] = []
  decoded (raw ∷ raws) = keep (parse_json raw) (decoded raws)

  keep-append :
      (o : Option BaileysItem) (xs ys : List BaileysItem) → keep o (xs ++ ys) ≡ keep o xs ++ ys
  unfolding keep
  keep-append none xs ys = refl
  keep-append (some item) xs ys = refl

  decoded-append : (xs ys : List Item) → decoded (xs ++ ys) ≡ decoded xs ++ decoded ys
  unfolding decoded
  decoded-append [] ys = refl
  decoded-append (x ∷ xs) ys =
      ap (keep (parse_json x)) (decoded-append xs ys)
      ∙ keep-append (parse_json x) (decoded xs) (decoded ys)

  Agree : List Item → List AuditLog × BatchCounts → Type 0
  Agree raws out =
      (out.0 ≡ map build_audit_row (decoded raws))
      × (out.1.processed ≡ length (decoded raws))
      × (out.1.processed + out.1.failed ≡ length raws)

  add_row-Agree :
      (raw : Item) (raws : List Item) (out : List AuditLog × BatchCounts) (o : Option BaileysItem)
      → parse_json raw ≡ o
      → Agree raws out
      → Agree (raw ∷ raws) (add_row redis parse_json o out)
  unfolding add_row decoded keep Agree
  add_row-Agree raw raws (rows, counts) none bad (same, processed, total) =
      rw bad (same, processed, omega arith)
  add_row-Agree raw raws (rows, counts) (some item) good (same, processed, total) =
      rw good (ap (λ l. build_audit_row item ∷ l) same, omega arith, omega arith)

  audit_rows-Agree : (raws : List Item) → Agree raws (audit_rows redis parse_json raws)
  unfolding audit_rows decoded Agree
  audit_rows-Agree [] = (refl, refl, omega arith)
  audit_rows-Agree (raw ∷ raws) =
      add_row-Agree raw raws (audit_rows redis parse_json raws) (parse_json raw) refl
        (audit_rows-Agree raws)

  -- What a batch that the database takes leaves.
  abbrev pub IsConsumed :
      List Item
      → Store
      → List AuditLog
      → Result DatabaseError BatchCounts × Store × List AuditLog
      → Type 0
  IsConsumed read s logs out =
      (items results_list out.1 ≡ drop (length read) (items results_list s))
      × (out.2 ≡ logs ++ map build_audit_row (decoded read))
      × ((counts : BatchCounts) × (out.0 ≡ ok counts)
          × (counts.processed ≡ length (decoded read))
          × (counts.processed + counts.failed ≡ length read))

  store_batch-IsConsumed :
      (read : List Item) (rows : List AuditLog × BatchCounts) (s : Store) (logs : List AuditLog)
      → Agree read rows
      → IsConsumed read s logs (store_batch redis parse_json true read rows s logs)
  unfolding store_batch Agree
  store_batch-IsConsumed read ([], counts) s logs (same, processed, total) = (
    items-ltrim_self results_list (length read) s,
    sym (append_nil logs) ∙ ap (λ l. logs ++ l) same,
    (counts, refl, processed, total),
  )
  store_batch-IsConsumed read (row ∷ rows, counts) s logs (same, processed, total) = (
    items-ltrim_self results_list (length read) s,
    ap (λ l. logs ++ l) same,
    (counts, refl, processed, total),
  )

  consume_results-IsConsumed :
      (read : List Item) (s : Store) (logs : List AuditLog)
      → IsConsumed read s logs (consume_results redis parse_json true read s logs)
  unfolding consume_results decoded
  consume_results-IsConsumed [] s logs =
      (refl, sym (append_nil logs), (no_batch, refl, refl, omega arith))
  consume_results-IsConsumed (raw ∷ raws) s logs =
      store_batch-IsConsumed (raw ∷ raws) (audit_rows redis parse_json (raw ∷ raws)) s logs
        (audit_rows-Agree (raw ∷ raws))

  -- A batch that the database takes removes exactly the entries that it has read from the front of
  -- the list, adds one audit row for each of those that decodes to an object, in the order of the
  -- list, and counts every one of them as processed or failed.
  pub consume_whatsapp_results_batch-IsConsumed :
      (batch_size : ℕ) (s : Store) (logs : List AuditLog)
      → IsConsumed
          (lrange_first batch_size (items results_list s))
          s
          logs
          (consume_whatsapp_results_batch redis parse_json true batch_size s logs)
  unfolding consume_whatsapp_results_batch
  consume_whatsapp_results_batch-IsConsumed batch_size s logs =
      consume_results-IsConsumed (lrange_first batch_size (items results_list s)) s logs

  store_batch_refused :
      (read : List Item) (rows : List AuditLog × BatchCounts) (s : Store) (logs : List AuditLog)
      → Agree read rows
      → decoded read ≢ []
      → store_batch redis parse_json false read rows s logs ≡ (raise database_error, s, logs)
  unfolding store_batch Agree
  store_batch_refused read ([], counts) s logs (same, processed, total) some_row =
      elim (List-cases (decoded read)) [
        | inl empty ↦ absurd (some_row empty)
        | inr (item, rest, e) ↦ cc (same, ap (map build_audit_row) e)
      ]
  store_batch_refused read (row ∷ rows, counts) s logs agree some_row = refl

  -- Where the database refuses the commit and an entry that was read decodes to an object, the
  -- batch raises, and neither the list nor the audit log changes.
  pub consume_whatsapp_results_batch_refused :
      (batch_size : ℕ) (s : Store) (logs : List AuditLog)
      → decoded (lrange_first batch_size (items results_list s)) ≢ []
      → consume_whatsapp_results_batch redis parse_json false batch_size s logs
        ≡ (raise database_error, s, logs)
  unfolding consume_whatsapp_results_batch consume_results decoded
  consume_whatsapp_results_batch_refused batch_size s logs some_row =
      elim (List-cases (lrange_first batch_size (items results_list s))) [
        | inl empty ↦ absurd (some_row (ap decoded empty))
        | inr (raw, raws, e) ↦ rw e (
            store_batch_refused (raw ∷ raws) (audit_rows redis parse_json (raw ∷ raws)) s logs
              (audit_rows-Agree (raw ∷ raws)) (λ none_left. some_row (ap decoded e ∙ none_left)))
      ]

  -- The batches of the schedule, one after another, while the database takes them.
  unfoldable pub drain : ℕ → ℕ → Store → List AuditLog → Store × List AuditLog
  drain zero batch_size s logs = (s, logs)
  drain (suc rounds) batch_size s logs =
      let (_, s', logs') = consume_whatsapp_results_batch redis parse_json true batch_size s logs in
      drain rounds batch_size s' logs'

  -- The rows of what was read and of what is left are those of the whole list.
  rows-split :
      (n : ℕ) (xs : List Item) (logs : List AuditLog)
      → (logs ++ map build_audit_row (decoded (lrange_first n xs)))
          ++ map build_audit_row (decoded (drop (length (lrange_first n xs)) xs))
        ≡ logs ++ map build_audit_row (decoded xs)
  rows-split n xs logs =
      let read = lrange_first n xs in
      let left = drop (length read) xs in
      append_assoc logs (map build_audit_row (decoded read)) (map build_audit_row (decoded left))
      ∙ ap (λ l. logs ++ l)
          (sym (map-append build_audit_row (decoded read) (decoded left))
            ∙ ap (map build_audit_row)
                (sym (decoded-append read left) ∙ ap decoded (lrange_first-rest n xs)))

  room-left :
      (rounds n : ℕ) (xs : List Item)
      → length xs ≤ suc rounds * suc n
      → length (drop (length (lrange_first (suc n) xs)) xs) ≤ rounds * suc n
  unfolding lrange_first
  room-left rounds n xs room =
      let bound = length-take_rest (suc n) xs in
      let split : suc rounds * suc n ≡ suc n + rounds * suc n = grind arith in
      omega (arith, bound, split, room)

  -- Entries that nobody adds to are all taken up: where the rounds of a positive size make room for
  -- the whole list, it is empty after them, and the audit log has one row for each of its entries
  -- that decodes to an object, in order and none twice.
  pub drain-all :
      (rounds batch_size : ℕ) (s : Store) (logs : List AuditLog)
      → length (items results_list s) ≤ rounds * suc batch_size
      → (items results_list (drain rounds (suc batch_size) s logs).0 ≡ [])
        × ((drain rounds (suc batch_size) s logs).1
            ≡ logs ++ map build_audit_row (decoded (items results_list s)))
  unfolding drain decoded
  drain-all zero batch_size s logs room = elim (List-cases (items results_list s)) [
    | inl e ↦ (e, rw e (sym (append_nil logs)))
    | inr (x, xs, e) ↦ absurd (omega (arith, room, ap length e))
  ]
  drain-all (suc rounds) batch_size s logs room =
      let out = consume_whatsapp_results_batch redis parse_json true (suc batch_size) s logs in
      let (left, logged, _) = consume_whatsapp_results_batch-IsConsumed (suc batch_size) s logs in
      let fits : length (items results_list out.1) ≤ rounds * suc batch_size =
        rw left (room-left rounds batch_size (items results_list s) room) in
      let (empty, all) = drain-all rounds batch_size out.1 out.2 fits in
      (empty, all ∙ rw (left, logged) (rows-split (suc batch_size) (items results_list s) logs))
