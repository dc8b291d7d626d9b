-- ===== src/Worker/Polling.antt =====
-- What `read_next_payload` takes from the queues, and from which.
use senderplatformtest.Prelude.{
  ℕ, zero, suc, ◌+◌, ◌-◌, ◌%◌, ◌≤◌, ◌<◌, ◌≡◌, ◌≢◌, refl, sym, ap, ◌∙◌, subst, Option, none, some,
  List, [], ◌∷◌, ◌⊎◌, inl, inr, arith, length, get_elem?, get_elem?-lt-length, mem-get_elem?, Mem,
  leb, List-cases, first_or_later, Bool-cases,
}
use native.Mathlib.Nat.{mod-eq_of_lt, add-mod_right}
use senderplatformtest.Redis.{RedisKey, Redis}
use senderplatformtest.Worker.{MultiAccountWorker, Reading, queue_of, scan, read_next_payload}

module _ {Item : Type 0} (redis : Redis Item) where
  open redis use {Store, get, items, lpop, lpop_empty, lpop_head, items-lpop_ne, get-lpop}

  -- `s'` is `s` with `raw` gone from the head of the queue of an account, and nothing else changed.
  pub record Popped (w : MultiAccountWorker) (account_id : ℕ) (raw : Item) (s s' : Store)
      : Type 0 where
    pub front : items (queue_of redis w account_id) s ≡ raw ∷ items (queue_of redis w account_id) s'
    pub others : (j : RedisKey) → j ≢ queue_of redis w account_id → items j s' ≡ items j s
    pub values : (j : RedisKey) → get j s' ≡ get j s

  -- The queue that a round looks at is empty.
  abbrev pub IsEmptyAt : MultiAccountWorker → Store → ℕ → Type 0
  IsEmptyAt w s step =
      (a : ℕ)
      → get_elem? w.account_ids ((w.round_robin_index + step) % length w.account_ids) ≡ some a
      → items (queue_of redis w a) s ≡ []

  pub record Found (w : MultiAccountWorker) (s s' : Store) (first left : ℕ) (r : Reading redis)
      : Type 0 where
    pub step : ℕ
    pub first_le : first ≤ step
    pub within : step < first + left
    pub at : r.index ≡ (w.round_robin_index + step) % length w.account_ids
    pub account : get_elem? w.account_ids r.index ≡ some r.account_id
    pub popped : Popped w r.account_id r.raw s s'
    pub before : (t : ℕ) → first ≤ t → t < step → IsEmptyAt w s t

  pub record Idle (w : MultiAccountWorker) (s : Store) (first left : ℕ) (o : Option (Reading redis))
      (s' : Store) : Type 0 where
    pub nothing : o ≡ none
    pub same : s' ≡ s
    pub all_empty : (t : ℕ) → first ≤ t → t < first + left → IsEmptyAt w s t

  abbrev index_at : MultiAccountWorker → ℕ → ℕ
  index_at w step = (w.round_robin_index + step) % length w.account_ids

  -- One round that finds the queue empty, and one that does not.
  scan_skip :
      (w : MultiAccountWorker) (left step a : ℕ) (s : Store)
      → get_elem? w.account_ids (index_at w step) ≡ some a
      → items (queue_of redis w a) s ≡ []
      → scan redis w (suc left) step s ≡ scan redis w left (suc step) s
  unfolding scan
  scan_skip w left step a s ea empty = ground (arith, lpop_empty (queue_of redis w a) s empty)

  scan_take :
      (w : MultiAccountWorker) (left step a : ℕ) (x : Item) (xs : List Item) (s : Store)
      → get_elem? w.account_ids (index_at w step) ≡ some a
      → items (queue_of redis w a) s ≡ x ∷ xs
      → scan redis w (suc left) step s ≡ (
        some (record { index = index_at w step; account_id = a; raw = x }),
        (lpop (queue_of redis w a) s).1,
      )
  unfolding scan
  scan_take w left step a x xs s ea full =
      ground (arith, lpop_head (queue_of redis w a) x xs s full)

  lpop-Popped :
      (w : MultiAccountWorker) (a : ℕ) (x : Item) (xs : List Item) (s : Store)
      → items (queue_of redis w a) s ≡ x ∷ xs
      → Popped w a x s (lpop (queue_of redis w a) s).1
  lpop-Popped w a x xs s full =
      let key = queue_of redis w a in
      record {
        front = full ∙ ap (λ l. x ∷ l) (sym (lpop_head key x xs s full).1);
        others = λ j ne. items-lpop_ne key j s ne;
        values = λ j. get-lpop key j s;
      }

  empty_here :
      (w : MultiAccountWorker) (step a t : ℕ) (s : Store)
      → get_elem? w.account_ids (index_at w step) ≡ some a
      → items (queue_of redis w a) s ≡ []
      → t ≡ step
      → IsEmptyAt w s t
  empty_here w step a t s ea empty same b eb =
      let t_at : get_elem? w.account_ids (index_at w step) ≡ some b =
        subst (λ u. get_elem? w.account_ids (index_at w u) ≡ some b) same eb in
      subst (λ c. items (queue_of redis w c) s ≡ []) (cc (ea, t_at)) empty

  abbrev ScanOutcome : MultiAccountWorker → ℕ → ℕ → Store → Option (Reading redis) × Store → Type 0
  ScanOutcome w left step s out =
      Idle w s step left out.0 out.1
      ⊎ ((r : Reading redis) × (out.0 ≡ some r) × Found w s out.1 step left r)

  scan_lem :
      (w : MultiAccountWorker) (left step : ℕ) (s : Store)
      → 0 < length w.account_ids
      → ScanOutcome w left step s (scan redis w left step s)
  scan_lem w zero step s n =
      unfold scan in
      inl (record { nothing = refl; same = refl; all_empty = λ t a b. absurd (omega arith) })
  scan_lem w (suc left) step s n =
      let (a, ea) = get_elem?-lt-length w.account_ids (index_at w step) (omega arith) in
      elim (List-cases (items (queue_of redis w a) s)) [
        | inl empty ↦
            rw (scan_skip w left step a s ea empty) (elim (scan_lem w left (suc step) s n) [
              | inl idle ↦ inl (record {
                nothing = idle.nothing;
                same = idle.same;
                all_empty = λ t lo hi. elim (first_or_later t step lo) [
                  | inl same ↦ empty_here w step a t s ea empty same
                  | inr later ↦ idle.all_empty t later (omega arith)
                ];
              })
              | inr (r, e, found) ↦ inr (
                r,
                e,
                record {
                  step = found.step;
                  first_le = omega (arith, found.first_le);
                  within = omega (arith, found.within);
                  at = found.at;
                  account = found.account;
                  popped = found.popped;
                  before = λ t lo hi. elim (first_or_later t step lo) [
                    | inl same ↦ empty_here w step a t s ea empty same
                    | inr later ↦ found.before t later hi
                  ];
                },
              )
            ])
        | inr (x, xs, full) ↦ rw (scan_take w left step a x xs s ea full) (
            inr (
              record { index = index_at w step; account_id = a; raw = x },
              refl,
              record {
                step = step;
                first_le = omega arith;
                within = omega arith;
                at = refl;
                account = ea;
                popped = lpop-Popped w a x xs s full;
                before = λ t lo hi. absurd (omega arith);
              },
            ))
      ]

  turn_of : (n r i : ℕ) → r < n → i < n → (t : ℕ) × (t < n) × ((r + t) % n ≡ i)
  turn_of n r i hr hi = elim (Bool-cases (leb r i)) [
    | inl ahead ↦
        (i - r, ground arith, let e : r + (i - r) ≡ i = ground arith in rw e (mod-eq_of_lt hi))
    | inr behind ↦ (
      i + n - r,
      ground arith,
      let e : r + (i + n - r) ≡ i + n = ground arith in rw (e, add-mod_right) (mod-eq_of_lt hi),
    )
  ]

  -- With a round-robin index in range, one read either finds the queues of all accounts empty and
  -- changes neither the worker nor the store, or takes exactly the head of one account's queue.
  -- That account is the first one with a queue that is not empty, from the round-robin index on,
  -- and the index then stands behind it, in range again.
  pub read_next_payload-fair :
      (w : MultiAccountWorker) (s : Store)
      → w.round_robin_index < length w.account_ids
      → let out = read_next_payload redis w s in
        ((out.0 ≡ none)
          × (out.1 ≡ w)
          × (out.2 ≡ s)
          × ((a : ℕ) → Mem a w.account_ids → items (queue_of redis w a) s ≡ []))
        ⊎ ((r : Reading redis) × (out.0 ≡ some r)
            × Found w s out.2 0 (length w.account_ids) r
            × (out.1 ≡ record w { round_robin_index = (r.index + 1) % length w.account_ids })
            × (out.1.round_robin_index < length w.account_ids))
  unfolding read_next_payload
  read_next_payload-fair w s h = elim (scan_lem w (length w.account_ids) 0 s (omega arith)) [
    | inl idle ↦ inl (
      ground (arith, idle.nothing),
      ground (arith, idle.nothing),
      rw (read_next_payload, idle.nothing) idle.same,
      λ a m.
          let (i, lt, ea) = mem-get_elem? w.account_ids a m in
          let (t, lt_t, here) = turn_of (length w.account_ids) w.round_robin_index i h lt in
          idle.all_empty t (omega arith) (omega arith) a (rw here ea),
    )
    | inr (r, e, found) ↦ inr (
      r,
      ground (arith, e),
      rw (read_next_payload, e) found,
      ground (arith, e),
      ground (arith, e),
    )
  ]
