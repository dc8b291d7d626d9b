-- ===== src/QueueBridge/Claiming.antt =====
-- Which rows are claimed.
use senderplatformtest.Prelude.{
  ℕ, zero, suc, ◌≤◌, ◌≡◌, refl, ap, Bool, true, false, some, List, [], ◌∷◌, arith, length,
  Bool-cases, inl, inr,
}
use senderplatformtest.Platform.{ready, pushing, running}
use senderplatformtest.QueueBridge.{StagedQueueItem, Tables, Environment, claimable, claim}

abbrev pub claimed : List (Bool × StagedQueueItem) → ℕ
claimed [] = 0
claimed ((true, item) ∷ rows) = suc (claimed rows)
claimed ((false, item) ∷ rows) = claimed rows

-- A row after the claim against the row before.
abbrev pub ClaimedFrom : Environment → Tables → StagedQueueItem → Bool × StagedQueueItem → Type 0
ClaimedFrom env db item (false, item') = item' ≡ item
ClaimedFrom env db item (true, item') =
    (item' ≡ record item { status = pushing })
    × (item.status ≡ ready)
    × (db.campaign_status item.campaign_id ≡ some running)
    × (env.locked item.id ≡ false)

abbrev pub Claims :
    Environment → Tables → List StagedQueueItem → List (Bool × StagedQueueItem) → Type 0
Claims env db [] [] = Unit {0}
Claims env db (item ∷ items) (row ∷ rows) = ClaimedFrom env db item row × Claims env db items rows
Claims env db _ _ = ⊥

claimable_lem :
    (env : Environment) (db : Tables) (item : StagedQueueItem)
    → claimable env db item ≡ true
    → (item.status ≡ ready)
      × (db.campaign_status item.campaign_id ≡ some running)
      × (env.locked item.id ≡ false)
unfolding claimable
claimable_lem env db item h = ground arith

pub claim_lem :
    (env : Environment) (db : Tables) (limit : ℕ) (items : List StagedQueueItem)
    → Claims env db items (claim env db limit items) × (claimed (claim env db limit items) ≤ limit)
unfolding claim
claim_lem env db limit [] = (tt, omega arith)
claim_lem env db zero (item ∷ items) =
    let (rest, few) = claim_lem env db zero items in ((refl, rest), few)
claim_lem env db (suc limit) (item ∷ items) = elim (Bool-cases (claimable env db item)) [
  | inl ok_row ↦
      let (rest, few) = claim_lem env db limit items in
      let (r, c, l) = claimable_lem env db item ok_row in
      rw ok_row (((refl, r, c, l), rest), omega arith)
  | inr passed ↦
      let (rest, few) = claim_lem env db (suc limit) items in rw passed ((refl, rest), few)
]

pub Claims-length :
    (env : Environment) (db : Tables) (items : List StagedQueueItem)
    (rows : List (Bool × StagedQueueItem))
    → Claims env db items rows
    → length rows ≡ length items
Claims-length env db [] [] c = refl
Claims-length env db [] (row ∷ rows) c = elim c [ ]
Claims-length env db (item ∷ items) [] c = elim c [ ]
Claims-length env db (item ∷ items) (row ∷ rows) c = ap suc (Claims-length env db items rows c.1)
