-- ===== src/Lock/Owner.antt =====
-- The lock as an owner: what the commands do to the one text that Redis keeps, over any sequence of
-- calls of replicas, between which the key may run out.
use senderplatformtest.Prelude.{
  ◌≡◌, refl, sym, subst, ap, ◌∙◌, Bool, true, false, Option, none, some, String, List, [], ◌∷◌,
  if◌then◌else◌, str_eq, Bool-cases, inl, inr, ℕ,
}
use senderplatformtest.Redis.{RedisKey, Value, text, Redis}
use senderplatformtest.Lock.{DistributedLock, new_lock, release_script, acquire, release}

-- Which replicas believe to hold the lock, by their tokens.
abbrev pub Beliefs : Type 0
Beliefs = String → Bool

abbrev pub believe : String → Bool → Beliefs → Beliefs
believe token held beliefs t = if str_eq t token then held else beliefs t

-- A call of a replica, or the key runs out.
pub data Call : Type 0 where
  acquires : String → Call
  releases : String → Call
  expires : Call

-- The specification, over the owner and the beliefs. A lock without an owner is given away; where it
-- has one, nobody gets it, and the caller believes from then on not to hold it, also if it is the
-- owner. A release by a replica that believes to hold the lock takes the ownership away where the
-- replica has it, and every other release does nothing.
abbrev pub answer_to : Call → Option String → Beliefs → Bool × Option String × Beliefs
answer_to (acquires token) none beliefs = (true, some token, believe token true beliefs)
answer_to (acquires token) (some owner) beliefs = (false, some owner, believe token false beliefs)
answer_to (releases token) none beliefs = (true, none, believe token false beliefs)
answer_to (releases token) (some owner) beliefs = (
  true,
  if beliefs token then (if str_eq owner token then none else some owner) else some owner,
  believe token false beliefs,
)
answer_to expires owner beliefs = (true, none, beliefs)

-- The answers, the owner and the beliefs after some calls.
abbrev pub specified : List Call → Option String → Beliefs → List Bool × Option String × Beliefs
specified [] owner beliefs = ([], owner, beliefs)
specified (call ∷ calls) owner beliefs =
    let (answer, owner', beliefs') = answer_to call owner beliefs in
    let (answers, last, believed) = specified calls owner' beliefs' in
    (answer ∷ answers, last, believed)

abbrev as_value : Option String → Option Value
as_value none = none
as_value (some owner) = some (text owner)

module _ {Item : Type 0} (redis : Redis Item) (key : RedisKey) (ttl_seconds : ℕ) where
  open redis use {Store, get, delete, set_nx_ex_free, set_nx_ex_taken, get-delete_self}

  abbrev pub Represents : Store → Option String → Type 0
  Represents s owner = get key s ≡ as_value owner

  -- The lock object of the replica with a token.
  abbrev lock_of : String → Beliefs → DistributedLock
  lock_of token beliefs = record (new_lock key ttl_seconds token) { held = beliefs token }

  unfoldable pub perform : Call → Beliefs → Store → Bool × Beliefs × Store
  perform (acquires token) beliefs s =
      let (acquired, lock, s') = acquire redis (lock_of token beliefs) s in
      (acquired, believe token lock.held beliefs, s')
  perform (releases token) beliefs s =
      let (lock, s') = release redis (lock_of token beliefs) s in
      (true, believe token lock.held beliefs, s')
  perform expires beliefs s = (true, beliefs, delete key s)

  unfoldable pub performed : List Call → Beliefs → Store → List Bool × Beliefs × Store
  performed [] beliefs s = ([], beliefs, s)
  performed (call ∷ calls) beliefs s =
      let (answer, beliefs', s') = perform call beliefs s in
      let (answers, believed, last) = performed calls beliefs' s' in
      (answer ∷ answers, believed, last)

  Simulated : Call → Option String → Beliefs → Bool × Beliefs × Store → Type 0
  Simulated call owner beliefs out =
      (out.0 ≡ (answer_to call owner beliefs).0)
      × (out.1 ≡ (answer_to call owner beliefs).2)
      × Represents out.2 (answer_to call owner beliefs).1

  -- A release by a replica that does not believe to hold the lock, and by one that does.
  unheld_release :
      (token : String) (beliefs : Beliefs) (s : Store)
      → beliefs token ≡ false
      → perform (releases token) beliefs s ≡ (true, believe token false beliefs, s)
  unfolding perform release new_lock
  unheld_release token beliefs s off = rw (perform, release, off)

  held_release :
      (token : String) (beliefs : Beliefs) (s : Store)
      → beliefs token ≡ true
      → perform (releases token) beliefs s
        ≡ (true, believe token false beliefs, release_script redis key token s)
  unfolding perform release new_lock
  held_release token beliefs s on = rw (perform, release, on)

  scripted :
      (token owner : String) (s : Store)
      → Represents s (some owner)
      → Represents
          (release_script redis key token s)
          (if str_eq owner token then none else some owner)
  unfolding release_script
  scripted token owner s r = elim (Bool-cases (str_eq owner token)) [
    | inl own ↦ rw (release_script, r, own) (get-delete_self key s)
    | inr other ↦ rw (release_script, r, other) r
  ]

  perform-refines :
      (call : Call) (beliefs : Beliefs) (s : Store) (owner : Option String)
      → Represents s owner
      → Simulated call owner beliefs (perform call beliefs s)
  unfolding perform Simulated acquire release_script new_lock
  perform-refines (acquires token) beliefs s none r =
      let (answer, kept) = set_nx_ex_free key (text token) ttl_seconds s r in
      (answer, ap (λ held. believe token held beliefs) answer, kept)
  perform-refines (acquires token) beliefs s (some owner) r =
      let (answer, same) = set_nx_ex_taken key (text token) (text owner) ttl_seconds s r in
      (answer, ap (λ held. believe token held beliefs) answer, ap (get key) same ∙ r)
  perform-refines expires beliefs s owner r = (refl, refl, get-delete_self key s)
  perform-refines (releases token) beliefs s none r = elim (Bool-cases (beliefs token)) [
    | inr off ↦
        subst (λ out. Simulated (releases token) none beliefs out)
          (sym (unheld_release token beliefs s off)) (refl, refl, r)
    | inl on ↦
        subst (λ out. Simulated (releases token) none beliefs out)
          (sym (held_release token beliefs s on)) (refl, refl, rw (release_script, r) r)
  ]
  perform-refines (releases token) beliefs s (some owner) r = elim (Bool-cases (beliefs token)) [
    | inr off ↦
        subst (λ out. Simulated (releases token) (some owner) beliefs out)
          (sym (unheld_release token beliefs s off)) (refl, refl, rw off r)
    | inl on ↦
        subst (λ out. Simulated (releases token) (some owner) beliefs out)
          (sym (held_release token beliefs s on)) (refl, refl, rw on (scripted token owner s r))
  ]

  -- Over any calls to acquire and to release, by any replicas in any order, with the key running out
  -- in between, from a key that has the specification's owner: the lock in Redis and the objects of
  -- the replicas give the answers of the specification, and in the end the key has its owner and the
  -- replicas have its beliefs.
  pub performed-refines :
      (calls : List Call) (beliefs : Beliefs) (s : Store) (owner : Option String)
      → Represents s owner
      → ((performed calls beliefs s).0 ≡ (specified calls owner beliefs).0)
        × ((performed calls beliefs s).1 ≡ (specified calls owner beliefs).2)
        × Represents (performed calls beliefs s).2 (specified calls owner beliefs).1
  unfolding performed Simulated
  performed-refines [] beliefs s owner r = (refl, refl, r)
  performed-refines (call ∷ calls) beliefs s owner r =
      let (answer, believed, next) = perform-refines call beliefs s owner r in
      let owner' = (answer_to call owner beliefs).1 in
      let out = perform call beliefs s in
      let (answers, ends, last) = performed-refines calls out.1 out.2 owner' next in
      let same = ap (specified calls owner') believed in
      (
        ap (λ a. a ∷ (performed calls out.1 out.2).0) answer
            ∙ ap (λ l. (answer_to call owner beliefs).0 ∷ l) (answers ∙ ap (λ x. x.0) same),
        ends ∙ ap (λ x. x.2) same,
        last ∙ ap (λ x. as_value x.1) same,
      )
