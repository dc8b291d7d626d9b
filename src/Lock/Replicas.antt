-- ===== src/Lock/Replicas.antt =====
-- Replicas that share one lock: interleavings of their calls as a step relation.
use senderplatformtest.Prelude.{
  ℕ, ◌≡◌, ◌≢◌, ◌∙◌, Bool, true, false, none, some, String, arith, ◌==◌, if◌then◌else◌, eq_iff,
  Option-cases, inl, inr,
}
use senderplatformtest.Redis.{RedisKey, text, Redis}
use senderplatformtest.Lock.{DistributedLock, release_script, acquire, release}

abbrev pub put_at : ℕ → Bool → (ℕ → Bool) → ℕ → Bool
put_at i b f j = if i == j then b else f j

module _ {Item : Type 0} (redis : Redis Item) (key : RedisKey) (ttl : ℕ) (token : ℕ → String) where
  open redis use {Store, get, set_nx_ex, delete, set_nx_ex_free, set_nx_ex_taken, get-delete_self}

  -- The store, and what each replica's lock object believes.
  pub record System : Type 0 where
    pub store : Store
    pub held : ℕ → Bool

  abbrev pub lock_of : System → ℕ → DistributedLock
  lock_of a i = record { key = key; ttl_seconds = ttl; token = token i; held = a.held i }

  unfoldable pub acquired : System → ℕ → System
  unfolding acquire
  acquired a i =
      let r = acquire redis (lock_of a i) a.store in
      record { store = r.2; held = put_at i r.1.held a.held }

  unfoldable pub released : System → ℕ → System
  unfolding release
  released a i =
      let r = release redis (lock_of a i) a.store in
      record { store = r.1; held = put_at i r.0.held a.held }

  -- One replica calls `acquire` or `release`, or some client changes what is not the lock's key.
  pub data Step : System → System → Type 0 where
    acquires : (a : System) (i : ℕ) → Step a (acquired a i)
    releases : (a : System) (i : ℕ) → Step a (released a i)
    elsewhere :
        (a : System) (s : Store) → get key s ≡ get key a.store → Step a (record a { store = s })

  pub data Reach (a : System) : System → Type 0 where
    here : Reach a a
    next : {b c : System} → Reach a b → Step b c → Reach a c

  -- Who believes that it holds the lock has its token at the key.
  abbrev pub IsOwned : System → Type 0
  IsOwned a = (i : ℕ) → a.held i ≡ true → get key a.store ≡ some (text (token i))

  acquired-IsOwned : (a : System) (i : ℕ) → IsOwned a → IsOwned (acquired a i)
  unfolding acquired acquire
  acquired-IsOwned a i own j h = elim (Option-cases (get key a.store)) [
    | inl free ↦ ground (arith, set_nx_ex_free key (text (token i)) ttl a.store free, own j)
    | inr (w, taken) ↦
        ground (arith, set_nx_ex_taken key (text (token i)) w ttl a.store taken, own j)
  ]

  module _ (distinct : (i j : ℕ) → token i ≡ token j → i ≡ j) where
    released-IsOwned : (a : System) (i : ℕ) → IsOwned a → IsOwned (released a i)
    unfolding released release release_script
    released-IsOwned a i own j h = ground (arith, own j, distinct j i, eq_iff (token j) (token i))

    Step-IsOwned : {a b : System} → Step a b → IsOwned a → IsOwned b
    Step-IsOwned (acquires a i) own = acquired-IsOwned a i own
    Step-IsOwned (releases a i) own = released-IsOwned a i own
    Step-IsOwned (elsewhere a s same) own = λ i h. same ∙ own i h

    pub Reach-IsOwned : {a b : System} → IsOwned a → Reach a b → IsOwned b
    Reach-IsOwned own here = own
    Reach-IsOwned own (next r st) = Step-IsOwned st (Reach-IsOwned own r)

    -- From a state in which nobody believes to hold the lock, whatever calls the replicas make and
    -- in whatever order, as long as the key neither runs out nor is written by another client, two
    -- replicas that believe to hold the lock are the same one. The tokens are distinct.
    pub mutual_exclusion :
        {a b : System} (i j : ℕ)
        → ((k : ℕ) → a.held k ≡ false)
        → Reach a b
        → b.held i ≡ true
        → b.held j ≡ true
        → i ≡ j
    mutual_exclusion {a} i j free r hi hj =
        let own = Reach-IsOwned (λ k h. cc (free k)) r in distinct i j (cc (own i hi, own j hj))

    -- A release of a replica whose token is not at the key, since its lock ran out and another one
    -- holds it now, leaves the store as it is: nobody can release the lock of another. It ends the
    -- replica's own belief.
    pub release_foreign :
        (a : System) (i j : ℕ)
        → get key a.store ≡ some (text (token j))
        → i ≢ j
        → ((released a i).store ≡ a.store) × ((released a i).held i ≡ false)
    unfolding released release release_script
    release_foreign a i j e n = ground (arith, distinct j i, eq_iff (token j) (token i))

  -- When the key of a lock that `i` believes to hold runs out, any other replica acquires the lock,
  -- and both believe to hold it: the lock excludes only for its time to live.
  pub expiry_two_holders :
      (a : System) (i j : ℕ)
      → a.held i ≡ true
      → get key a.store ≡ none
      → ((acquired a j).held i ≡ true)
        × ((acquired a j).held j ≡ true)
        × (get key (acquired a j).store ≡ some (text (token j)))
  unfolding acquired acquire
  expiry_two_holders a i j h free =
      ground (arith, set_nx_ex_free key (text (token j)) ttl a.store free)
