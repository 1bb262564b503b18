-- ===== src/Manager/Find.antt =====
-- The shards of lock/manager.go seen as one map from names to locks.
use native.Mathlib.Decide.{ℕ_discrete}
use go_ldlm.Common.{
  lookup, insert, lookup-insert, lookup-delete, ℕ, zero, suc, ◌+◌, ◌%◌, ◌<◌, String, ◌==◌, eq_iff,
  ◌≡◌, refl, sym, ap, inl, inr, Bool, true, false, not, ◌&&◌, Option, none, some, List, [], ◌∷◌,
  map, arith, eqb, if◌then◌else◌, Bool-cases, Option-cases, length, set, get_or, length-set,
  get_or-set_self, get_or-set_ne, ℤ, is_pos, eqz,
}
use go_ldlm.Errors.{lock_does_not_exist, lock_size_mismatch, invalid_lock_size}
use go_ldlm.Lock.{new_lock}
use go_ldlm.Manager.{
  Found, found, refused, get_lock, ManagedLock, Shard, Manager, new_manager, empty_shards,
  get_shard, find, put, is_garbage, sweep, lock_gc,
}

-- There is a shard for every hash.
abbrev pub HasShards : Manager → Type 0
HasShards m = 0 < length m.shards

pub HasShards-new_manager : (n : ℕ) → HasShards (new_manager n)
unfolding new_manager
HasShards-new_manager zero = omega arith
HasShards-new_manager (suc n) = grind arith

lookup-write :
    (k j : String) (l : ManagedLock) (ss : List Shard) (a b : ℕ)
    → a < length ss
    → (k ≡ j → a ≡ b)
    → lookup j (get_or (set ss a (insert k l (get_or ss a []))) b [])
      ≡ (if k == j then some l else lookup j (get_or ss b []))
lookup-write k j l ss a b h same = elim (ℕ_discrete a b) [
  | yes e ↦ rw (← e) (
      rw (get_or-set_self ss a (insert k l (get_or ss a [])) [] h)
        (lookup-insert k j l (get_or ss a [])))
  | no ne ↦
      rw (get_or-set_ne ss a b (insert k l (get_or ss a [])) [] ne) (elim (Bool-cases (k == j)) [
        | inl t ↦ absurd (ne (same ((eq_iff k j).0 t)))
        | inr f ↦ rw f
      ])
]

get_or-map :
    (f : Shard → Shard) (ss : List Shard) (i : ℕ)
    → f [] ≡ []
    → get_or (map f ss) i [] ≡ f (get_or ss i [])
get_or-map f [] i e = sym e
get_or-map f (s ∷ ss) zero e = refl
get_or-map f (s ∷ ss) (suc i) e = get_or-map f ss i e

get_or-empty_shards : (n i : ℕ) → get_or (empty_shards n) i [] ≡ []
get_or-empty_shards zero i = refl
get_or-empty_shards (suc n) zero = refl
get_or-empty_shards (suc n) (suc i) = get_or-empty_shards n i

abbrev pub retained : (ManagedLock → Bool) → Option ManagedLock → Option ManagedLock
retained garbage none = none
retained garbage (some l) = if garbage l then none else some l

lookup-sweep :
    (min_idle now : ℕ) (name : String) (s : Shard)
    → lookup name (sweep min_idle now s) ≡ retained (is_garbage min_idle now) (lookup name s)
unfolding sweep lookup
lookup-sweep min_idle now name [] = refl
lookup-sweep min_idle now name ((k, l) ∷ rest) =
    ground
      (arith, lookup-sweep min_idle now name rest, lookup-delete k name (sweep min_idle now rest))

pub length-shards-map : (f : Shard → Shard) (ss : List Shard) → length (map f ss) ≡ length ss
length-shards-map f [] = refl
length-shards-map f (s ∷ ss) = ap suc (length-shards-map f ss)

module _ (hash : String → ℕ) where
  pub get_shard_in_range :
      (name : String) (m : Manager) → HasShards m → get_shard hash name m < length m.shards
  unfolding get_shard
  get_shard_in_range name m h = grind arith

  pub put-HasShards :
      (k : String) (l : ManagedLock) (m : Manager) → HasShards m → HasShards (put hash k l m)
  unfolding put
  put-HasShards k l m h = rw length-set h

  -- Writing one lock leaves every other where it was, in whichever shard.
  pub find-put :
      (k j : String) (l : ManagedLock) (m : Manager)
      → HasShards m
      → find hash j (put hash k l m) ≡ (if k == j then some l else find hash j m)
  unfolding find put
  find-put k j l m h = rw length-set (
      lookup-write k j l m.shards (get_shard hash k m) (get_shard hash j m)
        (get_shard_in_range k m h) (λ e. ap (λ n. get_shard hash n m) e))

  pub find-new_manager : (name : String) (n : ℕ) → find hash name (new_manager n) ≡ none
  unfolding find new_manager lookup
  find-new_manager name n =
      let k : ℕ = if eqb n 0 then 1 else n in
      rw (get_or-empty_shards k (hash name % length (empty_shards k)))

  -- Garbage collection takes the garbage out of the map, and nothing else.
  pub find-lock_gc :
      (min_idle now : ℕ) (name : String) (m : Manager)
      → find hash name (lock_gc min_idle now m)
        ≡ retained (is_garbage min_idle now) (find hash name m)
  unfolding find lock_gc get_shard
  find-lock_gc min_idle now name m = rw (length-shards-map (sweep min_idle now) m.shards) (
      rw
        (get_or-map (sweep min_idle now) m.shards (hash name % length m.shards)
          (unfold sweep in refl))
        (lookup-sweep min_idle now name (get_or m.shards (hash name % length m.shards) [])))

  abbrev pub fresh_lock : ℤ → ℕ → Manager → ManagedLock
  fresh_lock size now m = record {
    id = m.next_id;
    last_accessed = now;
    deleted = false;
    lock = new_lock size;
  }

  -- The branches of getLock.
  pub get_lock_cases {ℓ} :
      (P : Found × Manager → Type ℓ) (name : String) (create : Bool) (size : ℤ) (now : ℕ)
      (m : Manager)
      → (is_pos size ≡ false → P (refused invalid_lock_size, m))
      → (is_pos size ≡ true
          → find hash name m ≡ none
          → create ≡ true
          → P (
            found (fresh_lock size now m),
            record (put hash name (fresh_lock size now m) m) { next_id = m.next_id + 1 },
          ))
      → (is_pos size ≡ true
          → find hash name m ≡ none
          → create ≡ false
          → P (refused lock_does_not_exist, m))
      → ((l : ManagedLock)
          → is_pos size ≡ true
          → find hash name m ≡ some l
          → (create && not (eqz size l.lock.size)) ≡ true
          → P (refused lock_size_mismatch, m))
      → ((l : ManagedLock)
          → is_pos size ≡ true
          → find hash name m ≡ some l
          → (create && not (eqz size l.lock.size)) ≡ false
          → P (
            found (record l { last_accessed = now }),
            put hash name (record l { last_accessed = now }) m,
          ))
      → P (get_lock hash name create size now m)
  unfolding get_lock
  get_lock_cases P name create size now m bad fresh missing mismatch old =
      elim (Bool-cases (is_pos size)) [
        | inr e ↦ simp e (bad e)
        | inl e ↦ simp e (elim (Option-cases (find hash name m)) [
          | inl n ↦ simp n (elim (Bool-cases create) [
            | inl c ↦ simp c (fresh e n c)
            | inr c ↦ simp c (missing e n c)
          ])
          | inr (l, n) ↦ simp n (elim (Bool-cases (create && not (eqz size l.lock.size))) [
            | inl c ↦ simp c (mismatch l e n c)
            | inr c ↦ simp c (old l e n c)
          ])
        ])
      ]
