-- ===== src/Manager/Ops.antt =====
-- The methods of lock/manager.go implement the map of Manager/Spec.antt.
use go_ldlm.Lock.{new_lock}
use mathlib.Core.Option
use go_ldlm.Common.{
  eq_iff, contains, erase, pos, ℕ, ◌+◌, String, ◌==◌, ◌≡◌, refl, sym, ◌∙◌, inl, inr, Bool, true,
  false, not, ◌&&◌, Option, none, some, arith, ltb, if◌then◌else◌, Bool-cases, length, ℤ, pos_part,
  Outcome, returns,
}
use go_ldlm.Errors.{invalid_lock_key, Error, live}
use go_ldlm.Lock.Ops.{unlock_lem, try_lock_lem}
use go_ldlm.Manager.{
  unlock, unlock_found, get_shard, ManagedLock, Manager, found, find, put, try_lock_found, try_lock,
}
use mathlib.Core.Bool.{false≢true}
use go_ldlm.Manager.Find.{HasShards, find-put, get_lock_cases, put-HasShards}
use go_ldlm.Manager.Spec.{spec_unlock, Entry, Spec, update, Answer, spec_take, spec_try_lock}
use go_ldlm.Manager.Invariant.{IsGood, Inv, fresh_lock-IsGood, touched-IsGood}

not-true : {b : Bool} → (true && not b) ≡ true → b ≡ false
not-true {b} h = ground arith

not-false : {b : Bool} → (true && not b) ≡ false → b ≡ true
not-false {b} h = ground arith

abbrev pub entry : ManagedLock → Entry
entry l = record { size = l.lock.size; keys = l.lock.keys }

module _ (hash : String → ℕ) where
  unfoldable pub view : Manager → Spec
  view m name = Option.map entry (find hash name m)

  pub view-put :
      (k j : String) (l : ManagedLock) (m : Manager)
      → HasShards m
      → view (put hash k l m) j ≡ (if k == j then some (entry l) else view m j)
  unfolding view
  view-put k j l m h = rw (find-put hash k j l m h) (ground arith)

  -- A method's result and the map after it are those of the specification.
  pub record Agrees (r : Outcome (Bool × Option Error) × Manager) (a : Answer) : Type 0 where
    pub reply : r.0 ≡ returns a.0
    pub state : (j : String) → view r.1 j ≡ a.1 j

  try_lock_found-Agrees :
      (name key : String) (l : ManagedLock) (m : Manager) (s : Spec)
      → HasShards m
      → IsGood l
      → m.ctx ≡ live
      → ((j : String) → view m j ≡ update name (entry l) s j)
      → Agrees (try_lock_found hash name key (found l) m) (spec_take name key (entry l) s)
  unfolding try_lock_found
  try_lock_found-Agrees name key l m s h g c same =
      simp (g.kept, c, try_lock_lem key l.lock g.sound)
        (elim (Bool-cases (ltb (length l.lock.keys) (pos_part l.lock.size))) [
          | inl room ↦ rw room (record {
            reply = refl;
            state = λ j. rw (view-put name j _ m h) (ground (arith, same j));
          })
          | inr full ↦ rw full (record {
            reply = refl;
            state = λ j. rw (view-put name j _ m h) (ground (arith, same j));
          })
        ])

  keep :
      (a : Bool × Option Error) (m : Manager) (s : Spec)
      → ((j : String) → view m j ≡ s j)
      → Agrees (returns a, m) (a, s)
  keep a m s h = record { reply = refl; state = h }

  view-some :
      (name : String) (m : Manager) (l : ManagedLock)
      → find hash name m ≡ some l
      → view m name ≡ some (entry l)
  unfolding view
  view-some name m l e = rw e

  view-none : (name : String) (m : Manager) → find hash name m ≡ none → view m name ≡ none
  unfolding view
  view-none name m e = rw e

  pub view-next_id :
      (n : ℕ) (m : Manager) (j : String) → view (record m { next_id = n }) j ≡ view m j
  unfolding view find get_shard
  view-next_id n m j = refl

  -- TryLock of a well-formed manager, on every branch: it answers as the map of names does, and
  -- leaves the shards standing for the map that results. `m.is_shutdown` is the only state that is
  -- not in the map.
  pub try_lock_Agrees :
      (name key : String) (size : ℤ) (now : ℕ) (m : Manager)
      → Inv hash m
      → Agrees
          (try_lock hash name key size now m)
          (spec_try_lock m.is_shutdown name key size (view m))
  unfolding try_lock new_lock
  try_lock_Agrees name key size now m v = elim (Bool-cases m.is_shutdown) [
    | inl down ↦ simp down (keep _ m (view m) (λ j. refl))
    | inr up ↦ simp up (
        get_lock_cases hash
          (λ r.
            Agrees (try_lock_found hash name key r.0 r.1)
              (spec_try_lock false name key size (view m)))
          name true size now m
          (λ bad. simp bad (unfold try_lock_found in keep _ m (view m) (λ j. refl)))
          (λ ok e _.
            simp (ok, view-none name m e)
              (try_lock_found-Agrees name key _ _ (view m)
                (put-HasShards hash name _ m v.has_shards) (fresh_lock-IsGood hash size now m ok)
                (unfold put in v.live_ctx up)
                (λ j. view-next_id (m.next_id + 1) _ j ∙ view-put name j _ m v.has_shards)))
          (λ ok e c. absurd (false≢true (sym c)))
          (λ l ok e c. simp (ok, view-some name m l e, not-true c) (keep _ m (view m) (λ j. refl)))
          (λ l ok e c.
            simp (ok, view-some name m l e, not-false c)
              (try_lock_found-Agrees name key _ _ (view m)
                (put-HasShards hash name _ m v.has_shards) (touched-IsGood hash name now m l v e)
                (unfold put in v.live_ctx up) (λ j. view-put name j _ m v.has_shards))))
  ]

  unlock_found-Agrees :
      (name key : String) (l : ManagedLock) (m : Manager) (s : Spec)
      → HasShards m
      → IsGood l
      → m.ctx ≡ live
      → s name ≡ some (entry l)
      → ((j : String) → view m j ≡ s j)
      → Agrees (unlock_found hash name key (found l) m) (
          if contains key l.lock.keys
          then (
            (true, none),
            update name (record { size = l.lock.size; keys = erase key l.lock.keys }) s,
          )
          else ((false, some invalid_lock_key), s))
  unfolding unlock_found
  unlock_found-Agrees name key l m s h g c at same =
      simp (g.kept, c, unlock_lem key l.lock g.sound)
        (elim (Bool-cases (contains key l.lock.keys)) [
          | inl held ↦ simp held (record {
            reply = refl;
            state = λ j. rw (view-put name j _ m h) (ground (arith, same j));
          })
          | inr free ↦ simp free (record {
            reply = refl;
            state = λ j. rw (view-put name j _ m h) (ground (arith, same j, at, eq_iff name j));
          })
        ])

  view-touched :
      (name j : String) (now : ℕ) (m : Manager) (l : ManagedLock)
      → HasShards m
      → find hash name m ≡ some l
      → view (put hash name (record l { last_accessed = now }) m) j ≡ view m j
  view-touched name j now m l h e =
      rw (view-put name j _ m h) (ground (arith, view-some name m l e, eq_iff name j))

  -- The answer of Unlock of a well-formed manager, on every branch, and the map after it.
  pub unlock_Agrees :
      (name key : String) (now : ℕ) (m : Manager)
      → Inv hash m
      → Agrees (unlock hash name key now m) (spec_unlock m.is_shutdown name key (view m))
  unfolding unlock
  unlock_Agrees name key now m v = elim (Bool-cases m.is_shutdown) [
    | inl down ↦ simp down (keep _ m (view m) (λ j. refl))
    | inr up ↦ simp up (
        get_lock_cases hash
          (λ r. Agrees (unlock_found hash name key r.0 r.1) (spec_unlock false name key (view m)))
          name false (pos 1) now m (λ bad. absurd (false≢true (sym bad)))
          (λ ok e c. absurd (false≢true c))
          (λ ok e c. simp (view-none name m e) (keep _ m (view m) (λ j. refl)))
          (λ l ok e c. absurd (false≢true c))
          (λ l ok e c. simp (view-some name m l e) (
            unlock_found-Agrees name key _ _ (view m) (put-HasShards hash name _ m v.has_shards)
              (touched-IsGood hash name now m l v e) (unfold put in v.live_ctx up)
              (view-some name m l e) (λ j. view-touched name j now m l v.has_shards e))))
  ]
