-- ===== src/Session/Listed.antt =====
-- How often a session's list has a lock, and what RemoveLock of server/session/session.go leaves.
use go_ldlm.Session.Laws.{IsReliable, held_by, held_by-insert, save_or_panic_reliable, saved_state}
use go_ldlm.Session.{
  SessionStorer, ClientLock, Sessions, without, remove_lock, remove_from, create_session, elements,
  slice_at,
}
use go_ldlm.Common.{
  insert, lookup, ℕ, ◌+◌, String, ◌==◌, eq_iff, ◌≡◌, refl, sym, ◌⊎◌, true, ap, ◌∙◌, inl, inr, false,
  ◌&&◌, Option, none, some, List, [], ◌∷◌, ◌++◌, arith, if◌then◌else◌, Bool-cases,
}

-- How often a list of locks has a name and key.
abbrev pub listed : String → String → List ClientLock → ℕ
listed name key [] = 0
listed name key (l ∷ ls) = (if l.name == name && l.key == key then 1 else 0) + listed name key ls

pub listed-append :
    (n k : String) (xs ys : List ClientLock) → listed n k (xs ++ ys) ≡ listed n k xs + listed n k ys
listed-append n k [] ys = omega arith
listed-append n k (x ∷ xs) ys = omega (arith, listed-append n k xs ys)

-- What is removed from a list is one name and key, and no other.
pub listed-without :
    (n k name key : String) (ls : List ClientLock)
    → (name == n && key == k) ≡ false
    → listed n k (without name key ls) ≡ listed n k ls
unfolding without
listed-without n k name key [] other_key = refl
listed-without n k name key (l ∷ ls) other_key = ground (
  arith,
  eq_iff l.name n,
  eq_iff l.name name,
  eq_iff l.key k,
  eq_iff l.key key,
  eq_iff name n,
  eq_iff key k,
  listed-without n k name key ls other_key,
)

module _ (st : SessionStorer) (ok : IsReliable st) where
  open st use {Disk}

  -- RemoveLock, however it ends, takes no other name and key out of any list.
  pub remove_lock_keeps :
      (name key session_id : String) (s : Sessions Disk) (n k j : String)
      → (name == n && key == k) ≡ false
      → listed n k (held_by j (remove_lock st name key session_id s).1.session_locks)
        ≡ listed n k (held_by j s.session_locks)
  unfolding remove_lock remove_from saved_state
  remove_lock_keeps name key session_id s n k j other_key =
      entry (lookup session_id s.session_locks) refl
    where
      after :
          (l : ClientLock) (ls : List ClientLock)
          → lookup session_id s.session_locks ≡ some (some (l ∷ ls))
          → ((session_id == j) ≡ true) ⊎ ((session_id == j) ≡ false)
          → listed n k
              (if session_id == j then without name key (l ∷ ls) else held_by j s.session_locks)
            ≡ listed n k (held_by j s.session_locks)
      after l ls e (inl y) = rw y (
          listed-without n k name key (l ∷ ls) other_key
          ∙ ap (λ o. listed n k (elements (slice_at o))) (sym e)
          ∙ ap (λ i. listed n k (held_by i s.session_locks)) ((eq_iff session_id j).0 y))
      after l ls e (inr d) = rw d refl

      entry :
          (o : Option (Option (List ClientLock)))
          → lookup session_id s.session_locks ≡ o
          → listed n k (held_by j (remove_from st name key session_id o s).1.session_locks)
            ≡ listed n k (held_by j s.session_locks)
      entry none e = refl
      entry (some none) e = refl
      entry (some (some [])) e = refl
      entry (some (some (l ∷ ls))) e = rw (save_or_panic_reliable st ok _) (
          ap (listed n k) (held_by-insert session_id j (without name key (l ∷ ls)) s.session_locks)
          ∙ after l ls e (Bool-cases (session_id == j)))

  -- A new session has no locks, and CreateSession changes no list.
  pub create_session_keeps :
      (session_id j : String) (s : Sessions Disk)
      → held_by j (create_session st session_id s).session_locks ≡ held_by j s.session_locks
  unfolding create_session
  create_session_keeps session_id j s = entry (lookup session_id s.session_locks) refl
    where
      emptied :
          elements (slice_at (lookup session_id s.session_locks)) ≡ []
          → held_by j (insert session_id (some []) s.session_locks) ≡ held_by j s.session_locks
      emptied e =
          held_by-insert session_id j [] s.session_locks ∙ elim (Bool-cases (session_id == j)) [
            | inl y ↦
                rw y
                  (sym (ap (λ i. held_by i s.session_locks) (sym ((eq_iff session_id j).0 y)) ∙ e))
            | inr n ↦ rw n refl
          ]

      entry :
          (o : Option (Option (List ClientLock)))
          → lookup session_id s.session_locks ≡ o
          → held_by j (create_session st session_id s).session_locks ≡ held_by j s.session_locks
      entry none e = rw (e, create_session) (emptied (ap (λ o. elements (slice_at o)) e))
      entry (some none) e = rw (e, create_session) (emptied (ap (λ o. elements (slice_at o)) e))
      entry (some (some ls)) e = rw (e, create_session) refl
