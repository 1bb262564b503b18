-- ===== src/Server/Keeping.antt =====
-- Each event of server/server.go keeps the locks that are held accounted for by the lists of the
-- sessions.
use mathlib.Core.Path.{subst}
use go_ldlm.Session.Laws.{held_by, IsReliable}
use go_ldlm.Session.Listed.{listed, remove_lock_keeps, create_session_keeps}
use go_ldlm.Server.Interfaces.{LockManager, IsLockManager}
use go_ldlm.Server.Accounts.{kept-IsAccounted, IsAccounted, held_at, listed_at}
use go_ldlm.Server.Effects.{lock_leaves, unlock_leaves, on_timeout_leaves, timer_fired_leaves}
use go_ldlm.Server.Release.{destroy_session-Ended, holders-spec_unlock, holders}
use go_ldlm.Server.Waits.{IsWaitable, Stays}
use go_ldlm.Server.Steps.{fired}
use go_ldlm.Session.{SessionStorer, ClientLock, remove_lock}
use go_ldlm.Server.{
  unlock, create_session, destroy_session, Server, size_or_one, refresh_lock, timer_fires, lock,
}
use go_ldlm.Timer
use go_ldlm.Common.{
  ◌∙◌, sym, ap, refl, if_true, if_false, count, Outcome, pure, ℕ, ◌-◌, ◌<◌, String, ◌==◌, ◌&&◌,
  eq_iff, ◌≡◌, ◌⊎◌, inl, inr, true, false, Option, some, List, [], Bool-cases, ℤ, arith,
  if◌then◌else◌, is_pos, Option-cases,
}

module _ (lm : LockManager) (st : SessionStorer) (good : IsLockManager lm) (ok : IsReliable st)
    (waits : IsWaitable lm good) where
  open lm use {State}
  open st use {Disk}
  open good use {IsValid, view, down}

  abbrev Accounted : Server State Disk → Type 0
  Accounted s = IsAccounted lm st good s

  -- Nothing changes in the lists or in who holds what.
  same-Accounted :
      (s t : Server State Disk)
      → Accounted s
      → Stays lm good s.lock_mgr t.lock_mgr
      → ((j : String) → holders (view t.lock_mgr j) ≡ holders (view s.lock_mgr j))
      → ((j : String) → held_by j t.sess_mgr.session_locks ≡ held_by j s.sess_mgr.session_locks)
      → Accounted t
  same-Accounted s t a m h l =
      kept-IsAccounted lm st good s t a m.valid (m.same_down ∙ a.up)
        (λ name key. omega (arith, ap (count key) (h name)))
        (λ name key j y k. omega (arith, k, ap (listed name key) (l j)))

  untouched-Accounted :
      (s t : Server State Disk)
      → Accounted s
      → t.lock_mgr ≡ s.lock_mgr
      → ((j : String) → held_by j t.sess_mgr.session_locks ≡ held_by j s.sess_mgr.session_locks)
      → Accounted t
  untouched-Accounted s t a m =
      same-Accounted s t a (record { valid = subst IsValid (sym m) a.valid; same_down = ap down m })
        (λ j. ap (λ x. holders (view x j)) m)

  pub connects-Accounted :
      (session_id : String) (s : Server State Disk)
      → Accounted s
      → Accounted (create_session lm st session_id s)
  unfolding create_session
  connects-Accounted session_id s a =
      untouched-Accounted s _ a refl (λ j. create_session_keeps st ok session_id j s.sess_mgr)

  pub disconnects-Accounted :
      (session_id : String) (now : ℕ) (s : Server State Disk)
      → Accounted s
      → s.no_clear_on_disconnect ≡ false
      → Accounted (destroy_session lm st (some session_id) now s).1
  unfolding destroy_session pure
  disconnects-Accounted session_id now s a clears = elim (Bool-cases s.is_shutdown) [
    | inl y ↦
        subst Accounted
          (sym (ap {A = Outcome String × Server State Disk} (λ r. r.1) (if_true _ _ _ y))) a
    | inr n ↦
        let e = destroy_session-Ended lm st good ok session_id now s a.valid a.up n clears in
        kept-IsAccounted lm st good s _ a e.still_valid e.still_up
          (λ name key. omega (arith, e.released_keys name key))
          (λ name key j h k. stays name key j (e.lists j) (e.released_keys name key) h k)
  ]
    where
      stays :
          (name key j : String) {ls : List ClientLock} {n : ℕ}
          → ls ≡ (if session_id == j then [] else held_by j s.sess_mgr.session_locks)
          → n ≡ held_at lm st good s name key - listed_at lm st good s session_id name key
          → 0 < n
          → 0 < listed_at lm st good s j name key
          → 0 < listed name key ls
      stays name key j e f h k = elim (Bool-cases (session_id == j)) [
        | inl y ↦
            let same = ap (λ i. listed_at lm st good s i name key) ((eq_iff session_id j).0 y) in
            absurd (omega (arith, same, f, h, k, a.once name key))
        | inr d ↦ omega (arith, k, ap (listed name key) (e ∙ if_false _ _ _ d))
      ]

  released-Accounted :
      (name key session_id : String) (now : ℕ) (s t : Server State Disk)
      → Accounted s
      → t.lock_mgr ≡ (lm.unlock name key now s.lock_mgr).1
      → (t.sess_mgr ≡ s.sess_mgr) ⊎ (t.sess_mgr ≡ (remove_lock st name key session_id s.sess_mgr).1)
      → Accounted t
  released-Accounted name key session_id now s t a m l =
      let (valid, up) = good.unlock_valid name key now s.lock_mgr a.valid in
      kept-IsAccounted lm st good s t a (subst IsValid (sym m) valid) (ap down m ∙ up ∙ a.up)
        (λ n k. omega (arith, fewer n k))
        (λ n k j h i. elim (Bool-cases (name == n && key == k)) [
          | inl y ↦ absurd (omega (arith, a.once n k, h, gone n k y))
          | inr d ↦ omega (arith, i, stays n k j d l)
        ])
    where
      fewer :
          (n k : String)
          → held_at lm st good t n k
            ≡ held_at lm st good s n k - (if name == n && key == k then 1 else 0)
      fewer n k =
          ap (λ x. count k (holders (view x n))) m
          ∙ ap (λ o. count k (holders o))
              ((good.unlock_follows name key now s.lock_mgr a.valid).state n)
          ∙ rw a.up (holders-spec_unlock name key n k (view s.lock_mgr))

      gone :
          (n k : String)
          → (name == n && key == k) ≡ true
          → held_at lm st good t n k ≡ held_at lm st good s n k - 1
      gone n k y = fewer n k ∙ ap (λ x. held_at lm st good s n k - x) (if_true _ _ _ y)

      stays :
          (n k j : String)
          → (name == n && key == k) ≡ false
          → (t.sess_mgr ≡ s.sess_mgr)
            ⊎ (t.sess_mgr ≡ (remove_lock st name key session_id s.sess_mgr).1)
          → listed_at lm st good t j n k ≡ listed_at lm st good s j n k
      stays n k j d (inl e) = ap (λ x. listed n k (held_by j x.session_locks)) e
      stays n k j d (inr e) =
          ap (λ x. listed n k (held_by j x.session_locks)) e
          ∙ remove_lock_keeps st ok name key session_id s.sess_mgr n k j d

  pub unlocks-Accounted :
      (session_id name key : String) (now : ℕ) (s : Server State Disk)
      → Accounted s
      → Accounted (unlock lm st (some session_id) name key now s).1
  unlocks-Accounted session_id name key now s a =
      let (mgr, sess) =
        unlock_leaves lm st session_id name key now s _
          (good.unlock_follows name key now s.lock_mgr a.valid).reply in
      released-Accounted name key session_id now s _ a mgr sess

  pub locks-Accounted :
      (session_id name : String) (size t w : Option ℤ) (key : String) (now : ℕ)
      (s : Server State Disk)
      → Accounted s
      → Accounted (lock lm st (some session_id) name size t w key now s).1
  locks-Accounted session_id name size t w key now s a =
      let (sess, mgr) = lock_leaves lm st session_id name size t w key now s in
      elim mgr [
        | inl e ↦ untouched-Accounted s _ a e (λ j. ap (λ x. held_by j x.session_locks) sess)
        | inr e ↦
            let y = waits.lock_stays name (size_or_one size) now s.lock_mgr a.valid in
            same-Accounted s _ a
              (record {
                valid = subst IsValid (sym e) y.valid;
                same_down = ap down e ∙ y.same_down;
              })
              (λ j.
                ap (λ x. holders (view x j)) e
                ∙ waits.lock_holds name (size_or_one size) now s.lock_mgr a.valid j)
              (λ j. ap (λ x. held_by j x.session_locks) sess)
      ]

  pub refreshes-Accounted :
      (name key : String) (t : ℤ) (now : ℕ) (s : Server State Disk)
      → Accounted s
      → Accounted (refresh_lock lm st name key t now s).1
  unfolding refresh_lock
  refreshes-Accounted name key t now s a = elim (Bool-cases (is_pos t)) [
    | inl y ↦ rw y (untouched-Accounted s _ a refl (λ j. refl))
    | inr n ↦ rw n a
  ]

  pub times_out-Accounted :
      (i now : ℕ) (s : Server State Disk)
      → Accounted s
      → Accounted (fired lm st s (timer_fires lm st i now s))
  unfolding timer_fires fired
  times_out-Accounted i now s a = elim (Option-cases (Timer.fire i now s.lock_timers)) [
    | inl e ↦ rw (e, timer_fires) a
    | inr (((c, key), timers), e) ↦
        rw (e, timer_fires)
          (let s' = record s { lock_timers = timers } in
            let (mgr, sess) = timer_fired_leaves lm st c key now s' in
            let (left, removed) =
              on_timeout_leaves lm st c now s' _
                (good.unlock_follows c.name c.key now s.lock_mgr a.valid).reply in
            released-Accounted c.name c.key c.session_id now s _ a (mgr ∙ left)
              (inr (sess ∙ removed)))
  ]
