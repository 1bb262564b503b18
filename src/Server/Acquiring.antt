-- ===== src/Server/Acquiring.antt =====
-- The events of server/server.go that acquire a lock keep the locks that are held accounted for by
-- the lists of the sessions.
use mathlib.Core.Path.{subst}
use mathlib.Core.List.{append-nil}
use go_ldlm.Session.Laws.{held_by, IsReliable}
use go_ldlm.Server.Interfaces.{LockManager, IsLockManager}
use go_ldlm.Server.Accounts.{taken-IsAccounted, IsAccounted, held_at, holders-spec_try_lock}
use go_ldlm.Server.Effects.{try_lock_refused}
use go_ldlm.Server.Release.{holders}
use go_ldlm.Server.Requests.{try_lock_registers, try_lock_mgr, register_lem, joined}
use go_ldlm.Server.Waits.{IsWaitable, Stays, is_acquired, added}
use go_ldlm.Errors.{Context}
use go_ldlm.Lock.{Case, LockReply, acquired, failed}
use go_ldlm.Session.{SessionStorer}
use go_ldlm.Server.{
  try_lock, lock_resume, lock_replied, lock_event, Waiting, Server, Event, begins, selects,
  size_or_one, is_negative, lock_context, on_locks,
}
use go_ldlm.Common.{
  eq_refl, ◌∙◌, sym, ap, refl, Outcome, returns, panics, blocks, continue, pure, ℕ, String, ◌==◌,
  ◌&&◌, ◌≡◌, ◌⊎◌, inl, inr, true, false, Option, none, some, [], ◌∷◌, ◌++◌, Bool-cases, ℤ,
}

module _ (lm : LockManager) (st : SessionStorer) (good : IsLockManager lm) (ok : IsReliable st)
    (waits : IsWaitable lm good) where
  open lm use {State}
  open st use {Disk}
  open good use {IsValid, view, down}

  abbrev Accounted : Server State Disk → Type 0
  Accounted s = IsAccounted lm st good s

  pub try_locks-Accounted :
      (session_id name : String) (size timeout : Option ℤ) (key : String) (now : ℕ)
      (s : Server State Disk)
      → Accounted s
      → held_at lm st good s name key ≡ 0
      → Accounted (try_lock lm st (some session_id) name size timeout key now s).1
  try_locks-Accounted session_id name size timeout key now s a fresh =
      elim (Bool-cases (is_negative timeout)) [
        | inl y ↦ refused (inl y)
        | inr fits ↦ elim (Bool-cases (name == "")) [
          | inl y ↦ refused (inr y)
          | inr named ↦ accepted fits named
        ]
      ]
    where
      refused :
          (is_negative timeout ≡ true) ⊎ ((name == "") ≡ true)
          → Accounted (try_lock lm st (some session_id) name size timeout key now s).1
      refused h =
          subst Accounted (sym (try_lock_refused lm st session_id name size timeout key now s h)) a

      accepted :
          is_negative timeout ≡ false
          → (name == "") ≡ false
          → Accounted (try_lock lm st (some session_id) name size timeout key now s).1
      accepted fits named =
          let mgr =
            try_lock_mgr lm st good ok session_id name key size timeout now s a.valid named fits in
          let (_, state, lists) =
            try_lock_registers lm st good ok session_id name key size timeout now s a.valid named
              fits in
          let (valid, up) =
            good.try_lock_valid name key (size_or_one size) now s.lock_mgr a.valid in
          taken-IsAccounted lm st good name key session_id (size_or_one size) _ s _ a
            (subst IsValid (sym mgr) valid) (ap down mgr ∙ up ∙ a.up) fresh
            (λ j.
              ap holders (state j)
              ∙ rw a.up (holders-spec_try_lock name key (size_or_one size) (view s.lock_mgr) j))
            lists

  lock_replied_lem :
      (w : Waiting) (now : ℕ) (o : Outcome (Option LockReply)) (s : Server State Disk)
      → let r = continue o (lock_replied lm st w now) s in
        (r.1.lock_mgr ≡ s.lock_mgr)
        × ((j : String)
            → held_by j r.1.sess_mgr.session_locks
              ≡ held_by j s.sess_mgr.session_locks
                ++ joined
                    (is_acquired o && w.session_id == j)
                    (record { name = w.name; key = w.key; size = w.size }))
  unfolding lock_replied continue pure
  lock_replied_lem w now (returns none) s = (refl, λ j. sym (append-nil _))
  lock_replied_lem w now (returns (some (failed e))) s = (refl, λ j. sym (append-nil _))
  lock_replied_lem w now (returns (some acquired)) s =
      let (ends, same, lists) =
        register_lem lm st good ok w.name w.key w.size w.session_id w.lock_timeout now s in
      rw (ends, continue) (same, lists)
  lock_replied_lem w now (panics e) s = (refl, λ j. sym (append-nil _))
  lock_replied_lem w now blocks s = (refl, λ j. sym (append-nil _))

  lock_event_lem :
      (w : Waiting) (ctx : Context) (e : Event) (x : State)
      → IsValid x
      → let r = lock_event lm st w ctx e x in
        Stays lm good x r.1
        × ((j : String)
            → holders (view r.1 j)
              ≡ holders (view x j) ++ added (is_acquired r.0 && w.name == j) w.key)
  unfolding lock_event
  lock_event_lem w ctx begins x v =
      (record { valid = v; same_down = refl }, λ j. rw (waits.begin_waits x) (sym (append-nil _)))
  lock_event_lem w ctx (selects c) x v =
      (waits.wake_stays w.name w.key w.id ctx c x v, waits.wake_holds w.name w.key w.id ctx c x v)

  pub resumes-Accounted :
      (w : Waiting) (ctx : Context) (e : Event) (now : ℕ) (s : Server State Disk)
      → Accounted s
      → held_at lm st good s w.name w.key ≡ 0
      → Accounted (lock_resume lm st w ctx e now s).1
  unfolding lock_resume continue on_locks
  resumes-Accounted w ctx e now s a fresh =
      let m = lock_event lm st w (lock_context ctx w.deadline now) e in
      let x = (m s.lock_mgr).1 in
      let (stays, keys) = lock_event_lem w (lock_context ctx w.deadline now) e s.lock_mgr a.valid in
      let (mgr, lists) = lock_replied_lem w now (m s.lock_mgr).0 (record s { lock_mgr = x }) in
      taken-IsAccounted lm st good w.name w.key w.session_id w.size (is_acquired (m s.lock_mgr).0) s
        _ a (subst IsValid (sym mgr) stays.valid) (ap down mgr ∙ stays.same_down ∙ a.up) fresh
        (λ j. ap (λ y. holders (view y j)) mgr ∙ keys j) lists

  -- A waiting Lock whose select acquires, whatever its context says: the key joins the holders, and
  -- the lock joins the list of the session that asked for it, which need not be there any more.
  pub lock_resume_registers :
      (w : Waiting) (ctx : Context) (c : Case) (now : ℕ) (s : Server State Disk)
      → IsValid s.lock_mgr
      → is_acquired (lm.wake w.name w.key w.id (lock_context ctx w.deadline now) c s.lock_mgr).0
        ≡ true
      → let t = (lock_resume lm st w ctx (selects c) now s).1 in
        (holders (view t.lock_mgr w.name) ≡ holders (view s.lock_mgr w.name) ++ w.key ∷ [])
        × ((j : String)
            → held_by j t.sess_mgr.session_locks
              ≡ held_by j s.sess_mgr.session_locks
                ++ joined
                    (w.session_id == j)
                    (record { name = w.name; key = w.key; size = w.size }))
  unfolding lock_resume continue on_locks lock_event
  lock_resume_registers w ctx c now s v h =
      let r = lm.wake w.name w.key w.id (lock_context ctx w.deadline now) c s.lock_mgr in
      let (mgr, lists) = lock_replied_lem w now r.0 (record s { lock_mgr = r.1 }) in
      (
        ap (λ y. holders (view y w.name)) mgr
            ∙ waits.wake_holds w.name w.key w.id (lock_context ctx w.deadline now) c s.lock_mgr v
                w.name
            ∙ rw (h, eq_refl w.name) refl,
        λ j. lists j ∙ rw h refl,
      )
