-- ===== src/Manager/Waits.antt =====
-- The Lock of lock/manager.go and its goroutine, as the server of server/server.go relies on them:
-- the holders of each name, over the map that the shards stand for.
use go_ldlm.Manager.Find.{HasShards, get_lock_cases}
use go_ldlm.Manager.Interface.{manager, manager-IsLockManager, down-if, down-get_lock}
use go_ldlm.Manager.Steps.{step, step-Inv, locks_begin, wakes}
use go_ldlm.Manager.Ops
use go_ldlm.Manager.{
  ManagedLock, Manager, Found, found, refused, put, find, get_lock, lock_found, lock_wake,
  wake_selected, wake_collected,
}
use go_ldlm.Manager
use go_ldlm.Server.Release.{holders}
use go_ldlm.Server.Waits.{IsWaitable, is_acquired, added}
use go_ldlm.Lock.{
  LockReply, Case, failed, send_slot, request_done, lock_done, has_room, new_lock, lock_begin,
  lock_select, Lock,
}
use go_ldlm.Errors.{Context, Error, live, done, context_cause}
use mathlib.Core.Option
use mathlib.Core.Path.{subst}
use go_ldlm.Common.{
  ◌∙◌, ap, sym, ap, ◌+◌, returns, Outcome, Option-cases, ℕ, String, ◌==◌, ◌≡◌, refl, inl, inr, Bool,
  true, false, ◌&&◌, Option, none, some, List, [], ◌++◌, ℤ, if◌then◌else◌, eq_iff, arith,
  Bool-cases, eqb,
}
use mathlib.Core.List.{append-nil}

module _ (hash : String → ℕ) where
  abbrev keys_at : Manager → String → List String
  keys_at m j = holders (Ops.view hash m j)

  keys_at-put :
      (k j : String) (l : ManagedLock) (m : Manager)
      → HasShards m
      → keys_at (put hash k l m) j ≡ (if k == j then l.lock.keys else keys_at m j)
  keys_at-put k j l m h = rw (Ops.view-put hash k j l m h) (ground arith)

  keys_at-some :
      (k j : String) (l : ManagedLock) (m : Manager)
      → find hash k m ≡ some l
      → (k == j) ≡ true
      → keys_at m j ≡ l.lock.keys
  unfolding Ops.view
  keys_at-some k j l m e h = ground (arith, eq_iff k j, e)

  keys_at-none :
      (k j : String) (m : Manager) → find hash k m ≡ none → (k == j) ≡ true → keys_at m j ≡ []
  unfolding Ops.view
  keys_at-none k j m e h = ground (arith, eq_iff k j, e)

  -- A lock that is put back with its keys and more.
  keys_at-joined :
      (k j : String) (more : List String) (l l' : ManagedLock) (m : Manager)
      → HasShards m
      → find hash k m ≡ some l
      → l'.lock.keys ≡ l.lock.keys ++ more
      → keys_at (put hash k l' m) j ≡ keys_at m j ++ (if k == j then more else [])
  keys_at-joined k j more l l' m h e same =
      rw (keys_at-put k j l' m h) (elim (Bool-cases (k == j)) [
        | inl y ↦ rw y (same ∙ rw (keys_at-some k j l m e y) refl)
        | inr n ↦ rw n (sym (append-nil (keys_at m j)))
      ])

  put_back :
      (k j : String) (ks : List String) (m : Manager)
      → ((k == j) ≡ true → keys_at m j ≡ ks)
      → (if k == j then ks else keys_at m j) ≡ keys_at m j
  put_back k j ks m f = elim (Bool-cases (k == j)) [ inl y ↦ rw y (sym (f y)) | inr n ↦ rw n refl ]

  get_lock-keys_at :
      (name : String) (size : ℤ) (now : ℕ) (m : Manager)
      → HasShards m
      → (j : String) → keys_at (get_lock hash name true size now m).1 j ≡ keys_at m j
  unfolding new_lock
  get_lock-keys_at name size now m h j =
      get_lock_cases hash (λ r. keys_at r.1 j ≡ keys_at m j) name true size now m (λ _. refl)
        (λ _ e _.
          ap holders (Ops.view-next_id hash (m.next_id + 1) _ j)
          ∙ keys_at-put name j _ m h
          ∙ put_back name j [] m (λ y. keys_at-none name j m e y))
        (λ _ _ _. refl) (λ _ _ _ _. refl)
        (λ l _ e _.
          keys_at-put name j _ m h
          ∙ put_back name j l.lock.keys m (λ y. keys_at-some name j l m e y))

  lock_found_same : (r : Found) (m : Manager) → (lock_found hash r m).1 ≡ m
  unfolding lock_found
  lock_found_same (refused e) m = refl
  lock_found_same (found l) m = elim (Bool-cases l.deleted) [
    | inl y ↦ rw y refl
    | inr n ↦ rw n refl
  ]

  lock-keys_at :
      (name : String) (size : ℤ) (now : ℕ) (m : Manager)
      → HasShards m
      → (j : String) → keys_at (Manager.lock hash name size now m).1 j ≡ keys_at m j
  unfolding Manager.lock
  lock-keys_at name size now m h j =
      if-keys_at m.is_shutdown _ _ refl
        (ap (λ x. keys_at x j) (lock_found_same _ _) ∙ get_lock-keys_at name size now m h j)
    where
      if-keys_at :
          {A : Type 0} (b : Bool) (x y : A × Manager)
          → keys_at x.1 j ≡ keys_at m j
          → keys_at y.1 j ≡ keys_at m j
          → keys_at (if b then x else y).1 j ≡ keys_at m j
      if-keys_at true x y p q = p
      if-keys_at false x y p q = q

  down-lock :
      (name : String) (size : ℤ) (now : ℕ) (m : Manager)
      → (Manager.lock hash name size now m).1.is_shutdown ≡ m.is_shutdown
  unfolding Manager.lock
  down-lock name size now m =
      down-if hash m.is_shutdown m.is_shutdown _ _ refl
        (ap (λ x. x.is_shutdown) (lock_found_same _ _) ∙ down-get_lock hash name true size now m)

  -- What the goroutine's step does to the manager: it stays, but for a key that joins the lock.
  record Wakes (name key : String) (m : Manager) (r : Outcome (Option LockReply) × Manager)
      : Type 0 where
    same_down : r.1.is_shutdown ≡ m.is_shutdown
    holds : (j : String) → keys_at r.1 j ≡ keys_at m j ++ added (is_acquired r.0 && name == j) key

  failure : (o : Option Error) → is_acquired (returns (Option.map failed o)) ≡ false
  failure none = refl
  failure (some e) = refl

  idle :
      (name key : String) (m : Manager) (r : Outcome (Option LockReply))
      → is_acquired r ≡ false
      → Wakes name key m (r, m)
  idle name key m r e = record {
    same_down = refl;
    holds = λ j. rw e (sym (append-nil (keys_at m j)));
  }

  wake_collected-Wakes :
      (name key : String) (rctx : Context) (c : Case) (m : Manager)
      → Wakes name key m (wake_collected hash rctx c m)
  unfolding wake_collected
  wake_collected-Wakes name key rctx send_slot m = idle name key m _ refl
  wake_collected-Wakes name key (done err cause) request_done m = idle name key m _ refl
  wake_collected-Wakes name key live request_done m = idle name key m _ refl
  wake_collected-Wakes name key rctx lock_done m = idle name key m _ (failure (context_cause m.ctx))

  -- The key joins the lock exactly if the select acquired it.
  abbrev Joined : String → Lock → Option (LockReply × Lock) → Type 0
  Joined key l none = Unit
  Joined key l (some (r, l')) = l'.keys ≡ l.keys ++ added (is_acquired (returns (some r))) key

  select_lem :
      (lctx rctx : Context) (c : Case) (key : String) (l : Lock)
      → Joined key l (lock_select lctx rctx c key l)
  unfolding lock_select
  select_lem lctx rctx send_slot key l = elim (Bool-cases (has_room l)) [
    | inl y ↦ rw y refl
    | inr n ↦ rw n tt
  ]
  select_lem lctx (done err cause) request_done key l = sym (append-nil l.keys)
  select_lem lctx live request_done key l = tt
  select_lem (done err cause) rctx lock_done key l = sym (append-nil l.keys)
  select_lem live rctx lock_done key l = tt

  if_and : (a b : Bool) (key : String) → (if b then added a key else []) ≡ added (a && b) key
  if_and true true key = refl
  if_and true false key = refl
  if_and false true key = refl
  if_and false false key = refl

  wake_selected-Wakes :
      (name key : String) (l : ManagedLock) (rctx : Context) (c : Case) (m : Manager)
      → HasShards m
      → find hash name m ≡ some l
      → Wakes name key m (wake_selected hash name l (lock_select m.ctx rctx c key l.lock) m)
  wake_selected-Wakes name key l rctx c m h e =
      elim (Option-cases (lock_select m.ctx rctx c key l.lock)) [
        | inl n ↦ rw n (unfold wake_selected in idle name key m _ refl)
        | inr ((r, l'), y) ↦ rw y (
            unfold wake_selected put in
            record {
              same_down = refl;
              holds = λ j.
                  keys_at-joined name j (added (is_acquired (returns (some r))) key) l _ m h e
                    (subst (Joined key l.lock) y (select_lem m.ctx rctx c key l.lock))
                  ∙ ap (λ x. keys_at m j ++ x)
                      (if_and (is_acquired (returns (some r))) (name == j) key);
            })
      ]

  lock_wake-Wakes :
      (name key : String) (id : ℕ) (rctx : Context) (c : Case) (m : Manager)
      → HasShards m
      → Wakes name key m (lock_wake hash name key id rctx c m)
  unfolding lock_wake
  lock_wake-Wakes name key id rctx c m h = elim (Option-cases (find hash name m)) [
    | inl e ↦ rw (e, lock_wake) (wake_collected-Wakes name key rctx c m)
    | inr (l, e) ↦ elim (Bool-cases (eqb l.id id)) [
      | inl y ↦ rw (e, y, lock_wake) (wake_selected-Wakes name key l rctx c m h e)
      | inr n ↦ rw (e, n, lock_wake) (wake_collected-Wakes name key rctx c m)
    ]
  ]

  begins : (c : Context) → is_acquired (returns (lock_begin c)) ≡ false
  unfolding lock_begin
  begins (done err cause) = refl
  begins live = refl

  -- The manager keeps what the server expects of a Lock that waits, under every hash.
  pub manager-IsWaitable : IsWaitable (manager hash) (manager-IsLockManager hash)
  unfolding manager-IsLockManager step
  manager-IsWaitable = record {
    lock_stays = λ name size now m v. record {
      valid = step-Inv hash m (now, locks_begin name size) v;
      same_down = down-lock name size now m;
    };
    lock_holds = λ name size now m v j. lock-keys_at name size now m v.has_shards j;
    begin_waits = λ m. begins m.ctx;
    wake_stays = λ name key id rctx c m v. record {
      valid = step-Inv hash m (0, wakes name key id rctx c) v;
      same_down = (lock_wake-Wakes name key id rctx c m v.has_shards).same_down;
    };
    wake_holds =
        λ name key id rctx c m v j. (lock_wake-Wakes name key id rctx c m v.has_shards).holds j;
  }
