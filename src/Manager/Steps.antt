-- ===== src/Manager/Steps.antt =====
-- Any history of calls of lock/manager.go, the goroutines of Lock and the collector included.
use go_ldlm.Manager.Find.{get_lock_cases}
use go_ldlm.Manager.Invariant.{
  find-IsGood, shutdown-Inv, AllGood, new_manager-Inv, lock_gc-Inv, Inv, IsGood, next_id-Inv,
  touched-IsGood, fresh_lock-IsGood, put-Inv,
}
use go_ldlm.Lock.Ops.{lock_select-Keeps, unlock-Keeps, try_lock-Keeps, Keeps}
use go_ldlm.Errors.{live, done, Context}
use go_ldlm.Manager.{
  lock, lock_found, wake_selected, wake_collected, new_manager, find, try_lock, unlock, refused,
  get_lock, found, Found, lock_wake, ManagedLock, Manager, try_lock_found, lock_gc, unlock_found,
  shutdown,
}
use go_ldlm.Common.{
  ◌≤◌, ◌≡◌, inl, inr, true, false, Option, none, some, arith, eqb, if◌then◌else◌, Option-cases,
  length, pos_part, pos, ℕ, String, Bool, List, [], ◌∷◌, ℤ,
}
use go_ldlm.Lock
use go_ldlm.Lock.{lock_select, request_done, send_slot, lock_done, Case, Lock}
use go_ldlm.Lock.Ops

pub data Call : Type 0 where
  try_locks : (name key : String) (size : ℤ) → Call
  locks_begin : (name : String) (size : ℤ) → Call
  wakes : (name key : String) (id : ℕ) (rctx : Context) (c : Case) → Call
  unlocks : (name key : String) → Call
  collects : (min_idle : ℕ) → Call
  shuts_down : Call

module _ (hash : String → ℕ) where
  -- The manager after one call, however the call ends.
  unfoldable pub step : Manager → ℕ × Call → Manager
  step m (now, try_locks name key size) = (try_lock hash name key size now m).1
  step m (now, locks_begin name size) = (lock hash name size now m).1
  step m (now, wakes name key id rctx c) = (lock_wake hash name key id rctx c m).1
  step m (now, unlocks name key) = (unlock hash name key now m).1
  step m (now, collects min_idle) = lock_gc min_idle now m
  step m (now, shuts_down) = shutdown now m

  unfoldable pub run : Manager → List (ℕ × Call) → Manager
  run m [] = m
  run m (c ∷ cs) = run (step m c) cs

  FoundGood : Found → Type 0
  FoundGood (found l) = IsGood l
  FoundGood (refused e) = Unit

  get_lock-Inv :
      (name : String) (create : Bool) (size : ℤ) (now : ℕ) (m : Manager)
      → Inv hash m
      → Inv hash (get_lock hash name create size now m).1
        × FoundGood (get_lock hash name create size now m).0
  unfolding FoundGood
  get_lock-Inv name create size now m v =
      get_lock_cases hash (λ r. Inv hash r.1 × FoundGood r.0) name create size now m (λ _. (v, tt))
        (λ ok e c.
          let g = fresh_lock-IsGood hash size now m ok in
          (next_id-Inv hash _ _ (put-Inv hash name _ m g v), g))
        (λ _ _ _. (v, tt)) (λ _ _ _ _. (v, tt))
        (λ l _ e _. let g = touched-IsGood hash name now m l v e in (put-Inv hash name _ m g v, g))

  -- Both ends of a test keep the invariant.
  if-Inv {ℓ} :
      {A : Type ℓ} (b : Bool) (x y : A × Manager)
      → Inv hash x.1
      → Inv hash y.1
      → Inv hash (if b then x else y).1
  if-Inv true x y h k = h
  if-Inv false x y h k = k

  relock-IsGood :
      (l : ManagedLock) (l' : Lock)
      → IsGood l
      → Ops.Keeps l.lock l'
      → IsGood (record l { lock = l' })
  relock-IsGood l l' g (s, e) = record { kept = g.kept; sized = rw e g.sized; sound = s }

  try_lock_found-Inv :
      (name key : String) (r : Found) (m : Manager)
      → Inv hash m
      → FoundGood r
      → Inv hash (try_lock_found hash name key r m).1
  unfolding try_lock_found FoundGood
  try_lock_found-Inv name key (refused e) m v g = v
  try_lock_found-Inv name key (found l) m v g =
      if-Inv l.deleted _ _ v (
        put-Inv hash name _ m (relock-IsGood l _ g (Ops.try_lock-Keeps m.ctx key l.lock g.sound)) v)

  unlock_found-Inv :
      (name key : String) (r : Found) (m : Manager)
      → Inv hash m
      → FoundGood r
      → Inv hash (unlock_found hash name key r m).1
  unfolding unlock_found FoundGood
  unlock_found-Inv name key (refused e) m v g = v
  unlock_found-Inv name key (found l) m v g =
      if-Inv l.deleted _ _ v
        (put-Inv hash name _ m (relock-IsGood l _ g (Ops.unlock-Keeps m.ctx key l.lock g.sound)) v)

  lock_found-Inv : (r : Found) (m : Manager) → Inv hash m → Inv hash (lock_found hash r m).1
  unfolding lock_found
  lock_found-Inv (refused e) m v = v
  lock_found-Inv (found l) m v = if-Inv l.deleted _ _ v v

  wake_selected-Inv :
      (name key : String) (l : ManagedLock) (rctx : Context) (c : Case) (m : Manager)
      → IsGood l
      → Inv hash m
      → Inv hash (wake_selected hash name l (Lock.lock_select m.ctx rctx c key l.lock) m).1
  wake_selected-Inv name key l rctx c m g v =
      elim (Option-cases (Lock.lock_select m.ctx rctx c key l.lock)) [
        | inl e ↦ rw e (unfold wake_selected in v)
        | inr ((reply, l'), e) ↦ rw e (
            unfold wake_selected in
            put-Inv hash name _ m
              (relock-IsGood l l' g (Ops.lock_select-Keeps m.ctx rctx c key l.lock g.sound e)) v)
      ]

  wake_collected-Inv :
      (rctx : Context) (c : Case) (m : Manager)
      → Inv hash m
      → Inv hash (wake_collected hash rctx c m).1
  unfolding wake_collected
  wake_collected-Inv rctx send_slot m v = v
  wake_collected-Inv (done err cause) request_done m v = v
  wake_collected-Inv live request_done m v = v
  wake_collected-Inv rctx lock_done m v = v

  lock_wake-Inv :
      (name key : String) (id : ℕ) (rctx : Context) (c : Case) (m : Manager)
      → Inv hash m
      → Inv hash (lock_wake hash name key id rctx c m).1
  unfolding lock_wake
  lock_wake-Inv name key id rctx c m v = elim (Option-cases (find hash name m)) [
    | inl e ↦ rw (e, lock_wake) (wake_collected-Inv rctx c m v)
    | inr (l, e) ↦
        rw (e, lock_wake)
          (if-Inv (eqb l.id id) _ _
            (wake_selected-Inv name key l rctx c m (find-IsGood hash m name l v e) v)
            (wake_collected-Inv rctx c m v))
  ]

  pub step-Inv : (m : Manager) (c : ℕ × Call) → Inv hash m → Inv hash (step m c)
  unfolding step try_lock lock unlock
  step-Inv m (now, try_locks name key size) v =
      let (w, g) = get_lock-Inv name true size now m v in
      if-Inv m.is_shutdown _ _ v (try_lock_found-Inv name key _ _ w g)
  step-Inv m (now, locks_begin name size) v =
      let (w, g) = get_lock-Inv name true size now m v in
      if-Inv m.is_shutdown _ _ v (lock_found-Inv _ _ w)
  step-Inv m (now, wakes name key id rctx c) v = lock_wake-Inv name key id rctx c m v
  step-Inv m (now, unlocks name key) v =
      let (w, g) = get_lock-Inv name false (pos 1) now m v in
      if-Inv m.is_shutdown _ _ v (unlock_found-Inv name key _ _ w g)
  step-Inv m (now, collects min_idle) v = lock_gc-Inv hash min_idle now m v
  step-Inv m (now, shuts_down) v = shutdown-Inv hash now m v

  pub run-Inv : (m : Manager) (cs : List (ℕ × Call)) → Inv hash m → Inv hash (run m cs)
  unfolding run
  run-Inv m [] v = v
  run-Inv m (c ∷ cs) v = run-Inv (step m c) cs (step-Inv m c v)

  -- Of what a manager stores: no lock is held by more keys than it has slots, and none is marked
  -- as deleted.
  abbrev pub NotOverheld : Option ManagedLock → Type 0
  NotOverheld none = Unit
  NotOverheld (some l) = (length l.lock.keys ≤ pos_part l.lock.size) × (l.deleted ≡ false)

  AllGood-NotOverheld : (o : Option ManagedLock) → AllGood o → NotOverheld o
  AllGood-NotOverheld none g = tt
  AllGood-NotOverheld (some l) g = ground arith

  -- From a new manager with any number of shards, after any calls at any times, whatever the hash:
  -- every lock that is found by a name is held by at most `size` keys and is not deleted.
  pub run-NotOverheld :
      (shards : ℕ) (cs : List (ℕ × Call)) (name : String)
      → NotOverheld (find hash name (run (new_manager shards) cs))
  run-NotOverheld shards cs name =
      AllGood-NotOverheld _ ((run-Inv _ cs (new_manager-Inv hash shards)).good name)
