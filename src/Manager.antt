-- ===== src/Manager.antt =====
-- lock/manager.go: locks by name, in shards chosen by a hash of the name. Each exported method is
-- one step, as the mutexes make it, but for Lock, whose goroutine waits: `lock` is the method up
-- to its return, and `lock_wake` the goroutine's select. `now` is time.Now().
pub mod Find
pub mod Spec
pub mod Invariant
pub mod Ops
pub mod Steps
pub mod Slots
pub mod Interface
pub mod Collect
pub mod Waits
mod Tests
use go_ldlm.Common.{
  string_panic, lookup, delete, insert, Assoc, ℕ, zero, suc, ◌+◌, ◌-◌, ◌%◌, String, ◌⊎◌, inl, inr,
  Bool, true, false, not, ◌&&◌, Option, none, some, List, [], ◌∷◌, map, ltb, eqb, if◌then◌else◌,
  length, set, get_or, ℤ, is_pos, eqz, pos, Method, returns, panics,
}
use go_ldlm.Errors.{
  Error, Context, live, done, lock_does_not_exist, manager_shutdown, lock_size_mismatch,
  invalid_lock_size, context_canceled, context_cause,
}
use go_ldlm.Lock.{
  Lock, new_lock, LockReply, failed, Case, send_slot, request_done, lock_done, lock_begin,
  lock_select,
}
use go_ldlm.Lock
use mathlib.Core.Option
use mathlib.Core.List.{flat_map}

-- `id` stands for the pointer to the lock. The name is the key under which a shard has it.
pub record ManagedLock : Type 0 where
  pub id : ℕ
  pub last_accessed : ℕ
  pub deleted : Bool
  pub lock : Lock

abbrev pub Shard : Type 0
Shard = Assoc ManagedLock

pub record Manager : Type 0 where
  pub shards : List Shard
  pub is_shutdown : Bool
  pub ctx : Context
  pub next_id : ℕ

abbrev pub empty_shards : ℕ → List Shard
empty_shards zero = []
empty_shards (suc n) = [] ∷ empty_shards n

unfoldable pub new_manager : ℕ → Manager
new_manager shards = record {
  shards = empty_shards (if eqb shards 0 then 1 else shards);
  is_shutdown = false;
  ctx = live;
  next_id = 0;
}

-- What getLock returns.
pub data Found : Type 0 where
  found : ManagedLock → Found
  refused : Error → Found

-- `hash` is the 32-bit FNV hash of package hash/fnv.
module _ (hash : String → ℕ) where
  -- The index is in range: NewManager makes at least one shard.
  unfoldable pub get_shard : String → Manager → ℕ
  get_shard name m = hash name % length m.shards

  -- shard.locks[name]
  unfoldable pub find : String → Manager → Option ManagedLock
  unfolding get_shard
  find name m = lookup name (get_or m.shards (get_shard name m) [])

  -- shard.locks[name] = l, or a write through the pointer that is stored there.
  unfoldable pub put : String → ManagedLock → Manager → Manager
  unfolding get_shard
  put name l m =
      let i = get_shard name m in
      record m { shards = set m.shards i (insert name l (get_or m.shards i [])) }

  unfoldable pub get_lock : String → Bool → ℤ → ℕ → Manager → Found × Manager
  get_lock name create size now m =
      if not (is_pos size) then (refused invalid_lock_size, m) else elim (find name m) [
        | some l ↦
            let touched = record l { last_accessed = now } in
            if create && not (eqz size l.lock.size)
            then (refused lock_size_mismatch, m)
            else (found touched, put name touched m)
        | none ↦
            let fresh : ManagedLock = record {
              id = m.next_id;
              last_accessed = now;
              deleted = false;
              lock = new_lock size;
            } in
            if create
            then (found fresh, record (put name fresh m) { next_id = m.next_id + 1 })
            else (refused lock_does_not_exist, m)
      ]

  -- The method after getLock, for a lock that is not deleted.
  try_lock_found : String → String → Found → Method Manager (Bool × Option Error)
  try_lock_found name key (refused e) m = (returns (false, some e), m)
  try_lock_found name key (found l) m =
      if l.deleted
      then (panics (string_panic "Tried to lock deleted lock"), m)
      else let (reply, l') = Lock.try_lock m.ctx key l.lock in
        (returns reply, put name (record l { lock = l' }) m)

  unfoldable pub try_lock : String → String → ℤ → ℕ → Method Manager (Bool × Option Error)
  unfolding try_lock_found
  try_lock name key size now m =
      if m.is_shutdown
      then (returns (false, some manager_shutdown), m)
      else let (r, m') = get_lock name true size now m in try_lock_found name key r m'

  -- The result is the pointer that the goroutine of Lock waits on, or an error.
  lock_found : Found → Method Manager (Error ⊎ ℕ)
  lock_found (refused e) m = (returns (inl e), m)
  lock_found (found l) m =
      if l.deleted
      then (panics (string_panic "Tried to lock deleted lock"), m)
      else (returns (inr l.id), m)

  unfoldable pub lock : String → ℤ → ℕ → Method Manager (Error ⊎ ℕ)
  unfolding lock_found
  lock name size now m =
      if m.is_shutdown
      then (returns (inl manager_shutdown), m)
      else let (r, m') = get_lock name true size now m in lock_found r m'

  -- The select of the goroutine at the lock that it points to, with the request's context `rctx`;
  -- none where the case that is picked is not ready. A lock that is collected has left its shard,
  -- and its channel is closed: a send to it panics.
  wake_collected : Context → Case → Method Manager (Option LockReply)
  wake_collected rctx send_slot m = (panics (string_panic "send on closed channel"), m)
  wake_collected (done err cause) request_done m = (returns (some (failed cause)), m)
  wake_collected live request_done m = (returns none, m)
  wake_collected rctx lock_done m = (returns (Option.map failed (context_cause m.ctx)), m)

  wake_selected :
      String → ManagedLock → Option (LockReply × Lock) → Method Manager (Option LockReply)
  wake_selected name l none m = (returns none, m)
  wake_selected name l (some (reply, l')) m =
      (returns (some reply), put name (record l { lock = l' }) m)

  unfoldable pub lock_wake :
      String → String → ℕ → Context → Case → Method Manager (Option LockReply)
  unfolding wake_collected wake_selected
  lock_wake name key id rctx c m = elim (find name m) [
    | none ↦ wake_collected rctx c m
    | some l ↦
        if eqb l.id id
        then wake_selected name l (lock_select m.ctx rctx c key l.lock) m
        else wake_collected rctx c m
  ]

  -- `l.deleted` leaves `keyMtx` locked in the source; no lock that getLock finds is deleted.
  unlock_found : String → String → Found → Method Manager (Bool × Option Error)
  unlock_found name key (refused e) m = (returns (false, some e), m)
  unlock_found name key (found l) m =
      if l.deleted
      then (returns (false, some lock_does_not_exist), m)
      else let (reply, l') = Lock.unlock m.ctx key l.lock in
        (reply, put name (record l { lock = l' }) m)

  unfoldable pub unlock : String → String → ℕ → Method Manager (Bool × Option Error)
  unfolding unlock_found
  unlock name key now m =
      if m.is_shutdown
      then (returns (false, some manager_shutdown), m)
      else let (r, m') = get_lock name false (pos 1) now m in unlock_found name key r m'

-- No key holds the lock, and it was last asked for more than `min_idle` ago.
unfoldable pub is_garbage : ℕ → ℕ → ManagedLock → Bool
is_garbage min_idle now l = eqb (length l.lock.keys) 0 && ltb min_idle (now - l.last_accessed)

-- The loop over one shard. What is deleted is out of reach, so `deleted` and the closed channel
-- show in `lock_wake` only.
unfoldable pub sweep : ℕ → ℕ → Shard → Shard
sweep min_idle now [] = []
sweep min_idle now ((name, l) ∷ rest) =
    let swept = sweep min_idle now rest in
    if is_garbage min_idle now l then delete name swept else (name, l) ∷ swept

unfoldable pub lock_gc : ℕ → ℕ → Manager → Manager
lock_gc min_idle now m = record m { shards = map (sweep min_idle now) m.shards }

-- The collector has stopped when the locks' context is cancelled. The program calls this once: a
-- second call would send on the closed channel of the collector.
unfoldable pub shutdown : ℕ → Manager → Manager
shutdown now m =
    let cancelled = record m { ctx = done context_canceled manager_shutdown } in
    record (lock_gc 0 now cancelled) { is_shutdown = true }

pub record LockInfo : Type 0 where
  pub name : String
  pub keys : List String  -- joined by ", " in the source
  pub last_accessed : ℕ
  pub locked : Bool
  pub size : ℕ

shard_locks : Shard → List LockInfo
shard_locks [] = []
shard_locks ((name, l) ∷ rest) =
    record {
      name = name;
      keys = l.lock.keys;
      last_accessed = l.last_accessed;
      locked = ltb 0 (length l.lock.keys);
      size = 0;
    }
    ∷ shard_locks rest

-- `Size` is not among the fields that the method sets.
unfoldable pub locks : Manager → List LockInfo
unfolding shard_locks
locks m = flat_map shard_locks m.shards
