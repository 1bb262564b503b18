-- ===== src/Manager/Invariant.antt =====
-- What every method of lock/manager.go keeps: a stored lock is sound and not deleted, it has a
-- positive size, and its context is live until the shutdown.
use mathlib.Core.Bool.{false≢true}
use go_ldlm.Lock.{new_lock}
use go_ldlm.Common.{
  sym, inl, inr, Bool-cases, ℕ, String, ◌==◌, ◌≡◌, refl, Bool, true, false, Option, none, some,
  if◌then◌else◌, ℤ, is_pos,
}
use mathlib.Core.Path.{subst}
use go_ldlm.Errors.{live}
use go_ldlm.Lock.Ops.{new_lock-IsSound, IsSound}
use go_ldlm.Manager.{shutdown, get_shard, lock_gc, ManagedLock, Manager, new_manager, find, put}
use go_ldlm.Manager.Find.{
  retained, find-lock_gc, length-shards-map, fresh_lock, HasShards, HasShards-new_manager,
  put-HasShards, find-put, find-new_manager,
}

pub record IsGood (l : ManagedLock) : Type 0 where
  pub kept : l.deleted ≡ false
  pub sized : is_pos l.lock.size ≡ true
  pub sound : IsSound l.lock

abbrev pub AllGood : Option ManagedLock → Type 0
AllGood none = Unit
AllGood (some l) = IsGood l

module _ (hash : String → ℕ) where
  pub record Inv (m : Manager) : Type 0 where
    pub has_shards : HasShards m
    pub good : (name : String) → AllGood (find hash name m)
    pub live_ctx : m.is_shutdown ≡ false → m.ctx ≡ live

  pub new_manager-Inv : (n : ℕ) → Inv (new_manager n)
  new_manager-Inv n = record {
    has_shards = HasShards-new_manager n;
    good = λ name. rw (find-new_manager hash name n) tt;
    live_ctx = λ _. unfold new_manager in refl;
  }

  if-AllGood :
      (b : Bool) (l : ManagedLock) (o : Option ManagedLock)
      → IsGood l
      → AllGood o
      → AllGood (if b then some l else o)
  if-AllGood true l o h k = h
  if-AllGood false l o h k = k

  pub put-Inv :
      (name : String) (l : ManagedLock) (m : Manager) → IsGood l → Inv m → Inv (put hash name l m)
  put-Inv name l m g v = record {
    has_shards = put-HasShards hash name l m v.has_shards;
    good = λ j.
        rw (find-put hash name j l m v.has_shards)
          (if-AllGood (name == j) l (find hash j m) g (v.good j));
    live_ctx = unfold put in v.live_ctx;
  }

  pub fresh_lock-IsGood :
      (size : ℤ) (now : ℕ) (m : Manager) → is_pos size ≡ true → IsGood (fresh_lock hash size now m)
  unfolding new_lock
  fresh_lock-IsGood size now m ok = record {
    kept = refl;
    sized = ok;
    sound = new_lock-IsSound size;
  }

  pub find-IsGood :
      (m : Manager) (name : String) (l : ManagedLock) → Inv m → find hash name m ≡ some l → IsGood l
  find-IsGood m name l v e = subst AllGood e (v.good name)

  pub touched-IsGood :
      (name : String) (now : ℕ) (m : Manager) (l : ManagedLock)
      → Inv m
      → find hash name m ≡ some l
      → IsGood (record l { last_accessed = now })
  touched-IsGood name now m l v e =
      let g = find-IsGood m name l v e in record { kept = g.kept; sized = g.sized; sound = g.sound }

  pub next_id-Inv : (n : ℕ) (m : Manager) → Inv m → Inv (record m { next_id = n })
  unfolding find get_shard
  next_id-Inv n m v = record { has_shards = v.has_shards; good = v.good; live_ctx = v.live_ctx }

  retained-AllGood :
      (garbage : ManagedLock → Bool) (o : Option ManagedLock)
      → AllGood o
      → AllGood (retained garbage o)
  retained-AllGood garbage none h = tt
  retained-AllGood garbage (some l) h = elim (Bool-cases (garbage l)) [
    | inl e ↦ rw e tt
    | inr e ↦ rw e h
  ]

  pub lock_gc-Inv : (min_idle now : ℕ) (m : Manager) → Inv m → Inv (lock_gc min_idle now m)
  lock_gc-Inv min_idle now m v = record {
    has_shards = unfold lock_gc in rw length-shards-map v.has_shards;
    good = λ j. rw find-lock_gc (retained-AllGood _ (find hash j m) (v.good j));
    live_ctx = unfold lock_gc in v.live_ctx;
  }

  pub shutdown-Inv : (now : ℕ) (m : Manager) → Inv m → Inv (shutdown now m)
  unfolding shutdown lock_gc find get_shard
  shutdown-Inv now m v = record {
    has_shards = (lock_gc-Inv 0 now m v).has_shards;
    good = (lock_gc-Inv 0 now m v).good;
    live_ctx = λ e. absurd (false≢true (sym e));
  }
