-- ===== src/Lock/Ops.antt =====
-- What the methods of lock/lock.go do to a lock, each taken as one step.
use go_ldlm.Common.{
  ◌+◌, ◌≤◌, String, ◌≡◌, refl, inl, inr, true, false, none, some, [], ◌∷◌, ◌++◌, arith, ltb,
  if◌then◌else◌, Bool-cases, length, contains, erase, length-append, length-erase, ℤ, pos_part,
  returns,
}
use go_ldlm.Errors.{Context, live, done, invalid_lock_key}
use go_ldlm.Lock.{
  LockReply, Case, lock_select, request_done, lock_done, send_slot, Lock, new_lock, try_lock,
  unlock, release, take_slot, has_room,
}
use go_ldlm.Lock.Scan.{unlock_scan-erase}

-- As many slots in use as there are holders, and no more than the lock has.
pub record IsSound (l : Lock) : Type 0 where
  pub counted : l.mtx ≡ length l.keys
  pub within : l.mtx ≤ pos_part l.size

pub new_lock-IsSound : (n : ℤ) → IsSound (new_lock n)
unfolding new_lock
new_lock-IsSound n = record { counted = refl; within = omega arith }

pub take_slot-IsSound :
    (key : String) (l : Lock) → has_room l ≡ true → IsSound l → IsSound (take_slot key l)
take_slot-IsSound key l h s = ground (arith, length-append l.keys (key ∷ []))

-- A sound lock of the same size.
abbrev pub Keeps : Lock → Lock → Type 0
Keeps l l' = IsSound l' × (l'.size ≡ l.size)

pub try_lock-Keeps :
    (c : Context) (key : String) (l : Lock) → IsSound l → Keeps l (try_lock c key l).1
unfolding try_lock
try_lock-Keeps (done err cause) key l s = (s, refl)
try_lock-Keeps live key l s = ground (arith, length-append l.keys (key ∷ []))

-- Whatever the select picks, a reply leaves the lock sound.
pub lock_select-Keeps :
    (lctx rctx : Context) (c : Case) (key : String) (l : Lock) {reply : LockReply} {l' : Lock}
    → IsSound l
    → lock_select lctx rctx c key l ≡ some (reply, l')
    → Keeps l l'
unfolding lock_select
lock_select-Keeps lctx rctx send_slot key l s e = ground (arith, length-append l.keys (key ∷ []))
lock_select-Keeps lctx (done err cause) request_done key l s e = ground arith
lock_select-Keeps lctx live request_done key l s e = cc
lock_select-Keeps (done err cause) rctx lock_done key l s e = ground arith
lock_select-Keeps live rctx lock_done key l s e = cc

-- On a sound lock and a live context TryLock gets a slot exactly if fewer than `size` keys hold the
-- lock; the new key then joins the holders, and otherwise nothing changes.
pub try_lock_lem :
    (key : String) (l : Lock)
    → IsSound l
    → try_lock live key l ≡ (
        if ltb (length l.keys) (pos_part l.size)
        then ((true, none), record l { keys = l.keys ++ key ∷ []; mtx = l.mtx + 1 })
        else ((false, none), l))
unfolding try_lock
try_lock_lem key l s = ground arith

unlock_live :
    (key : String) (l : Lock)
    → unlock live key l ≡ (
        if contains key l.keys
        then release (erase key l.keys) l
        else (returns (false, some invalid_lock_key), l))
unfolding unlock
unlock_live key l = rw unlock_scan-erase refl

-- Unlock of a sound lock on a live context never blocks: with a key that holds the lock it drops
-- one occurrence of it and frees one slot; with any other key it fails and changes nothing.
pub unlock_lem :
    (key : String) (l : Lock)
    → IsSound l
    → unlock live key l ≡ (
        if contains key l.keys
        then (
          returns (true, none),
          record l { keys = erase key l.keys; mtx = length (erase key l.keys) },
        )
        else (returns (false, some invalid_lock_key), l))
unlock_lem key l s = rw unlock_live (elim (Bool-cases (contains key l.keys)) [
  | inl held ↦ rw held (unfold release in ground (arith, length-erase key l.keys))
  | inr free ↦ rw free
])

pub unlock-Keeps : (c : Context) (key : String) (l : Lock) → IsSound l → Keeps l (unlock c key l).1
unlock-Keeps (done err cause) key l s = unfold unlock in (s, refl)
unlock-Keeps live key l s = rw (unlock_lem key l s) (ground (arith, length-erase key l.keys))
