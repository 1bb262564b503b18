-- ===== src/Lock.antt =====
-- lock/lock.go: a lock of `size` slots. A buffered channel `mtx` of capacity `size` counts the
-- slots in use, and `keys` holds the keys of the holders. Here each method is one atomic step;
-- Lock/Threads.antt has the goroutines, a channel operation at a time.
mod Scan
pub mod Ops
pub mod Threads
pub mod Exclusion
pub mod Deadlock
mod Tests
use go_ldlm.Common.{
  ℕ, zero, suc, ◌+◌, String, Bool, true, false, Option, none, some, List, [], ◌∷◌, ◌++◌, ltb,
  if◌then◌else◌, ℤ, pos_part, Outcome, Method, returns, blocks,
}
use go_ldlm.Errors.{Error, Context, live, done, invalid_lock_key}
unfoldable pub use Scan.{unlock_scan}

pub record Lock : Type 0 where
  pub size : ℤ  -- int32, the capacity of `mtx` where it is positive
  pub keys : List String
  pub mtx : ℕ  -- elements in the channel

unfoldable pub new_lock : ℤ → Lock
new_lock n = record { size = n; keys = []; mtx = 0 }

-- What is left of Lock and TryLock once the send to `mtx` has been made.
abbrev pub take_slot : String → Lock → Lock
take_slot key l = record l { keys = l.keys ++ key ∷ []; mtx = l.mtx + 1 }

-- A send to `mtx` is possible.
abbrev pub has_room : Lock → Bool
has_room l = ltb l.mtx (pos_part l.size)

-- The first argument is `l.ctx`, which a manager shares between its locks.
unfoldable pub try_lock : Context → String → Lock → (Bool × Option Error) × Lock
try_lock (done err cause) key l = ((false, some err), l)
try_lock live key l = if has_room l then ((true, none), take_slot key l) else ((false, none), l)

-- What a goroutine of Lock sends on its reply channel.
pub data LockReply : Type 0 where
  acquired : LockReply
  failed : Error → LockReply

-- The first test of the goroutine: a reply at once, or none, and it goes on to its select.
unfoldable pub lock_begin : Context → Option LockReply
lock_begin (done err cause) = some (failed err)
lock_begin live = none

-- The case that the select picks.
pub data Case : Type 0 where
  send_slot request_done lock_done : Case

-- The select, with `l.ctx` and the request's context as they are then; none where the case that
-- is picked is not ready.
unfoldable pub lock_select : Context → Context → Case → String → Lock → Option (LockReply × Lock)
lock_select lctx rctx send_slot key l =
    if has_room l then some (acquired, take_slot key l) else none
lock_select lctx (done err cause) request_done key l = some (failed cause, l)
lock_select lctx live request_done key l = none
lock_select (done err cause) rctx lock_done key l = some (failed cause, l)
lock_select live rctx lock_done key l = none

-- `l.keys = newKeys; <-l.mtx; return true, nil`. A receive from an empty channel blocks.
release : List String → Lock → Outcome (Bool × Option Error) × Lock
release new l = elim l.mtx [
  | zero ↦ (blocks, record l { keys = new })
  | suc n ↦ (returns (true, none), record l { keys = new; mtx = n })
]

unfoldable pub unlock : Context → String → Method Lock (Bool × Option Error)
unfolding release
unlock (done err cause) key l = (returns (false, some err), l)
unlock live key l =
    let (found, new) = unlock_scan key l.keys false [] in
    if found then release new l else (returns (false, some invalid_lock_key), l)
