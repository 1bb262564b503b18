-- ===== src/Lock/Threads.antt =====
-- The goroutines of lock/lock.go over one lock, a channel operation at a time and in any order.
-- `keyMtx` is a channel of capacity 1 used as a mutex: a send locks it, a receive unlocks it.
use go_ldlm.Common.{
  ℕ, zero, suc, ◌+◌, ◌-◌, ◌≤◌, ◌<◌, String, ◌≡◌, Bool, true, false, List, [], ◌∷◌, ◌++◌,
}
use go_ldlm.Lock.{unlock_scan}

pub record Shared : Type 0 where
  pub cap : ℕ  -- capacity of `mtx`
  pub keys : List String
  pub mtx : ℕ  -- elements in `mtx`
  pub key_mtx : ℕ  -- elements in `keyMtx`

-- Where a goroutine stands, with its key. The goroutine of Lock sends its reply on `rChan`, which has
-- no buffer: the Boolean says whether the caller of Lock is at its receive.
pub data Pc : Type 0 where
  idle : Pc  -- in no method
  waiting : Bool → String → Pc  -- Lock: at its select
  failing : Bool → Pc  -- Lock: before the send of an error
  sent : Bool → String → Pc  -- Lock: `mtx` sent to, before lockKey
  adding : Bool → String → Pc  -- Lock: before the append
  replying : Bool → Pc  -- Lock: before the send of its reply, with `keyMtx` held
  try_sent : String → Pc  -- TryLock: `mtx` sent to, before lockKey
  try_adding : String → Pc  -- TryLock: before the append
  leaving : Pc  -- any: before unlockKey
  asking : String → Pc  -- Unlock: before lockKey
  scanning : String → Pc  -- Unlock: before the loop
  receiving : Pc  -- Unlock: the keys are written, before `<-l.mtx`

-- The caller of Lock comes to its receive of `rChan`.
pub data Arrives : Pc → Pc → Type 0 where
  while_waiting : {key : String} → Arrives (waiting false key) (waiting true key)
  while_failing : Arrives (failing false) (failing true)
  while_sent : {key : String} → Arrives (sent false key) (sent true key)
  while_adding : {key : String} → Arrives (adding false key) (adding true key)
  while_replying : Arrives (replying false) (replying true)

-- One step of one goroutine, or of a caller of Lock. A test of a context may go either way, so from
-- `waiting` a goroutine may always give up.
pub data Move (m : Shared) : Pc → Shared → Pc → Type 0 where
  call_lock : (key : String) → Move m idle m (waiting false key)
  arrive : {p q : Pc} → Arrives p q → Move m p m q
  give_up : {b : Bool} {key : String} → Move m (waiting b key) m (failing b)
  reply_error : Move m (failing true) m idle
  send :
      {b : Bool} {key : String}
      → m.mtx < m.cap
      → Move m (waiting b key) (record m { mtx = m.mtx + 1 }) (sent b key)
  lock_key :
      {b : Bool} {key : String}
      → m.key_mtx < 1
      → Move m (sent b key) (record m { key_mtx = m.key_mtx + 1 }) (adding b key)
  add :
      {b : Bool} {key : String}
      → Move m (adding b key) (record m { keys = m.keys ++ key ∷ [] }) (replying b)
  reply : Move m (replying true) m leaving
  try_send :
      (key : String) → m.mtx < m.cap → Move m idle (record m { mtx = m.mtx + 1 }) (try_sent key)
  try_fail : m.cap ≤ m.mtx → Move m idle m idle
  try_lock_key :
      {key : String}
      → m.key_mtx < 1
      → Move m (try_sent key) (record m { key_mtx = m.key_mtx + 1 }) (try_adding key)
  try_add :
      {key : String} → Move m (try_adding key) (record m { keys = m.keys ++ key ∷ [] }) leaving
  unlock_key : 0 < m.key_mtx → Move m leaving (record m { key_mtx = m.key_mtx - 1 }) idle
  call_unlock : (key : String) → Move m idle m (asking key)
  unlock_lock_key :
      {key : String}
      → m.key_mtx < 1
      → Move m (asking key) (record m { key_mtx = m.key_mtx + 1 }) (scanning key)
  found :
      {key : String}
      → (unlock_scan key m.keys false []).0 ≡ true
      → Move m (scanning key) (record m { keys = (unlock_scan key m.keys false []).1 }) receiving
  missing :
      {key : String} → (unlock_scan key m.keys false []).0 ≡ false → Move m (scanning key) m leaving
  receive : 0 < m.mtx → Move m receiving (record m { mtx = m.mtx - 1 }) leaving

pub record System : Type 0 where
  pub mem : Shared
  pub pcs : List Pc

-- Some goroutine makes a step.
pub data Step (s t : System) : Type 0 where
  step :
      (xs ys : List Pc) (p q : Pc)
      → s.pcs ≡ xs ++ p ∷ ys
      → Move s.mem p t.mem q
      → t.pcs ≡ xs ++ q ∷ ys
      → Step s t

abbrev pub all_idle : ℕ → List Pc
all_idle zero = []
all_idle (suc n) = idle ∷ all_idle n

-- A fresh lock of `cap` slots and `n` goroutines.
abbrev pub init : ℕ → ℕ → System
init cap n = record {
  mem = record { cap = cap; keys = []; mtx = 0; key_mtx = 0 };
  pcs = all_idle n;
}

pub data Reach (cap n : ℕ) : System → Type 0 where
  start : Reach cap n (init cap n)
  later : {s t : System} → Reach cap n s → Step s t → Reach cap n t
