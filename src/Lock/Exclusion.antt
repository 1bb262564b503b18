-- ===== src/Lock/Exclusion.antt =====
-- Mutual exclusion for the goroutines of lock/lock.go: the slots in use account for the keys and
-- for the goroutines between their two steps, in every interleaving.
use go_ldlm.Common.{
  ℕ, zero, suc, ◌+◌, ◌≤◌, String, ◌≡◌, refl, true, false, List, [], ◌∷◌, ◌++◌, arith, length,
  length-append, length-erase,
}
use go_ldlm.Lock.{unlock_scan}
use go_ldlm.Lock.Scan.{unlock_scan-erase}
use go_ldlm.Lock.Threads.{
  Shared, Pc, Arrives, while_waiting, while_failing, while_sent, while_adding, while_replying,
  arrive, reply_error, reply, replying, try_sent, try_adding, try_lock_key, try_add, sent, adding,
  leaving, scanning, receiving, Move, call_lock, give_up, send, try_send, try_fail, lock_key, add,
  unlock_key, call_unlock, unlock_lock_key, found, missing, receive, System, Step, step, all_idle,
  Reach, start, later,
}

-- A slot of `mtx` that no key stands for.
abbrev pub pending : Pc → ℕ
pending (sent _ _) = 1
pending (adding _ _) = 1
pending (try_sent _) = 1
pending (try_adding _) = 1
pending receiving = 1
pending _ = 0

-- The goroutine holds `keyMtx`.
abbrev pub holds_key_mtx : Pc → ℕ
holds_key_mtx (adding _ _) = 1
holds_key_mtx (replying _) = 1
holds_key_mtx (try_adding _) = 1
holds_key_mtx leaving = 1
holds_key_mtx (scanning _) = 1
holds_key_mtx receiving = 1
holds_key_mtx _ = 0

abbrev pub total : (Pc → ℕ) → List Pc → ℕ
total f [] = 0
total f (p ∷ ps) = f p + total f ps

pub total-append : (f : Pc → ℕ) (xs ys : List Pc) → total f (xs ++ ys) ≡ total f xs + total f ys
total-append f [] ys = omega arith
total-append f (x ∷ xs) ys = omega (arith, total-append f xs ys)

pub record Inv (cap : ℕ) (s : System) : Type 0 where
  pub same_cap : s.mem.cap ≡ cap
  pub within : s.mem.mtx ≤ cap
  pub slots : s.mem.mtx ≡ length s.mem.keys + total pending s.pcs
  pub mutex : s.mem.key_mtx ≡ total holds_key_mtx s.pcs
  pub mutex_one : s.mem.key_mtx ≤ 1

-- What a move does to the counts, whatever the other goroutines are.
abbrev Balanced : Shared → Pc → Shared → Pc → Type 0
Balanced m p m' q =
    (m'.cap ≡ m.cap)
    × (m.mtx ≤ m.cap → m'.mtx ≤ m.cap)
    × (m'.mtx + length m.keys + pending p ≡ m.mtx + length m'.keys + pending q)
    × (m'.key_mtx + holds_key_mtx p ≡ m.key_mtx + holds_key_mtx q)
    × (m.key_mtx ≤ 1 → m'.key_mtx ≤ 1)

found-length :
    (key : String) (keys : List String)
    → (unlock_scan key keys false []).0 ≡ true
    → length keys ≡ suc (length (unlock_scan key keys false []).1)
found-length key keys h = rw unlock_scan-erase (length-erase key keys (rw unlock_scan-erase at h))

-- The caller's step changes neither count.
Arrives-Balanced :
    {p q : Pc} → Arrives p q → (pending p ≡ pending q) × (holds_key_mtx p ≡ holds_key_mtx q)
Arrives-Balanced while_waiting = (refl, refl)
Arrives-Balanced while_failing = (refl, refl)
Arrives-Balanced while_sent = (refl, refl)
Arrives-Balanced while_adding = (refl, refl)
Arrives-Balanced while_replying = (refl, refl)

Move-Balanced : {m m' : Shared} {p q : Pc} → Move m p m' q → Balanced m p m' q
Move-Balanced (call_lock key) = omega arith
Move-Balanced (arrive a) = omega (arith, Arrives-Balanced a)
Move-Balanced give_up = omega arith
Move-Balanced reply_error = omega arith
Move-Balanced reply = omega arith
Move-Balanced (try_lock_key h) = omega arith
Move-Balanced {m} (try_add {key}) = omega (arith, length-append m.keys (key ∷ []))
Move-Balanced (send h) = omega arith
Move-Balanced (try_send key h) = omega arith
Move-Balanced (try_fail h) = omega arith
Move-Balanced (lock_key h) = omega arith
Move-Balanced {m} (add {b} {key}) = omega (arith, length-append m.keys (key ∷ []))
Move-Balanced (unlock_key h) = omega arith
Move-Balanced (call_unlock key) = omega arith
Move-Balanced (unlock_lock_key h) = omega arith
Move-Balanced {m} (found {key} h) = omega (arith, found-length key m.keys h)
Move-Balanced (missing h) = omega arith
Move-Balanced (receive h) = omega arith

pub total-split :
    (f : Pc → ℕ) (ps xs ys : List Pc) (p : Pc)
    → ps ≡ xs ++ p ∷ ys
    → total f ps ≡ total f xs + (f p + total f ys)
total-split f ps xs ys p e = rw e (total-append f xs (p ∷ ys))

pub Step-Inv : {cap : ℕ} {s t : System} → Step s t → Inv cap s → Inv cap t
Step-Inv {cap} {s} {t} (step xs ys p q e mv e') v =
    let b = Move-Balanced mv in
    let pend = total-split pending s.pcs xs ys p e in
    let pend' = total-split pending t.pcs xs ys q e' in
    let hold = total-split holds_key_mtx s.pcs xs ys p e in
    let hold' = total-split holds_key_mtx t.pcs xs ys q e' in
    omega (arith, b, pend, pend', hold, hold', v)

total-all_idle : (n : ℕ) → (total pending (all_idle n) ≡ 0) × (total holds_key_mtx (all_idle n) ≡ 0)
total-all_idle zero = (refl, refl)
total-all_idle (suc n) = omega (arith, total-all_idle n)

pub Reach-Inv : {cap n : ℕ} {s : System} → Reach cap n s → Inv cap s
Reach-Inv {n} start = omega (arith, total-all_idle n)
Reach-Inv (later r st) = Step-Inv st (Reach-Inv r)

-- However the goroutines of Lock, TryLock and Unlock interleave on a lock of `cap` slots, never
-- more than `cap` keys hold it.
pub keys-le-cap : (cap n : ℕ) (s : System) → Reach cap n s → length s.mem.keys ≤ cap
keys-le-cap cap n s r = let v = Reach-Inv r in omega (arith, v)
