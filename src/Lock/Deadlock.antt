-- ===== src/Lock/Deadlock.antt =====
-- The goroutines of lock/lock.go never wait for one another for ever: the receive of Unlock finds
-- an element, and calls that are past their select run to their end.
use native.Mathlib.Decide.{dec_lt}
use go_ldlm.Common.{
  ℕ, zero, suc, ◌≤◌, ◌<◌, ◌≡◌, refl, ap, inl, inr, Bool, true, false, ◌+◌, List, [], ◌∷◌, ◌++◌,
  arith, Bool-cases, length,
}
use go_ldlm.Lock.{unlock_scan}
use go_ldlm.Lock.Threads.{
  Shared, Pc, failing, replying, try_sent, try_adding, arrive, while_failing, while_replying, reply,
  reply_error, try_lock_key, try_add, idle, waiting, sent, adding, leaving, asking, scanning,
  receiving, Move, lock_key, add, unlock_key, unlock_lock_key, found, missing, receive, System,
  Step, step, Reach,
}
use go_ldlm.Lock.Exclusion.{pending, holds_key_mtx, total, total-split, Inv, Step-Inv, Reach-Inv}

-- The step of a caller of Lock to its receive.
abbrev pub away : Bool → ℕ
away true = 0
away false = 1

-- Steps left to the end of the call; none before the select.
abbrev pub rank : Pc → ℕ
rank idle = 0
rank (waiting _ _) = 0
rank (failing b) = suc (away b)
rank leaving = 1
rank receiving = 2
rank (replying b) = 2 + away b
rank (adding b _) = 3 + away b
rank (sent b _) = 4 + away b
rank (try_adding _) = 2
rank (try_sent _) = 3
rank (scanning _) = 3
rank (asking _) = 4

-- A step that brings some call nearer to its end.
abbrev Next : System → Type 0
Next s = (t : System) × Step s t × (total rank t.pcs < total rank s.pcs)

next :
    (s : System) (xs ys : List Pc) (p q : Pc) (m : Shared)
    → s.pcs ≡ xs ++ p ∷ ys
    → Move s.mem p m q
    → rank q < rank p
    → Next s
next s xs ys p q m e mv h = (
  record { mem = m; pcs = xs ++ q ∷ ys },
  step xs ys p q e mv refl,
  omega (arith, total-split rank s.pcs xs ys p e, total-split rank (xs ++ q ∷ ys) xs ys q refl),
)

member_le : (f : Pc → ℕ) (ps xs ys : List Pc) (p : Pc) → ps ≡ xs ++ p ∷ ys → f p ≤ total f ps
member_le f ps xs ys p e = omega (arith, total-split f ps xs ys p e)

-- Whoever holds `keyMtx` can move; the receive of Unlock finds an element in `mtx`.
holder-Next :
    {cap : ℕ} (s : System) (xs ys : List Pc) (p : Pc)
    → Inv cap s
    → s.pcs ≡ xs ++ p ∷ ys
    → 0 < holds_key_mtx p
    → Next s
holder-Next s xs ys idle v e h = absurd (omega arith)
holder-Next s xs ys (waiting b key) v e h = absurd (omega arith)
holder-Next s xs ys (failing b) v e h = absurd (omega arith)
holder-Next s xs ys (sent b key) v e h = absurd (omega arith)
holder-Next s xs ys (try_sent key) v e h = absurd (omega arith)
holder-Next s xs ys (asking key) v e h = absurd (omega arith)
holder-Next s xs ys (adding b key) v e h = next s xs ys _ (replying b) _ e add (omega arith)
holder-Next s xs ys (replying true) v e h = next s xs ys _ leaving _ e reply (omega arith)
holder-Next s xs ys (replying false) v e h =
    next s xs ys _ (replying true) _ e (arrive while_replying) (omega arith)
holder-Next s xs ys (try_adding key) v e h = next s xs ys _ leaving _ e try_add (omega arith)
holder-Next s xs ys leaving v e h =
    next s xs ys _ idle _ e
      (unlock_key (omega (arith, member_le holds_key_mtx s.pcs xs ys leaving e, v))) (omega arith)
holder-Next s xs ys (scanning key) v e h =
    elim (Bool-cases (unlock_scan key s.mem.keys false []).0) [
      | inl t ↦ next s xs ys _ receiving _ e (found t) (omega arith)
      | inr f ↦ next s xs ys _ leaving _ e (missing f) (omega arith)
    ]
holder-Next s xs ys receiving v e h =
    next s xs ys _ leaving _ e
      (receive (omega (arith, member_le pending s.pcs xs ys receiving e, v))) (omega arith)

find_positive :
    (f : Pc → ℕ) (ps : List Pc)
    → 0 < total f ps
    → (xs : List Pc) × (ys : List Pc) × (p : Pc) × (ps ≡ xs ++ p ∷ ys) × (0 < f p)
find_positive f [] h = absurd (omega arith)
find_positive f (p ∷ ps) h = elim (dec_lt 0 (f p)) [
  | yes here ↦ ([], ps, p, refl, here)
  | no rest ↦
      let (xs, ys, q, e, l) = find_positive f ps (omega arith) in
      (p ∷ xs, ys, q, ap (λ t. p ∷ t) e, l)
]

holder_exists : {cap : ℕ} (s : System) → Inv cap s → ¬ (s.mem.key_mtx < 1) → Next s
holder_exists s v taken =
    let (xs, ys, p, e, h) = find_positive holds_key_mtx s.pcs (omega (arith, v)) in
    holder-Next s xs ys p v e h

busy-Next :
    {cap : ℕ} (s : System) (xs ys : List Pc) (p : Pc)
    → Inv cap s
    → s.pcs ≡ xs ++ p ∷ ys
    → 0 < rank p
    → Next s
busy-Next s xs ys idle v e h = absurd (omega arith)
busy-Next s xs ys (waiting b key) v e h = absurd (omega arith)
busy-Next s xs ys (failing true) v e h = next s xs ys _ idle _ e reply_error (omega arith)
busy-Next s xs ys (failing false) v e h =
    next s xs ys _ (failing true) _ e (arrive while_failing) (omega arith)
busy-Next s xs ys (sent b key) v e h = elim (dec_lt s.mem.key_mtx 1) [
  | yes free ↦ next s xs ys _ (adding b key) _ e (lock_key free) (omega arith)
  | no taken ↦ holder_exists s v taken
]
busy-Next s xs ys (try_sent key) v e h = elim (dec_lt s.mem.key_mtx 1) [
  | yes free ↦ next s xs ys _ (try_adding key) _ e (try_lock_key free) (omega arith)
  | no taken ↦ holder_exists s v taken
]
busy-Next s xs ys (asking key) v e h = elim (dec_lt s.mem.key_mtx 1) [
  | yes free ↦ next s xs ys _ (scanning key) _ e (unlock_lock_key free) (omega arith)
  | no taken ↦ holder_exists s v taken
]
busy-Next s xs ys (adding b key) v e h = holder-Next s xs ys _ v e (omega arith)
busy-Next s xs ys (replying b) v e h = holder-Next s xs ys (replying b) v e (omega arith)
busy-Next s xs ys (try_adding key) v e h = holder-Next s xs ys _ v e (omega arith)
busy-Next s xs ys leaving v e h = holder-Next s xs ys _ v e (omega arith)
busy-Next s xs ys (scanning key) v e h = holder-Next s xs ys _ v e (omega arith)
busy-Next s xs ys receiving v e h = holder-Next s xs ys _ v e (omega arith)

-- In every reachable state a goroutine at the receive of Unlock has an element to receive, so the
-- receive, made with `keyMtx` held, does not block.
pub receive_ready :
    (cap n : ℕ) (s : System) (xs ys : List Pc)
    → Reach cap n s
    → s.pcs ≡ xs ++ receiving ∷ ys
    → 0 < s.mem.mtx
receive_ready cap n s xs ys r e =
    let v = Reach-Inv r in omega (arith, v, member_le pending s.pcs xs ys receiving e)

-- A run of steps that each bring a call nearer to its end, the callers' steps to their receives
-- among them: no new call, and nobody gives up.
pub data Run : System → System → Type 0 where
  stop : {s : System} → Run s s
  go : {s t u : System} → Step s t → total rank t.pcs < total rank s.pcs → Run t u → Run s u

pending-le-rank : (ps : List Pc) → total pending ps ≤ total rank ps
pending-le-rank [] = omega arith
pending-le-rank (p ∷ ps) = omega (arith, pending-le-rank ps, at p)
  where
    at : (p : Pc) → pending p ≤ rank p
    at idle = omega arith
    at (waiting b key) = omega arith
    at (failing b) = omega arith
    at (replying b) = omega arith
    at (try_adding _) = omega arith
    at (try_sent _) = omega arith
    at leaving = omega arith
    at receiving = omega arith
    at (adding b key) = omega arith
    at (scanning _) = omega arith
    at (sent b key) = omega arith
    at (asking _) = omega arith

-- Nobody is between a select and the end of a call, and the slots in use are those of the keys.
pub record IsQuiet (s : System) : Type 0 where
  pub no_call : total rank s.pcs ≡ 0
  pub settled : s.mem.mtx ≡ length s.mem.keys

settle_within :
    (fuel : ℕ) {cap : ℕ} (s : System)
    → Inv cap s
    → total rank s.pcs < fuel
    → (t : System) × Run s t × IsQuiet t
settle_within zero s v h = absurd (omega arith)
settle_within (suc fuel) s v h = elim (dec_lt 0 (total rank s.pcs)) [
  | yes busy ↦
      let (xs, ys, p, e, l) = find_positive rank s.pcs busy in
      let (t, st, lt) = busy-Next s xs ys p v e l in
      let (u, run, quiet) = settle_within fuel t (Step-Inv st v) (omega arith) in
      (u, go st lt run, quiet)
  | no none_busy ↦ (s, stop, omega (arith, pending-le-rank s.pcs, v))
]

-- No deadlock, if the callers of Lock come to their receives: from every reachable state the
-- goroutines that are past their select, and those callers, can run until every call is at its end,
-- also where a goroutine of Lock sends its reply with `keyMtx` held; and then exactly as many slots
-- are in use as there are keys.
pub calls_settle : (cap n : ℕ) (s : System) → Reach cap n s → (t : System) × Run s t × IsQuiet t
calls_settle cap n s r = settle_within (suc (total rank s.pcs)) s (Reach-Inv r) (omega arith)
