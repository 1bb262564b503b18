-- ===== src/Rest/Expiry.antt =====
-- The timers of REST sessions (net/rest/rest.go over timer/timer.go): which of them no call wakes.
use mathlib.Core.Path.{subst}
use go_ldlm.Timer
use go_ldlm.Timer.Laws.{IsLinked, add-IsLinked}
use go_ldlm.Timer.Heap.{is_armed-reset, is_armed-stop, is_armed-snoc, key_at_end}
use go_ldlm.Timer.Firing.{fire_lem, fire_inversion}
use go_ldlm.Timer.{stop_timer, is_armed, reset_timer, Timers, Timer, refresh, remove, add}
use go_ldlm.Common.{
  lookup, ℕ, zero, suc, String, ◌≡◌, ◌≢◌, false, true, none, some, List, [], ◌∷◌, All, All-append,
  get_elem?, lookup-delete, lookup-insert, length, eq_iff, arith, inl, inr, Option-cases,
  Bool-cases, refl, delete, ◌+◌, ◌∙◌, sym,
}

abbrev pub Quiet : String → Timers String → Type 0
Quiet id m = (i : ℕ) → lookup id m.timers ≡ some i → is_armed i m.heap ≡ false

-- The timers of a key that are still are so after `m'`.
abbrev Calms : Timers String → Timers String → Type 0
Calms m m' = (id : String) → Quiet id m → Quiet id m'

pub IsOwn : Timer String → Type 0
IsOwn t = t.callback ≡ t.key

All-stop : (i : ℕ) (ts : List (Timer String)) → All IsOwn ts → All IsOwn (stop_timer i ts)
unfolding IsOwn
All-stop i [] h = h
All-stop zero (t ∷ ts) h = h
All-stop (suc i) (t ∷ ts) h = (h.0, All-stop i ts h.1)

All-reset : (i d : ℕ) (ts : List (Timer String)) → All IsOwn ts → All IsOwn (reset_timer i d ts)
unfolding IsOwn
All-reset i d [] h = h
All-reset zero d (t ∷ ts) h = h
All-reset (suc i) d (t ∷ ts) h = (h.0, All-reset i d ts h.1)

-- The timers agree with their map, and each removes the session that it is named for.
pub record IsSound (m : Timers String) : Type 0 where
  pub linked : IsLinked m
  pub own : All IsOwn m.heap

All-get :
    (ts : List (Timer String)) (i : ℕ) (t : Timer String)
    → All IsOwn ts
    → get_elem? ts i ≡ some t
    → IsOwn t
unfolding IsOwn
All-get [] i t h e = cc
All-get (x ∷ ts) zero t h e = cc
All-get (x ∷ ts) (suc i) t h e = All-get ts i t h.1 e

callback_of :
    (i now : ℕ) (m : Timers String) (t : Timer String) {m' : Timers String} {id key : String}
    → get_elem? m.heap i ≡ some t
    → Timer.fire i now m ≡ some ((id, key), m')
    → t.callback ≡ id
unfolding Timer.fire
callback_of i now m t there e = ground (arith, e, there)

-- Where the timers are sound, they are after a Refresh, which wakes no timer.
pub refresh-IsSound :
    (key : String) (now timeout : ℕ) (m : Timers String)
    → IsSound m
    → IsSound (Timer.refresh key now timeout m).1 × Calms m (Timer.refresh key now timeout m).1
unfolding Timer.refresh
refresh-IsSound key now timeout m v = elim (Option-cases (lookup key m.timers)) [
  | inl absent ↦ rw (absent, Timer.refresh) (v, λ id q. q)
  | inr (n, hit) ↦ elim (Bool-cases (is_armed n m.heap)) [
    | inr off ↦ rw (hit, off, Timer.refresh) (v, λ id q. q)
    | inl on ↦
        let reset : (Timer.refresh key now timeout m).1
            ≡ record m { heap = reset_timer n (now + timeout) (stop_timer n m.heap) } =
          rw (hit, on, Timer.refresh) refl in
        subst (λ x. IsSound x × Calms m x) (sym reset)
          (
            record {
              linked = subst IsLinked reset (Timer.Laws.refresh_lem key now timeout m v.linked).0;
              own = All-reset n (now + timeout) (stop_timer n m.heap) (All-stop n m.heap v.own);
            },
            λ id q i e. rw (is_armed-reset n i (now + timeout) m.heap on) (q i e),
          )
  ]
]

-- So they are after a Remove.
pub remove-IsSound :
    (key : String) (m : Timers String)
    → IsSound m
    → IsSound (Timer.remove key m) × Calms m (Timer.remove key m) × Quiet key (Timer.remove key m)
unfolding Timer.remove
remove-IsSound key m v = elim (Option-cases (lookup key m.timers)) [
  | inl absent ↦ rw (absent, Timer.remove) (v, (λ id q. q), (λ i e. cc))
  | inr (n, hit) ↦
      let removed : Timer.remove key m
          ≡ record { timers = delete key m.timers; heap = stop_timer n m.heap } =
        rw (hit, Timer.remove) refl in
      subst (λ x. IsSound x × Calms m x × Quiet key x) (sym removed)
        (
          record {
            linked = subst IsLinked removed (Timer.Laws.remove_lem key m v.linked).0;
            own = All-stop n m.heap v.own;
          },
          (λ id q i e.
              ground (arith, q i, is_armed-stop n i m.heap, lookup-delete key id m.timers)),
          (λ i e. ground (arith, lookup-delete key key m.timers, eq_iff key key)),
        )
]

-- And after an Add under a key that is not in use, which wakes no other.
pub add-IsSound :
    (key : String) (now timeout : ℕ) (m : Timers String)
    → lookup key m.timers ≡ none
    → IsSound m
    → IsSound (Timer.add key key now timeout m)
      × ((id : String) → key ≢ id → Quiet id m → Quiet id (Timer.add key key now timeout m))
unfolding Timer.add IsOwn
add-IsSound key now timeout m absent v = (
  record {
    linked = Timer.Laws.add-IsLinked key key now timeout m absent v.linked;
    own = All-append IsOwn m.heap _ v.own (refl, tt);
  },
  λ id other q i e. ground (
    arith,
    q i,
    lookup-insert key id (length m.heap) m.timers,
    is_armed-snoc i m.heap
        (record { armed = true; deadline = now + timeout; key = key; callback = key }),
    key_at_end m.heap,
    v.linked.keyed id i,
    eq_iff key id,
    other,
  ),
)

-- A timer that fires is quiet then, and its function is that of its key.
pub fire-IsSound :
    (i now : ℕ) (m m' : Timers String) (id key : String)
    → IsSound m
    → Timer.fire i now m ≡ some ((id, key), m')
    → IsSound m' × Calms m m' × (id ≡ key) × Quiet key m'
unfolding IsOwn
fire-IsSound i now m m' id key v e = elim (Option-cases (get_elem? m.heap i)) [
  | inl nothing ↦ absurd (unfold Timer.fire in ground (arith, e, nothing))
  | inr (t, there) ↦
      let (on, off, led, linked) = fire_lem i now m v.linked e in
      let (armed, same_key, same) = fire_inversion i now m t there e in
      let own : t.callback ≡ t.key = All-get m.heap i t v.own there in
      (
        record {
          linked = linked;
          own = subst (λ x. All IsOwn x.heap) same (All-stop i m.heap v.own);
        },
        subst (λ x. Calms m x) same (λ k q j f. ground (arith, q j, is_armed-stop i j m.heap)),
        sym (callback_of i now m t there e) ∙ own ∙ same_key,
        λ j f. ground (arith, off, led, f),
      )
]
