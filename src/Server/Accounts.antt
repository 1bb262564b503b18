-- ===== src/Server/Accounts.antt =====
-- The locks that are held against the locks that the sessions list: what each kind of change of the
-- two does to a server in which every lock that is held is listed by some session.
use go_ldlm.Session.Listed.{listed, listed-append}
use go_ldlm.Server.Release.{keys_of, holders}
use go_ldlm.Server.Requests.{joined}
use go_ldlm.Server.Waits.{added}
use go_ldlm.Server.Interfaces.{LockManager, IsLockManager}
use go_ldlm.Server.{Server}
use go_ldlm.Session.Laws.{held_by}
use go_ldlm.Session.{SessionStorer, ClientLock}
use go_ldlm.Manager.Spec.{Spec, Entry, spec_try_lock, spec_take}
use mathlib.Core.List.{append-nil}
use go_ldlm.Common.{
  count, count-append, ℕ, ◌≤◌, ◌<◌, ◌+◌, String, ◌==◌, eq_iff, eq_refl, ◌≡◌, refl, sym, ap, ◌∙◌,
  inl, inr, Bool, true, false, ◌&&◌, [], ◌∷◌, ◌++◌, arith, if◌then◌else◌, ℤ, Bool-cases,
  Option-cases, ltb, length, pos_part, is_pos, eqz,
}

holders-spec_take :
    (name key : String) (e : Entry) (v : Spec) (j : String)
    → holders (v name) ≡ e.keys
    → let a = spec_take name key e v in
      holders (a.1 j) ≡ holders (v j) ++ added (a.0.0 && name == j) key
holders-spec_take name key e v j same = elim (Bool-cases (ltb (length e.keys) (pos_part e.size))) [
  | inl room ↦ rw room (elim (Bool-cases (name == j)) [
    | inl y ↦
        rw y (ap (λ x. x ++ key ∷ []) (sym same ∙ ap (λ i. holders (v i)) ((eq_iff name j).0 y)))
    | inr n ↦ rw n (sym (append-nil (holders (v j))))
  ])
  | inr full ↦ rw full (elim (Bool-cases (name == j)) [
    | inl y ↦ rw y (
        sym same ∙ ap (λ i. holders (v i)) ((eq_iff name j).0 y) ∙ sym (append-nil (holders (v j))))
    | inr n ↦ rw n (sym (append-nil (holders (v j))))
  ])
]

-- The specification's TryLock adds the key to the holders of the name, if it answers that it did.
pub holders-spec_try_lock :
    (name key : String) (size : ℤ) (v : Spec) (j : String)
    → let a = spec_try_lock false name key size v in
      holders (a.1 j) ≡ holders (v j) ++ added (a.0.0 && name == j) key
holders-spec_try_lock name key size v j = elim (Bool-cases (is_pos size)) [
  | inr bad ↦ rw bad (sym (append-nil (holders (v j))))
  | inl fine ↦ elim (Option-cases (v name)) [
    | inl absent ↦
        simp (fine, absent)
          (holders-spec_take name key (record { size = size; keys = [] }) v j (ap holders absent))
    | inr (e, there) ↦ elim (Bool-cases (eqz size e.size)) [
      | inr differs ↦ simp (fine, there, differs) (sym (append-nil (holders (v j))))
      | inl same ↦ simp (fine, there, same) (holders-spec_take name key e v j (ap holders there))
    ]
  ]
]

held_parts :
    (b : Bool) (name key n k : String)
    → ((b && name == n) && key == k) ≡ true
    → (b ≡ true) × (name ≡ n) × (key ≡ k)
held_parts b name key n k y =
    (ground (arith, y), ground (arith, eq_iff name n, y), ground (arith, eq_iff key k, y))

count-added : (c : Bool) (key k : String) → count k (added c key) ≡ (if c && key == k then 1 else 0)
count-added true key k = ground arith
count-added false key k = refl

listed-joined : (c : Bool) (l : ClientLock) → c ≡ true → listed l.name l.key (joined c l) ≡ 1
listed-joined c l h = rw h (rw (eq_refl l.name, eq_refl l.key) (omega arith))

module _ (lm : LockManager) (st : SessionStorer) (good : IsLockManager lm) where
  open lm use {State}
  open st use {Disk}
  open good use {IsValid, view, down}

  abbrev pub held_at : Server State Disk → String → String → ℕ
  held_at s name key = count key (keys_of lm st good s name)

  abbrev pub listed_at : Server State Disk → String → String → String → ℕ
  listed_at s j name key = listed name key (held_by j s.sess_mgr.session_locks)

  -- A lock manager that is valid and running, in which no key holds a lock twice, and every key
  -- that holds a lock is in some session's list.
  pub record IsAccounted (s : Server State Disk) : Type 0 where
    pub valid : IsValid s.lock_mgr
    pub up : down s.lock_mgr ≡ false
    pub once : (name key : String) → held_at s name key ≤ 1
    pub accounted :
        (name key : String) → 0 < held_at s name key → (j : String) × (0 < listed_at s j name key)

  -- Nothing is acquired, and what stays held stays listed.
  pub kept-IsAccounted :
      (s t : Server State Disk)
      → IsAccounted s
      → IsValid t.lock_mgr
      → down t.lock_mgr ≡ false
      → ((name key : String) → held_at t name key ≤ held_at s name key)
      → ((name key j : String)
          → 0 < held_at t name key
          → 0 < listed_at s j name key
          → 0 < listed_at t j name key)
      → IsAccounted t
  kept-IsAccounted s t a v u fewer lists = record {
    valid = v;
    up = u;
    once = λ name key. omega (arith, a.once name key, fewer name key);
    accounted = λ name key h.
        let (j, l) = a.accounted name key (omega (arith, fewer name key, h)) in
        (j, lists name key j h l);
  }

  -- A key that held nothing acquires a lock, if `b` says so, and a session lists it then.
  pub taken-IsAccounted :
      (name key session_id : String) (size : ℤ) (b : Bool) (s t : Server State Disk)
      → IsAccounted s
      → IsValid t.lock_mgr
      → down t.lock_mgr ≡ false
      → held_at s name key ≡ 0
      → ((j : String)
          → keys_of lm st good t j ≡ keys_of lm st good s j ++ added (b && name == j) key)
      → ((j : String)
          → held_by j t.sess_mgr.session_locks
            ≡ held_by j s.sess_mgr.session_locks
              ++ joined (b && session_id == j) (record { name = name; key = key; size = size }))
      → IsAccounted t
  taken-IsAccounted name key session_id size b s t a v u fresh keys lists = record {
    valid = v;
    up = u;
    once = λ n k. omega (arith, grown n k, room n k, a.once n k);
    accounted = λ n k h. elim (Bool-cases ((b && name == n) && key == k)) [
      | inl y ↦ (session_id, mine n k y)
      | inr d ↦
          let (j, l) = a.accounted n k (ground (arith, grown n k, d, h)) in
          (j, omega (arith, longer n k j, l))
    ];
  }
    where
      grown :
          (n k : String)
          → held_at t n k ≡ held_at s n k + (if (b && name == n) && key == k then 1 else 0)
      grown n k =
          ap (count k) (keys n)
          ∙ count-append k (keys_of lm st good s n) (added (b && name == n) key)
          ∙ ap (λ x. held_at s n k + x) (count-added (b && name == n) key k)

      was_free : (n k : String) → ((b && name == n) && key == k) ≡ true → held_at s n k ≡ 0
      was_free n k y =
          let (_, same, same_key) = held_parts b name key n k y in
          ap (λ x. held_at s x k) (sym same) ∙ ap (held_at s name) (sym same_key) ∙ fresh

      room : (n k : String) → held_at s n k + (if (b && name == n) && key == k then 1 else 0) ≤ 1
      room n k = elim (Bool-cases ((b && name == n) && key == k)) [
        | inl y ↦ rw y (omega (arith, was_free n k y))
        | inr d ↦ rw d (omega (arith, a.once n k))
      ]

      lock : ClientLock
      lock = record { name = name; key = key; size = size }

      longer :
          (n k j : String)
          → listed_at t j n k ≡ listed_at s j n k + listed n k (joined (b && session_id == j) lock)
      longer n k j =
          ap (listed n k) (lists j)
          ∙ listed-append n k (held_by j s.sess_mgr.session_locks)
              (joined (b && session_id == j) lock)

      mine : (n k : String) → ((b && name == n) && key == k) ≡ true → 0 < listed_at t session_id n k
      mine n k y =
          let (acquired, same, same_key) = held_parts b name key n k y in
          let one : listed n k (joined (b && session_id == session_id) lock) ≡ 1 =
            ap (λ x. listed x k (joined (b && session_id == session_id) lock)) (sym same)
            ∙ ap (λ x. listed name x (joined (b && session_id == session_id) lock)) (sym same_key)
            ∙ listed-joined (b && session_id == session_id) lock
                (rw (acquired, eq_refl session_id) refl) in
          omega (arith, longer n k session_id, one)
