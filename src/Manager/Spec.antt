-- ===== src/Manager/Spec.antt =====
-- What lock/manager.go promises, with no shards, hashes, pointers, times or channels: a map from
-- names to a size and the keys of the holders.
use go_ldlm.Common.{
  String, ◌==◌, Bool, true, false, not, Option, none, some, List, [], ◌∷◌, ◌++◌, ltb, if◌then◌else◌,
  length, contains, erase, ℤ, is_pos, pos_part, eqz,
}
use go_ldlm.Errors.{
  Error, lock_does_not_exist, manager_shutdown, lock_size_mismatch, invalid_lock_size,
  invalid_lock_key,
}

pub record Entry : Type 0 where
  pub size : ℤ
  pub keys : List String

abbrev pub Spec : Type 0
Spec = String → Option Entry

abbrev pub update : String → Entry → Spec → Spec
update name e s j = if name == j then some e else s j

abbrev pub Answer : Type 0
Answer = (Bool × Option Error) × Spec

-- A key joins the holders if there is room.
abbrev pub spec_take : String → String → Entry → Spec → Answer
spec_take name key e s =
    if ltb (length e.keys) (pos_part e.size)
    then ((true, none), update name (record e { keys = e.keys ++ key ∷ [] }) s)
    else ((false, none), update name e s)

abbrev pub spec_try_lock : Bool → String → String → ℤ → Spec → Answer
spec_try_lock down name key size s =
    if down
    then ((false, some manager_shutdown), s)
    else if not (is_pos size)
    then ((false, some invalid_lock_size), s)
    else elim (s name) [
      | none ↦ spec_take name key (record { size = size; keys = [] }) s
      | some e ↦
          if eqz size e.size then spec_take name key e s else ((false, some lock_size_mismatch), s)
    ]

abbrev pub spec_unlock : Bool → String → String → Spec → Answer
spec_unlock down name key s = if down then ((false, some manager_shutdown), s) else elim (s name) [
  | none ↦ ((false, some lock_does_not_exist), s)
  | some e ↦
      if contains key e.keys
      then ((true, none), update name (record e { keys = erase key e.keys }) s)
      else ((false, some invalid_lock_key), s)
]
