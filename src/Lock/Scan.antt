-- ===== src/Lock/Scan.antt =====
-- The loop of Lock.Unlock (lock/lock.go), which drops the first occurrence of a key.
use mathlib.Core.List.{append-nil, append_assoc}
use go_ldlm.Common.{
  String, ◌==◌, ◌≡◌, Bool, true, false, not, ◌&&◌, List, [], ◌∷◌, ◌++◌, arith, if◌then◌else◌,
  contains, erase,
}

-- `found` and `newKeys` are the variables of the loop.
unfoldable pub unlock_scan : String → List String → Bool → List String → Bool × List String
unlock_scan key [] found new = (found, new)
unlock_scan key (k ∷ ks) found new =
    let hit = k == key && not found in
    unlock_scan key ks (if hit then true else found) (if hit then new else new ++ k ∷ [])

unlock_scan_found :
    (key : String) (ks new : List String) → unlock_scan key ks true new ≡ (true, new ++ ks)
unfolding unlock_scan
unlock_scan_found key [] new = ground (arith, append-nil new)
unlock_scan_found key (k ∷ ks) new =
    ground (arith, unlock_scan_found key ks (new ++ k ∷ []), append_assoc new (k ∷ []) ks)

unlock_scan_append :
    (key : String) (ks new : List String)
    → unlock_scan key ks false new ≡ (contains key ks, new ++ erase key ks)
unfolding unlock_scan
unlock_scan_append key [] new = ground (arith, append-nil new)
unlock_scan_append key (k ∷ ks) new = ground (
  arith,
  unlock_scan_found key ks new,
  unlock_scan_append key ks (new ++ k ∷ []),
  append_assoc new (k ∷ []) (erase key ks),
)

-- The loop finds the key exactly if it is there, and drops its first occurrence.
pub unlock_scan-erase :
    (key : String) (ks : List String)
    → unlock_scan key ks false [] ≡ (contains key ks, erase key ks)
unlock_scan-erase key ks = unlock_scan_append key ks []
