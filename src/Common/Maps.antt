-- ===== src/Common/Maps.antt =====
-- Go maps with string keys, as association lists.
use mathlib.Core.Path.{◌≡◌, refl}
use mathlib.Core.List.{List, [], ◌∷◌}
use mathlib.Core.Option.{Option, none, some}
use native.Mathlib.Omega.{arith}
use Prim.Native.String.{String}
use text.Mathlib.Text.{◌==◌}
use text.Mathlib.TextEquality.{eq_iff}
use go_ldlm.Common.Tests.{if◌then◌else◌}

abbrev pub Assoc {ℓ} : Type ℓ → Type ℓ
Assoc V = List (String × V)

module _ {ℓ} {V : Type ℓ} where
  -- m[key] = value
  unfoldable pub insert : String → V → Assoc V → Assoc V
  insert key value [] = (key, value) ∷ []
  insert key value ((other, old) ∷ m) =
      if other == key then (key, value) ∷ m else (other, old) ∷ insert key value m

  -- delete(m, key)
  unfoldable pub delete : String → Assoc V → Assoc V
  delete key [] = []
  delete key ((other, old) ∷ m) =
      let rest = delete key m in if other == key then rest else (other, old) ∷ rest

  -- value, ok := m[key]
  unfoldable pub lookup : String → Assoc V → Option V
  lookup key [] = none
  lookup key ((other, value) ∷ m) = if other == key then some value else lookup key m

  pub lookup-delete :
      (key probe : String) (m : Assoc V)
      → lookup probe (delete key m) ≡ (if key == probe then none else lookup probe m)
  unfolding lookup delete
  lookup-delete key probe [] = ground arith
  lookup-delete key probe ((other, old) ∷ m) =
      ground
        (arith, eq_iff key probe, eq_iff other key, eq_iff other probe, lookup-delete key probe m)

  pub lookup-insert :
      (key probe : String) (value : V) (m : Assoc V)
      → lookup probe (insert key value m) ≡ (if key == probe then some value else lookup probe m)
  unfolding lookup insert
  lookup-insert key probe value [] = refl
  lookup-insert key probe value ((other, old) ∷ m) = ground (
    arith,
    eq_iff other probe,
    eq_iff other key,
    eq_iff key probe,
    lookup-insert key probe value m,
  )

pub ruleset assoc_laws = (lookup-insert, lookup-delete)
