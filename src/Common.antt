-- ===== src/Common.antt =====
-- What the other modules share: library names passed on, Boolean tests, lists, Go maps, signed
-- integers, and the ways in which a Go call ends.
mod Tests
mod Lists
mod Maps
mod Int
mod Calls
mod Texts
pub use Tests.*
pub use Lists.*
unfoldable pub use Maps.{lookup, delete, insert}
pub use Maps.{Assoc, lookup-insert, lookup-delete, assoc_laws}
pub use Int.*
unfoldable pub use Texts.{cut, split, before_last, remove_all}
pub use Texts.{cut-append, split-append, split-IsFirst, split-some, IsFirst}
unfoldable pub use Calls.{pure, continue}
pub use Calls.{
  Panic, string_panic, error_panic, Outcome, returns, panics, blocks, Method, ◌>>=◌, ◌>>◌,
}
pub use Prim.Native.Nat.{ℕ, zero, suc, ◌+◌, ◌-◌, ◌*◌, ◌/◌, ◌%◌, ◌^◌, ◌≤◌, ◌<◌}
pub use Prim.Native.String.{String}
pub use text.Mathlib.Text.{◌==◌}
pub use text.Mathlib.TextEquality.{eq_iff}
pub use text.Mathlib.TextPositions.{eq_refl}
pub use mathlib.Core.Path.{◌≡◌, refl, sym, ap, ◌∙◌}
pub use mathlib.Core.Logic.{◌≢◌, ◌↔◌, ◌⊎◌, inl, inr}
pub use mathlib.Core.Bool.{Bool, true, false, not, ◌&&◌, ◌||◌}
pub use mathlib.Core.Option.{Option, none, some}
pub use mathlib.Core.List.{List, [], ◌∷◌, ◌++◌, map}
pub use native.Mathlib.Omega.{arith}
