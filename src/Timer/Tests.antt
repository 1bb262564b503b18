-- ===== src/Timer/Tests.antt =====
-- The theorems about timer/timer.go at concrete inputs.
use go_ldlm.Common.{lookup, ℕ, refl}
use go_ldlm.Timer.Laws.{IsLinked, empty_timers-IsLinked, add-IsLinked}
use go_ldlm.Timer.{Timers, empty_timers, add}

abbrev armed : Timers ℕ
armed = add "k" 7 0 5 empty_timers

armed-IsLinked : IsLinked armed
unfolding lookup
armed-IsLinked = add-IsLinked "k" 7 0 5 empty_timers refl empty_timers-IsLinked
