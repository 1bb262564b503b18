-- ===== src/Client/Goroutine.antt =====
-- The goroutine of a refresher of client/client.go, an event at a time.
use go_ldlm.Client.Requests.{Reply, CallError}
use go_ldlm.Client.{Client, Refresher, Phase, starting, selecting, refreshing, finished, phase_of}
use go_ldlm.Errors.{Error}
use go_ldlm.Common.{Outcome, returns, panics, string_panic, Option, none, some, inl, inr, ◌⊎◌, set}
use Prim.Native.String.{◌++◌}
use mathlib.Core.Option

-- It comes to its select with a new timer; there it sees that the client's context is done, or that
-- the timer has expired; its RefreshLock returns. What a Stop sends it is part of that Stop.
pub data RefresherEvent : Type 0 where
  selects context_done timer_expires : RefresherEvent
  refresh_returns : Reply → RefresherEvent

-- The error that RefreshLock returned.
abbrev pub refresh_failure : Reply → Option (CallError ⊎ Error)
refresh_failure (inl e) = some (inl e)
refresh_failure (inr (l, e)) = Option.map inr e

-- The text of the error in the panic is left out.
refresh_checked : Refresher → Option (CallError ⊎ Error) → Outcome (Unit {0}) × Phase
refresh_checked r none = (returns tt, starting)
refresh_checked r (some e) =
    (panics (string_panic ("error refreshing lock " ++ r.name)), refreshing)

-- None where the goroutine cannot do that.
unfoldable pub refresher_event :
    Refresher → Phase → RefresherEvent → Option (Outcome (Unit {0}) × Phase)
unfolding refresh_checked
refresher_event r starting selects = some (returns tt, selecting)
refresher_event r selecting context_done = some (returns tt, finished)
refresher_event r selecting timer_expires = some (returns tt, refreshing)
refresher_event r refreshing (refresh_returns reply) =
    some (refresh_checked r (refresh_failure reply))
refresher_event r phase e = none

unfoldable pub moved :
    Refresher → Client → Option (Outcome (Unit {0}) × Phase) → Outcome (Unit {0}) × Client
moved r c none = (returns tt, c)
moved r c (some (o, phase)) = (o, record c { goroutines = set c.goroutines r.id phase })

-- The event at the goroutine of one refresher; nothing happens where it cannot.
unfoldable pub refresher_step : Refresher → RefresherEvent → Client → Outcome (Unit {0}) × Client
unfolding moved
refresher_step r e c = moved r c (refresher_event r (phase_of r.id c) e)
