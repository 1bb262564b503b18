-- ===== src/Server/Keys.antt =====
-- The keys of the lock timers: the name of the lock and its key, one after the other.
use Prim.Native.String.{String, ◌++◌}

-- name + key
abbrev pub timer_key : String → String → String
timer_key name key = name ++ key
