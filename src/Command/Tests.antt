-- ===== src/Command/Tests.antt =====
-- The theorem about cmd/lock at a concrete input, on a Unix system where nothing is set.
use go_ldlm.Manager.{new_manager, Manager}
use go_ldlm.Server.{Server}
use go_ldlm.Timer.{empty_timers}
use go_ldlm.Session.{SessionLocks}
use go_ldlm.Session.Memory.{memory}
use go_ldlm.Manager.Interface.{manager}
use go_ldlm.Program.Os.{System}
use go_ldlm.Errors.{Error}
use go_ldlm.Command.{main, unlock_command, delivers}
use go_ldlm.Command.Forced.{unlock_command_fails, Refused}
use go_ldlm.Common.{ℕ, ℤ, String, false, Option, none, some, [], ◌∷◌, pos}

one_shard : String → ℕ
one_shard name = 0

abbrev start : Server Manager (Option SessionLocks)
start = record {
  lock_mgr = new_manager 2;
  sess_mgr = record {
    session_locks = ("s1", some (record { name = "a"; key = "k1"; size = pos 1 } ∷ [])) ∷ [];
    store = none;
  };
  lock_timers = empty_timers;
  is_shutdown = false;
  no_clear_on_disconnect = false;
}

abbrev system : System
system = record {
  World = Unit {0};
  exists = λ path w. false;
  open_file = λ path w. (none, w);
  remove = λ path w. (none, w);
  listen = λ network address w. (none, w);
  close_listener = λ network address w. (none, w);
  is_windows = false;
  temp_dir = "/tmp";
  join = λ dir file. file;
}

unset : String → String
unset name = ""

reached : String → Option Error
reached path = none

sized : ℤ → String
sized n = "1"

unlock_command_fails_example :
    Refused
      (main
        (manager one_shard)
        memory
        sized
        system
        unset
        reached
        ""
        (unlock_command "a" "k1")
        delivers
        6
        start)
      start
unlock_command_fails_example =
    unlock_command_fails (manager one_shard) memory sized system unset reached "" "a" "k1" delivers
      6 start
