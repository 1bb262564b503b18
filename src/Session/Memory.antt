-- ===== src/Session/Memory.antt =====
-- A store in memory: the interface of server/session/types.go can be met.
use go_ldlm.Session.Laws.{made, IsReliable}
use go_ldlm.Session.{SessionStorer, SessionLocks}
use go_ldlm.Common.{returns, refl, inr, Option, none, some}

abbrev pub memory : SessionStorer
memory = record {
  Disk = Option SessionLocks;
  write = λ m d. (returns none, some (made m));
  read = λ d. returns (inr d);
}

pub memory-IsReliable : IsReliable memory
memory-IsReliable = record { writes = λ m d. refl; reads_back = λ m d. refl }
