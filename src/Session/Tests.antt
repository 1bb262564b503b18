-- ===== src/Session/Tests.antt =====
-- The theorems about server/session at concrete inputs.
use go_ldlm.Session.Memory.{memory, memory-IsReliable}
use go_ldlm.Session.Laws.{held_by}
use go_ldlm.Session.Durable.{run, Call, restart-Lists, adds, Lists, removes, creates}
use go_ldlm.Session.{load, new_sessions}
use go_ldlm.Common.{refl, none, List, [], ◌∷◌, pos}

abbrev calls : List Call
calls =
    creates "s1"
    ∷ adds "a" "k1" (pos 1) "s1"
    ∷ adds "b" "k2" (pos 2) "s2"
    ∷ removes "a" "k1" "s1"
    ∷ []

restart-Lists_example :
    let s = run memory (new_sessions memory none) calls in
    Lists memory (load memory (new_sessions memory s.store)).0 (λ j. held_by j s.session_locks)
restart-Lists_example = restart-Lists memory memory-IsReliable none calls refl
