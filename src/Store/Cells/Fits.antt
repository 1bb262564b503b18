-- ===== src/Store/Cells/Fits.antt =====
-- A map that the codec of the tests can write.
use go_ldlm.Store.Cells.{cells, cells-IsBenc, size_all, size_list}
use go_ldlm.Store.Locks.{LocksFit}
use go_ldlm.Store.{size_lock}
use go_ldlm.Session.{SessionLocks}
use go_ldlm.Common.{refl, arith, some, [], ◌∷◌, pos}

abbrev pub one_lock : SessionLocks
one_lock = ("s1", some (record { name = "a"; key = "k"; size = pos 1 } ∷ [])) ∷ []

pub one_lock-LocksFit : LocksFit cells cells-IsBenc one_lock
unfolding cells size_list size_all size_lock
one_lock-LocksFit =
    ((((1, refl), ((((1, refl), (1, refl), omega arith), tt), (4, refl))), tt), (6, refl))
