-- ===== src/Store/Tests.antt =====
-- The theorems about server/session/store at a file system that gives one to four bytes at a time and
-- grows a full slice by three, with a codec of one cell for each string, integer and count.
use go_ldlm.Store.Cells.{cells, cells-IsBenc}
use go_ldlm.Store.Cells.Fits.{one_lock, one_lock-LocksFit}
use go_ldlm.Store.Reliable.{IsHealthy, read-write, read_at_once, read-read_at_once}
use go_ldlm.Store.{File, FileSystem, read, write}
use go_ldlm.Store.Locks.{encoded}
use go_ldlm.Common.{leb, if◌then◌else◌, ◌≡◌, refl, inr, returns, none, some, [], ◌∷◌, pos}

abbrev slow : FileSystem
slow = record {
  chunk = λ n. if leb n 3 then n else 3;
  growth = λ n. 2;
  seek_error = none;
  read_error = none;
  write_error = none;
}

slow-IsHealthy : IsHealthy slow
slow-IsHealthy = record { seeks = refl; reads = refl; writes = refl }

abbrev saved : File cells.Byte
saved = record {
  contents =
      encoded cells cells-IsBenc
        (("s1", some (record { name = "a"; key = "k"; size = pos 1 } ∷ [])) ∷ []);
  offset = 2;
}

read-read_at_once_example : (read cells slow saved).0 ≡ read_at_once cells slow saved.contents
read-read_at_once_example = read-read_at_once cells slow slow-IsHealthy saved

read-write_example :
    ((write cells slow one_lock saved).0 ≡ returns none)
    × ((read cells slow (write cells slow one_lock saved).1).0 ≡ returns (inr (some one_lock)))
read-write_example =
    read-write cells slow cells-IsBenc slow-IsHealthy one_lock saved one_lock-LocksFit
