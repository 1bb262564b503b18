-- ===== src/Store/Reliable.antt =====
-- The store of server/session/store/store.go reads what it wrote.
use go_ldlm.Store.{
  File, FileSystem, write, read, read_from, write_marshaled, write_bytes, read_all, unmarshaled,
  read_loop, read_size, unmarshal_locks,
}
use go_ldlm.Store.Codec.{Benc, IsBenc}
use go_ldlm.Store.Locks.{LocksFit, encoded, encoded_room, marshal_locks_lem, unmarshal_locks_lem}
use go_ldlm.Store.Reading.{read_loop_lem}
use go_ldlm.Errors.{Error}
use go_ldlm.Session.{SessionLocks}
use go_ldlm.Session.Laws.{made}
use go_ldlm.Common.{
  suc, ◌+◌, ap, ◌∙◌, false, [], arith, eqb, returns, ◌≡◌, inr, none, Option, List, Outcome, ◌⊎◌,
  inl, if◌then◌else◌, Bool-cases, some, length, refl,
}

-- No call of the operating system fails.
pub record IsHealthy (sys : FileSystem) : Type 0 where
  pub seeks : sys.seek_error ≡ none
  pub reads : sys.read_error ≡ none
  pub writes : sys.write_error ≡ none

module _ (c : Benc) (sys : FileSystem) where
  open c use {Byte}

  started : File Byte → File Byte
  started f = record f { offset = 0 }

  read_loop_of : File Byte → Option (List Byte × File Byte)
  read_loop_of f =
      read_loop sys (suc (length f.contents)) (read_size (length f.contents) + 1) [] (started f)

  -- A file with bytes is read by the loop.
  read_from-bytes :
      (f : File Byte)
      → eqb (length f.contents) 0 ≡ false
      → read_from c sys none f ≡ read_all c sys sys.read_error (read_loop_of f) (started f)
  unfolding read_from read_loop_of started
  read_from-bytes f h = rw h refl

  -- What a file of these bytes is read as.
  pub read_at_once : List Byte → Outcome (Error ⊎ Option SessionLocks)
  read_at_once b =
      if eqb (length b) 0
      then returns (inr none)
      else returns (unmarshaled c sys (unmarshal_locks c b))

  -- Read gives what unmarshaling all the bytes of the file at once gives, an error included, and
  -- nothing where the file is empty: it neither panics nor loops forever, and neither the offset at
  -- which the file stands, nor the pieces in which the system gives the bytes, nor the growth of the
  -- slice make a difference. The condition is that no call of the operating system fails.
  pub read-read_at_once :
      IsHealthy sys → (f : File Byte) → (read c sys f).0 ≡ read_at_once f.contents
  unfolding read read_all read_at_once read_loop_of started read_from
  read-read_at_once ok f = elim (Bool-cases (eqb (length f.contents) 0)) [
    | inl e ↦ ap (λ o. (read_from c sys o f).0) ok.seeks ∙ rw e refl
    | inr e ↦
        let (f', ended, same) =
          read_loop_lem sys (suc (length f.contents)) (read_size (length f.contents) + 1) []
            (record f { offset = 0 }) (ground arith) (omega arith) in
        ap (λ o. (read_from c sys o f).0) ok.seeks
        ∙ ap (λ r. r.0) (read_from-bytes f e)
        ∙ ap (λ o. (read_all c sys o (read_loop_of f) (started f)).0) ok.reads
        ∙ ap (λ r. (read_all c sys none r (started f)).0) ended
        ∙ rw e refl
  ]

  module _ (good : IsBenc c) (ok : IsHealthy sys) where
    write_lem :
        (m : SessionLocks) (f : File Byte)
        → LocksFit c good m
        → write c sys m f ≡ (
          returns none,
          record { contents = encoded c good m; offset = length (encoded c good m) },
        )
    unfolding write write_marshaled write_bytes
    write_lem m f p = rw (marshal_locks_lem c good m p, ok.writes) refl

    -- A file of any bytes that are the encoding of a map is read as the map.
    read_lem :
        (m : SessionLocks) (f : File Byte)
        → LocksFit c good m
        → f.contents ≡ encoded c good m
        → (read c sys f).0 ≡ returns (inr (some (made m)))
    unfolding read_at_once unmarshaled
    read_lem m f p e =
        let some_bytes : eqb (length f.contents) 0 ≡ false =
          ground (arith, ap length e, encoded_room c good m) in
        read-read_at_once ok f
        ∙ rw some_bytes (
            ap (λ x. returns (unmarshaled c sys x))
              (ap (unmarshal_locks c) e ∙ unmarshal_locks_lem c good m p))

    -- Where no call of the operating system fails, and the codec keeps its promise, for a map that
    -- package benc can write, with sizes of 32 bits: Write succeeds, and after it Read gives the map,
    -- with slices of no elements for nil ones, whatever was in the file before, however many bytes
    -- each call of Read gives and however append grows its slice.
    pub read-write :
        (m : SessionLocks) (f : File Byte)
        → LocksFit c good m
        → ((write c sys m f).0 ≡ returns none)
          × ((read c sys (write c sys m f).1).0 ≡ returns (inr (some (made m))))
    read-write m f p = (rw (write_lem m f p) refl, rw (write_lem m f p) (read_lem m _ p refl))
