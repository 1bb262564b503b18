-- ===== src/Store.antt =====
-- server/session/store/store.go: the file in which the session manager keeps its locks. The codec of
-- package benc is a parameter (Store/Codec.antt), and so is what the operating system decides: how
-- much a Read of a file gives at once, how far append grows a slice, and which calls fail.
pub mod Codec
mod Pairs
pub mod Locks
pub mod Reliable
pub mod Reading
mod Cells
mod Tests
use Prim.Native.Nat.{min}
use go_ldlm.Common.{
  string_panic, error_panic, returns, panics, blocks, Method, ◌>>◌, ℕ, zero, suc, ◌+◌, ◌-◌, String,
  ◌==◌, ◌⊎◌, inl, inr, Bool, true, false, Option, none, some, List, [], ◌++◌, ltb, leb, eqb,
  if◌then◌else◌, length, take, drop,
}
use Codec.{Benc, Sizer, Marshaler, Unmarshaler, ◌>>=◌}
use go_ldlm.Errors.{Error, other, error_message}
use go_ldlm.Session.{ClientLock, SessionLocks, elements}
use Prim.Native.String.{◌++◌ as ◌<>◌}

pub record File (Byte : Type 0) : Type 0 where
  pub contents : List Byte
  pub offset : ℕ

-- `chunk left`, one more, is what a Read gives at most where `left` bytes are left; `growth cap`, one
-- more, is what append adds to a full slice. A Write that fails has written some bytes.
pub record FileSystem : Type 0 where
  pub chunk : ℕ → ℕ
  pub growth : ℕ → ℕ
  pub seek_error : Option Error
  pub read_error : Option Error
  pub write_error : Option (Error × ℕ)

-- The size that Read makes of the file's: at least 512.
abbrev pub read_size : ℕ → ℕ
read_size size = if ltb size 512 then 512 else size

module _ {Byte : Type 0} (sys : FileSystem) where
  -- A read of up to `room` bytes, and whether it met the end of the file.
  unfoldable pub file_read : ℕ → File Byte → (List Byte × Bool) × File Byte
  file_read room f =
      let left = drop f.offset f.contents in
      let n = min room (min (length left) (suc (sys.chunk (length left)))) in
      if eqb room 0
      then (([], false), f)
      else if eqb (length left) 0
      then (([], true), f)
      else ((take n left, false), record f { offset = f.offset + n })

  -- The loop of Read over a slice `bytes` of capacity `cap`; none where the fuel runs out.
  pub read_loop : ℕ → ℕ → List Byte → File Byte → Option (List Byte × File Byte)
  read_loop zero cap bytes f = none
  read_loop (suc fuel) cap bytes f =
      let r = file_read (cap - length bytes) f in
      let all = bytes ++ r.0.0 in
      let more = (if leb cap (length all) then cap + suc (sys.growth cap) else cap) in
      let rest = read_loop fuel more all r.1 in if r.0.1 then some (all, r.1) else rest

module _ (c : Benc) where
  open c use {Byte}

  unfoldable pub size_lock : Sizer ClientLock
  size_lock clk = do
    s ← c.size_string clk.name
    s2 ← c.size_string clk.key
    inr (s + (s2 + c.size_int32))

  unfoldable pub marshal_lock : Marshaler Byte ClientLock
  marshal_lock n b l = do
    w ← c.marshal_string n b l.name
    x ← c.marshal_string w.0 w.1 l.key
    inr (c.marshal_int32 x.0 x.1 l.size)

  unfoldable pub unmarshal_lock : Unmarshaler Byte ClientLock
  unmarshal_lock n b = do
    name ← c.unmarshal_string n b
    key ← c.unmarshal_string name.0 b
    size ← c.unmarshal_int32 key.0 b
    inr (size.0, record { name = name.1; key = key.1; size = size.1 })

  -- return a, benc.VerifyMarshal(n, b)
  verified : {A : Type 0} → Option Error → A → Error ⊎ A
  verified none a = inr a
  verified (some e) a = inl e

  unfoldable pub marshal_locks : SessionLocks → Error ⊎ List Byte
  unfolding verified
  marshal_locks m = do
    sz ← c.size_map m c.size_string (λ v. c.size_slice (elements v) size_lock)
    let start = c.marshal_start sz
    r ←
        c.marshal_map start.0 start.1 m c.marshal_string
          (λ n b v. c.marshal_slice n b (elements v) marshal_lock)
    verified (c.verify_marshal r.0 r.1) r.1

  -- UnmarshalSlice makes a slice that is not nil.
  unmarshal_slice : Unmarshaler Byte (Option (List ClientLock))
  unmarshal_slice n b = do r ← c.unmarshal_slice n b unmarshal_lock; inr (r.0, some r.1)

  unfoldable pub unmarshal_locks : List Byte → Error ⊎ SessionLocks
  unfolding verified unmarshal_slice
  unmarshal_locks b = do
    r ← c.unmarshal_map 0 b c.unmarshal_string unmarshal_slice
    verified (c.verify_marshal r.0 b) r.1

  module _ (sys : FileSystem) where
    -- Truncate, Seek and Write.
    write_bytes : List Byte → Option (Error × ℕ) → Method (File Byte) (Option Error)
    write_bytes d none f = (returns none, record { contents = d; offset = length d })
    write_bytes d (some (e, n)) f = (
      panics (error_panic (error_message e)),
      record { contents = take n d; offset = length (take n d) },
    )

    write_marshaled : Error ⊎ List Byte → Method (File Byte) (Option Error)
    write_marshaled (inl e) f =
        (panics (string_panic ("marshalLocks() error: " <> error_message e)), f)
    write_marshaled (inr d) f = write_bytes d sys.write_error f

    unfoldable pub write : SessionLocks → Method (File Byte) (Option Error)
    unfolding write_marshaled write_bytes
    write session_locks = write_marshaled (marshal_locks session_locks)

    unmarshaled : Error ⊎ SessionLocks → Error ⊎ Option SessionLocks
    unmarshaled (inl e) = inl (other ("error unmarshaling state data: " <> error_message e))
    unmarshaled (inr m) = inr (some m)

    read_all :
        Option Error
        → Option (List Byte × File Byte)
        → Method (File Byte) (Error ⊎ Option SessionLocks)
    read_all (some e) r f = (panics (error_panic (error_message e)), f)
    read_all none none f = (blocks, f)
    read_all none (some (b, f')) f = (returns (unmarshaled (unmarshal_locks b)), f')

    -- From the first Seek on; the fuel of the loop is one more than the size of the file.
    read_from : Option Error → Method (File Byte) (Error ⊎ Option SessionLocks)
    read_from (some e) f = (panics (string_panic ("SeekEnd() error: " <> error_message e)), f)
    read_from none f =
        let start = record f { offset = 0 } in
        let size = length f.contents in
        if eqb size 0
        then (returns (inr none), start)
        else read_all sys.read_error (read_loop sys (suc size) (read_size size + 1) [] start) start

    unfoldable pub read : Method (File Byte) (Error ⊎ Option SessionLocks)
    unfolding read_from read_all unmarshaled
    read = read_from sys.seek_error

    -- A store without a file keeps nothing.
    unfoldable pub write_store : SessionLocks → Method (Option (File Byte)) (Option Error)
    write_store session_locks none = (returns none, none)
    write_store session_locks (some f) = let (r, f') = write session_locks f in (r, some f')

    unfoldable pub read_store : Method (Option (File Byte)) (Error ⊎ Option SessionLocks)
    read_store none = (returns (inr none), none)
    read_store (some f) = let (r, f') = read f in (r, some f')

  -- os.OpenFile is `open_file`.
  unfoldable pub new : (String → Error ⊎ File Byte) → String → Error ⊎ Option (File Byte)
  new open_file state_file =
      if state_file == "" then inr none else do fh ← open_file state_file; inr (some fh)
