-- ===== src/Store/Locks.antt =====
-- The codec of server/session/store/store.go reads what it wrote: marshalLocks and unmarshalLocks.
use mathlib.Core.List.{map-id, append-nil}
use go_ldlm.Errors.{Error}
use go_ldlm.Store.{
  size_lock, marshal_lock, unmarshal_lock, marshal_locks, unmarshal_locks, unmarshal_slice,
  verified,
}
use go_ldlm.Store.Codec.{Benc, IsBenc, Sized, AllFit, IsInt32, IsCodec, ◌>>=◌, bind_assoc}
use go_ldlm.Session.Laws.{made}
use go_ldlm.Store.Pairs.{
  both_sizes, both_writes, both_reads, unmarshal_both, encode_both, writes_at, reads_at,
  length-encode_both,
}
use go_ldlm.Session.{ClientLock, SessionLocks, elements}
use go_ldlm.Common.{
  ◌<◌, sym, [], ℕ, ◌≡◌, ap, ◌⊎◌, map, arith, length, ◌+◌, String, inr, Option, some, List, ◌++◌, ℤ,
  refl,
}

module _ (c : Benc) (good : IsBenc c) where
  open c use {Byte}
  open good use {string_codec, int32_codec, slice_codec, map_codec}

  -- What package benc can write: strings that have a size, sizes of 32 bits, and lists and maps of
  -- these that have a size.
  abbrev pub LockFits : ClientLock → Type 0
  LockFits l = Sized c.size_string l.name × Sized c.size_string l.key × IsInt32 l.size

  abbrev pub SliceFits : Option (List ClientLock) → Type 0
  SliceFits v =
      AllFit LockFits (elements v) × Sized (λ u. c.size_slice u (size_lock c)) (elements v)

  abbrev pub LocksFit : SessionLocks → Type 0
  LocksFit m =
      AllFit (λ ((k, v) : String × Option (List ClientLock)). Sized c.size_string k × SliceFits v) m
      × Sized (λ u. c.size_map u c.size_string (λ v. c.size_slice (elements v) (size_lock c))) m

  -- A key and a size in a row.
  tail-IsCodec :
      IsCodec
        (λ ((key, size) : String × ℤ). Sized c.size_string key × IsInt32 size)
        (λ ((key, size) : String × ℤ). c.size_string key >>= λ s. inr (s + c.size_int32))
        (λ n b ((key, size) : String × ℤ).
          c.marshal_string n b key >>= λ w. inr (c.marshal_int32 w.0 w.1 size))
        (unmarshal_both c.unmarshal_string c.unmarshal_int32)
        (λ p. p)
  tail-IsCodec = record {
    encode = encode_both string_codec int32_codec;
    sizes = λ (key, size) p. both_sizes string_codec int32_codec key size p.0 p.1;
    writes = λ (key, size) pre mid post p.
        both_writes string_codec int32_codec key size pre mid post p.0 p.1;
    reads = λ (key, size) pre post p. both_reads string_codec int32_codec key size pre post p.0 p.1;
  }

  int32_room : (i : ℤ) → IsInt32 i → c.size_int32 ≡ length (int32_codec.encode i)
  int32_room i p = cc (int32_codec.sizes i p)

  lock_of : ℕ × (String × (String × ℤ)) → Error ⊎ (ℕ × ClientLock)
  lock_of (n, (name, (key, size))) = inr (n, record { name = name; key = key; size = size })

  unmarshal_lock-parts :
      (n : ℕ) (b : List Byte)
      → unmarshal_lock c n b ≡ (
          unmarshal_both c.unmarshal_string
            (unmarshal_both c.unmarshal_string c.unmarshal_int32)
            n
            b
          >>= lock_of)
  unfolding unmarshal_lock lock_of
  unmarshal_lock-parts n b = simp bind_assoc

  lock-IsCodec : IsCodec LockFits (size_lock c) (marshal_lock c) (unmarshal_lock c) (λ l. l)
  unfolding size_lock marshal_lock lock_of tail-IsCodec
  lock-IsCodec = record {
    encode = λ l. encode_both string_codec tail-IsCodec (l.name, (l.key, l.size));
    sizes = λ l p.
        rw (string_codec.sizes l.name p.0, string_codec.sizes l.key p.1)
          (ap inr (
            omega (
              arith,
              length-encode_both string_codec tail-IsCodec l.name (l.key, l.size),
              length-encode_both string_codec int32_codec l.key l.size,
              int32_room l.size p.2,
            )));
    writes = λ l pre mid post p.
        both_writes string_codec tail-IsCodec l.name (l.key, l.size) pre mid post p.0 (p.1, p.2);
    reads = λ l pre post p.
        rw
          (
            unmarshal_lock-parts (length pre)
                (pre ++ (encode_both string_codec tail-IsCodec (l.name, (l.key, l.size)) ++ post)),
            both_reads string_codec tail-IsCodec l.name (l.key, l.size) pre post p.0 (p.1, p.2),
          )
          refl;
  }

  locks-IsCodec :
      IsCodec SliceFits
        (λ v. c.size_slice (elements v) (size_lock c))
        (λ n b v. c.marshal_slice n b (elements v) (marshal_lock c))
        (unmarshal_slice c)
        (λ v. some (elements v))
  unfolding unmarshal_slice
  locks-IsCodec = record {
    encode = λ v. slice.encode (elements v);
    sizes = λ v p. slice.sizes (elements v) p;
    writes = λ v pre mid post p. slice.writes (elements v) pre mid post p;
    reads =
        λ v pre post p. rw (slice.reads (elements v) pre post p) (rw (map-id (elements v)) refl);
  }
    where
      slice :
          IsCodec
            (λ v. AllFit LockFits v × Sized (λ u. c.size_slice u (size_lock c)) v)
            (λ v. c.size_slice v (size_lock c))
            (λ n b v. c.marshal_slice n b v (marshal_lock c))
            (λ n b. c.unmarshal_slice n b (unmarshal_lock c))
            (map (λ l. l))
      slice = slice_codec lock-IsCodec

  -- The bytes of a map.
  pub encoded : SessionLocks → List Byte
  encoded m = (map_codec locks-IsCodec).encode m

  pub encoded_room : (m : SessionLocks) → 0 < length (encoded m)
  unfolding encoded
  encoded_room m = good.map_room locks-IsCodec m

  verified_full :
      {A : Type 0} (n : ℕ) (b : List Byte) (a : A)
      → n ≡ length b
      → verified c (c.verify_marshal n b) a ≡ inr a
  unfolding verified
  verified_full n b a e = rw (e, good.verify_full b) refl

  pub marshal_locks_lem : (m : SessionLocks) → LocksFit m → marshal_locks c m ≡ inr (encoded m)
  unfolding marshal_locks encoded verified
  marshal_locks_lem m p =
      let k = map_codec locks-IsCodec in
      let start = c.marshal_start (length (k.encode m)) in
      rw
        (
          k.sizes m p,
          writes_at k m start.0 start.1 [] start.1 [] p (good.start_offset (length (k.encode m)))
              (sym (append-nil start.1)) (good.start_length (length (k.encode m))),
        )
        (rw (append-nil (k.encode m)) (
          verified_full (start.0 + length (k.encode m)) (k.encode m) (k.encode m)
            (omega (arith, good.start_offset (length (k.encode m))))))

  pub unmarshal_locks_lem :
      (m : SessionLocks) → LocksFit m → unmarshal_locks c (encoded m) ≡ inr (made m)
  unfolding unmarshal_locks encoded verified
  unmarshal_locks_lem m p =
      let k = map_codec locks-IsCodec in
      rw (reads_at k m 0 (k.encode m) [] [] p refl (sym (append-nil (k.encode m))))
        (verified_full (0 + length (k.encode m)) (k.encode m) (made m) (omega arith))
