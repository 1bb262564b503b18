-- ===== src/Store/Pairs.antt =====
-- Codecs one after the other: where two values can be written and read, so can the two in a row.
use go_ldlm.Store.Codec.{Sizer, Marshaler, Unmarshaler, IsCodec, ◌>>=◌}
use mathlib.Core.List.{append_assoc}
use go_ldlm.Common.{
  ◌∙◌, arith, append-take-drop, length-take, length-drop, ℕ, ◌+◌, ◌≡◌, sym, ap, inr, List, ◌++◌,
  length, take, drop, length-append, refl,
}

module _ {Byte A B : Type 0} {Fits : A → Type 0} {size : Sizer A} {marshal : Marshaler Byte A}
    {unmarshal : Unmarshaler Byte B} {read_as : A → B}
    (k : IsCodec Fits size marshal unmarshal read_as) where
  -- The laws of a codec at an offset and a buffer that are equal to those that it speaks of.
  pub writes_at :
      (a : A) (n : ℕ) (b pre mid post : List Byte)
      → Fits a
      → n ≡ length pre
      → b ≡ pre ++ (mid ++ post)
      → length mid ≡ length (k.encode a)
      → marshal n b a ≡ inr (n + length (k.encode a), pre ++ (k.encode a ++ post))
  writes_at a n b pre mid post fits en eb h = rw (en, eb) (k.writes a pre mid post fits h)

  pub reads_at :
      (a : A) (n : ℕ) (b pre post : List Byte)
      → Fits a
      → n ≡ length pre
      → b ≡ pre ++ (k.encode a ++ post)
      → unmarshal n b ≡ inr (n + length (k.encode a), read_as a)
  reads_at a n b pre post fits en eb = rw (en, eb) (k.reads a pre post fits)

abbrev pub unmarshal_both :
    {Byte C D : Type 0} → Unmarshaler Byte C → Unmarshaler Byte D → Unmarshaler Byte (C × D)
unmarshal_both f g n b = do u ← f n b; v ← g u.0 b; inr (v.0, (u.1, v.1))

module _ {Byte A B C D : Type 0} {Fits : A → Type 0} {Fits' : B → Type 0} {size : Sizer A}
    {marshal : Marshaler Byte A} {unmarshal : Unmarshaler Byte C} {f : A → C} {size' : Sizer B}
    {marshal' : Marshaler Byte B} {unmarshal' : Unmarshaler Byte D} {g : B → D}
    (k : IsCodec Fits size marshal unmarshal f)
    (k' : IsCodec Fits' size' marshal' unmarshal' g) where
  abbrev pub encode_both : A × B → List Byte
  encode_both (x, y) = k.encode x ++ k'.encode y

  pub length-encode_both :
      (x : A) (y : B) → length (encode_both (x, y)) ≡ length (k.encode x) + length (k'.encode y)
  length-encode_both x y = length-append (k.encode x) (k'.encode y)

  whole_mid :
      (x : A) (mid pre post : List Byte)
      → pre ++ (mid ++ post)
        ≡ pre ++ (take (length (k.encode x)) mid ++ (drop (length (k.encode x)) mid ++ post))
  whole_mid x mid pre post =
      ap (λ m. pre ++ m)
        (ap (λ m. m ++ post) (sym (append-take-drop (length (k.encode x)) mid))
          ∙ append_assoc (take (length (k.encode x)) mid) (drop (length (k.encode x)) mid) post)

  both_offset :
      (x : A) (y : B) (pre : List Byte)
      → length pre + length (k.encode x) + length (k'.encode y)
        ≡ length pre + length (encode_both (x, y))
  both_offset x y pre = omega (arith, length-encode_both x y)

  both_buffer :
      (x : A) (y : B) (pre post : List Byte)
      → pre ++ k.encode x ++ (k'.encode y ++ post) ≡ pre ++ (encode_both (x, y) ++ post)
  both_buffer x y pre post =
      append_assoc pre (k.encode x) (k'.encode y ++ post)
      ∙ ap (λ m. pre ++ m) (sym (append_assoc (k.encode x) (k'.encode y) post))

  pub both_sizes :
      (x : A) (y : B)
      → Fits x
      → Fits' y
      → (size x >>= λ s. size' y >>= λ t. inr (s + t)) ≡ inr (length (encode_both (x, y)))
  both_sizes x y p q = rw (k.sizes x p, k'.sizes y q) (ap inr (sym (length-encode_both x y)))

  pub both_writes :
      (x : A) (y : B) (pre mid post : List Byte)
      → Fits x
      → Fits' y
      → length mid ≡ length (encode_both (x, y))
      → (marshal (length pre) (pre ++ (mid ++ post)) x >>= λ w. marshal' w.0 w.1 y)
        ≡ inr (length pre + length (encode_both (x, y)), pre ++ (encode_both (x, y) ++ post))
  both_writes x y pre mid post p q h =
      let front = take (length (k.encode x)) mid in
      let back = drop (length (k.encode x)) mid in
      rw
        (
          writes_at k x (length pre) (pre ++ (mid ++ post)) pre front (back ++ post) p refl
              (whole_mid x mid pre post)
              (length-take (length (k.encode x)) mid (omega (arith, h, length-encode_both x y))),
          writes_at k' y (length pre + length (k.encode x)) (pre ++ (k.encode x ++ (back ++ post)))
              (pre ++ k.encode x) back post q (sym (length-append pre (k.encode x)))
              (sym (append_assoc pre (k.encode x) (back ++ post)))
              (omega (arith, h, length-encode_both x y, length-drop (length (k.encode x)) mid)),
        )
        (λ i. inr (both_offset x y pre i, both_buffer x y pre post i))

  pub both_reads :
      (x : A) (y : B) (pre post : List Byte)
      → Fits x
      → Fits' y
      → unmarshal_both unmarshal unmarshal' (length pre) (pre ++ (encode_both (x, y) ++ post))
        ≡ inr (length pre + length (encode_both (x, y)), (f x, g y))
  both_reads x y pre post p q =
      let b = pre ++ (encode_both (x, y) ++ post) in
      rw
        (
          reads_at k x (length pre) b pre (k'.encode y ++ post) p refl
              (ap (λ m. pre ++ m) (append_assoc (k.encode x) (k'.encode y) post)),
          reads_at k' y (length pre + length (k.encode x)) b (pre ++ k.encode x) post q
              (sym (length-append pre (k.encode x))) (sym (both_buffer x y pre post)),
        )
        (λ i. inr (both_offset x y pre i, (f x, g y)))

  -- The second reader may depend on what the first has read.
  pub then_reads :
      (next : C → Unmarshaler Byte D) (x : A) (y : B) (pre post : List Byte)
      → Fits x
      → Fits' y
      → next (f x) ≡ unmarshal'
      → (unmarshal (length pre) (pre ++ (encode_both (x, y) ++ post)) >>= λ r.
          next r.1 r.0 (pre ++ (encode_both (x, y) ++ post)))
        ≡ inr (length pre + length (encode_both (x, y)), g y)
  then_reads next x y pre post p q e =
      let b = pre ++ (encode_both (x, y) ++ post) in
      rw
        (
          reads_at k x (length pre) b pre (k'.encode y ++ post) p refl
              (ap (λ m. pre ++ m) (append_assoc (k.encode x) (k'.encode y) post)),
          e,
          reads_at k' y (length pre + length (k.encode x)) b (pre ++ k.encode x) post q
              (sym (length-append pre (k.encode x))) (sym (both_buffer x y pre post)),
        )
        (ap (λ n. inr (n, g y)) (both_offset x y pre))
