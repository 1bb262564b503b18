-- ===== src/Store/Reading.antt =====
-- The read loop of server/session/store/store.go reads the whole file, in whatever pieces it comes.
use Prim.Native.Nat.{min}
use go_ldlm.Store.{File, FileSystem, file_read, read_loop}
use mathlib.Core.List.{append-nil, append_assoc}
use go_ldlm.Common.{
  sym, append-take-drop, ap, ◌∙◌, leb, if◌then◌else◌, length-append, length-take, length-drop, ℕ,
  zero, suc, ◌+◌, ◌-◌, ◌≤◌, ◌<◌, ◌≡◌, ◌⊎◌, inl, inr, true, false, some, List, [], ◌∷◌, ◌++◌, arith,
  eqb, Bool-cases, length, take, drop, refl,
}

module _ {A : Type 0} where
  drop-nil : (n : ℕ) → drop {A = A} n [] ≡ []
  drop-nil zero = refl
  drop-nil (suc n) = refl

  drop-drop : (m n : ℕ) (xs : List A) → drop n (drop m xs) ≡ drop (m + n) xs
  drop-drop zero n xs = let e : n ≡ zero + n = omega arith in ap (λ k. drop k xs) e
  drop-drop (suc m) n [] =
      let e : suc (m + n) ≡ suc m + n = omega arith in drop-nil n ∙ ap (λ k. drop k []) e
  drop-drop (suc m) n (x ∷ xs) =
      let e : suc (m + n) ≡ suc m + n = omega arith in
      drop-drop m n xs ∙ ap (λ k. drop k (x ∷ xs)) e

  pub nil_of_length : (xs : List A) → length xs ≡ 0 → xs ≡ []
  nil_of_length [] h = refl
  nil_of_length (x ∷ xs) h = absurd (omega (arith, h))

not_zero : (n : ℕ) → 0 < n → eqb n 0 ≡ false
not_zero n h = ground (arith, h)

module _ {Byte : Type 0} (sys : FileSystem) where
  abbrev left : File Byte → List Byte
  left f = drop f.offset f.contents

  -- A read of some room gives some bytes, or meets the end where none are left.
  file_read-cases :
      (room : ℕ) (f : File Byte)
      → 0 < room
      → ((left f ≡ []) × (file_read sys room f ≡ (([], true), f)))
        ⊎ ((n : ℕ) × (0 < n)
            × (n ≤ length (left f))
            × (n ≤ room)
            × (file_read sys room f
                ≡ ((take n (left f), false), record f { offset = f.offset + n })))
  unfolding file_read
  file_read-cases room f h = elim (Bool-cases (eqb (length (left f)) 0)) [
    | inl e ↦ inl (nil_of_length (left f) (ground (arith, e)), rw (not_zero room h, e) refl)
    | inr e ↦ inr (
      min room (min (length (left f)) (suc (sys.chunk (length (left f))))),
      ground (arith, e),
      omega arith,
      omega arith,
      rw (not_zero room h, e) refl,
    )
  ]

  pieces :
      (bytes : List Byte) (n : ℕ) (f : File Byte)
      → bytes ++ take n (left f) ++ drop (f.offset + n) f.contents ≡ bytes ++ left f
  pieces bytes n f =
      append_assoc bytes (take n (left f)) (drop (f.offset + n) f.contents)
      ∙ ap (λ x. bytes ++ x)
          (ap (λ x. take n (left f) ++ x) (sym (drop-drop f.offset n f.contents))
            ∙ append-take-drop n (left f))

  -- With room in the slice, and more fuel than bytes are left, the loop ends with the bytes that it
  -- had and all that were left; the file's contents stay.
  pub read_loop_lem :
      (fuel limit : ℕ) (bytes : List Byte) (f : File Byte)
      → length bytes < limit
      → length (left f) < fuel
      → (f' : File Byte) × (read_loop sys fuel limit bytes f ≡ some (bytes ++ left f, f'))
        × (f'.contents ≡ f.contents)
  unfolding read_loop
  read_loop_lem zero limit bytes f room enough = absurd (omega arith)
  read_loop_lem (suc fuel) limit bytes f room enough =
      elim (file_read-cases (limit - length bytes) f (omega arith)) [
        | inl (empty, e) ↦ (f, rw (e, empty, append-nil bytes) refl, refl)
        | inr (n, some_bytes, few, fits, e) ↦
            let (f', ended, same) =
              read_loop_lem fuel
                (if leb limit (length (bytes ++ take n (left f)))
                  then limit + suc (sys.growth limit)
                  else limit)
                (bytes ++ take n (left f)) (record f { offset = f.offset + n })
                (ground (arith, length-append bytes (take n (left f)), length-take n (left f) few))
                (omega
                  (arith, ap length (drop-drop f.offset n f.contents), length-drop n (left f))) in
            (f', rw e (ended ∙ ap (λ x. some (x, f')) (pieces bytes n f)), same)
      ]
