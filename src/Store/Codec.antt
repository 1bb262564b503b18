-- ===== src/Store/Codec.antt =====
-- What server/session/store uses of the library benc. The functions of the library are the fields of
-- `Benc`; `IsBenc` is what their documentation promises of them.
pub use go_ldlm.Errors.{◌>>=◌, bind_assoc}
use mathlib.Core.List
use go_ldlm.Errors.{Error}
use go_ldlm.Common.{
  Assoc, ℕ, ◌+◌, String, ◌≡◌, ◌⊎◌, inr, Option, none, List, [], ◌∷◌, ◌++◌, length, ℤ, pos, negsuc,
  ◌<◌,
}

-- The three functions of a type of values: the size of a value, the writing of it into a buffer at an
-- offset, which gives the next offset and the buffer, and the reading of one at an offset.
abbrev pub Sizer : Type 0 → Type 0
Sizer A = A → Error ⊎ ℕ

abbrev pub Marshaler : Type 0 → Type 0 → Type 0
Marshaler Byte A = ℕ → List Byte → A → Error ⊎ (ℕ × List Byte)

abbrev pub Unmarshaler : Type 0 → Type 0 → Type 0
Unmarshaler Byte A = ℕ → List Byte → Error ⊎ (ℕ × A)

-- A value that its size is known of, without an error.
abbrev pub Sized : {A : Type 0} → Sizer A → A → Type 0
Sized size a = (n : ℕ) × (size a ≡ inr n)

abbrev pub AllFit : {A : Type 0} → (A → Type 0) → List A → Type 0
AllFit Fits [] = Unit
AllFit Fits (x ∷ v) = Fits x × AllFit Fits v

-- The integers of Go's int32.
abbrev pub IsInt32 : ℤ → Type 0
IsInt32 (pos n) = n < 2147483648
IsInt32 (negsuc n) = n < 2147483648

-- Of the values that fit: what was written is read as `read_as` says, and each function agrees on the
-- room that it takes.
pub record IsCodec {Byte A B : Type 0} (Fits : A → Type 0) (size : Sizer A)
    (marshal : Marshaler Byte A) (unmarshal : Unmarshaler Byte B) (read_as : A → B) : Type 0 where
  pub encode : A → List Byte
  pub sizes : (a : A) → Fits a → size a ≡ inr (length (encode a))
  pub writes :
      (a : A) (pre mid post : List Byte)
      → Fits a
      → length mid ≡ length (encode a)
      → marshal (length pre) (pre ++ (mid ++ post)) a
        ≡ inr (length pre + length (encode a), pre ++ (encode a ++ post))
  pub reads :
      (a : A) (pre post : List Byte)
      → Fits a
      → unmarshal (length pre) (pre ++ (encode a ++ post))
        ≡ inr (length pre + length (encode a), read_as a)

-- The entries of a map with other values.
abbrev pub map_values : {A B : Type 0} → (A → B) → Assoc A → Assoc B
map_values f = List.map (λ ((k, v) : String × _). (k, f v))

-- Packages benc and bstd.
pub record Benc : Type 1 where
  pub Byte : Type 0
  pub size_string : Sizer String
  pub marshal_string : Marshaler Byte String
  pub unmarshal_string : Unmarshaler Byte String
  pub size_int32 : ℕ
  pub marshal_int32 : ℕ → List Byte → ℤ → ℕ × List Byte
  pub unmarshal_int32 : Unmarshaler Byte ℤ
  pub size_slice : {A : Type 0} → List A → Sizer A → Error ⊎ ℕ
  pub marshal_slice :
      {A : Type 0} → ℕ → List Byte → List A → Marshaler Byte A → Error ⊎ (ℕ × List Byte)
  pub unmarshal_slice : {A : Type 0} → ℕ → List Byte → Unmarshaler Byte A → Error ⊎ (ℕ × List A)
  pub size_map : {A : Type 0} → Assoc A → Sizer String → Sizer A → Error ⊎ ℕ
  pub marshal_map :
      {A : Type 0}
      → ℕ
      → List Byte
      → Assoc A
      → Marshaler Byte String
      → Marshaler Byte A
      → Error ⊎ (ℕ × List Byte)
  pub unmarshal_map :
      {A : Type 0}
      → ℕ
      → List Byte
      → Unmarshaler Byte String
      → Unmarshaler Byte A
      → Error ⊎ (ℕ × Assoc A)
  pub marshal_start : ℕ → ℕ × List Byte  -- benc.Marshal
  pub verify_marshal : ℕ → List Byte → Option Error

-- Strings that have a size, and integers of 32 bits, are read as they were written. A slice or a map
-- that has a size is, if its elements are; the
-- entries of a map are listed in the order in which they are written. A map takes some room.
module _ (c : Benc) where
  open c use {Byte}

  pub record IsBenc : Type 1 where
    pub string_codec :
        IsCodec (Sized c.size_string) c.size_string c.marshal_string c.unmarshal_string (λ s. s)
    pub int32_codec :
        IsCodec IsInt32
          (λ i. inr c.size_int32)
          (λ n b i. inr (c.marshal_int32 n b i))
          c.unmarshal_int32
          (λ i. i)
    pub slice_codec :
        {A B : Type 0} {Fits : A → Type 0} {size : Sizer A} {marshal : Marshaler Byte A}
        {unmarshal : Unmarshaler Byte B} {read_as : A → B}
        → IsCodec Fits size marshal unmarshal read_as
        → IsCodec
            (λ v. AllFit Fits v × Sized (λ u. c.size_slice u size) v)
            (λ v. c.size_slice v size)
            (λ n b v. c.marshal_slice n b v marshal)
            (λ n b. c.unmarshal_slice n b unmarshal)
            (List.map read_as)
    pub map_codec :
        {A B : Type 0} {Fits : A → Type 0} {size : Sizer A} {marshal : Marshaler Byte A}
        {unmarshal : Unmarshaler Byte B} {read_as : A → B}
        → IsCodec Fits size marshal unmarshal read_as
        → IsCodec
            (λ m.
              AllFit (λ ((k, a) : String × A). Sized c.size_string k × Fits a) m
              × Sized (λ u. c.size_map u c.size_string size) m)
            (λ m. c.size_map m c.size_string size)
            (λ n b m. c.marshal_map n b m c.marshal_string marshal)
            (λ n b. c.unmarshal_map n b c.unmarshal_string unmarshal)
            (map_values read_as)
    pub map_room :
        {A B : Type 0} {Fits : A → Type 0} {size : Sizer A} {marshal : Marshaler Byte A}
        {unmarshal : Unmarshaler Byte B} {read_as : A → B}
        (codec : IsCodec Fits size marshal unmarshal read_as) (m : Assoc A)
        → 0 < length ((map_codec codec).encode m)
    pub start_offset : (n : ℕ) → (c.marshal_start n).0 ≡ 0
    pub start_length : (n : ℕ) → length (c.marshal_start n).1 ≡ n
    pub verify_full : (b : List Byte) → c.verify_marshal (length b) b ≡ none
