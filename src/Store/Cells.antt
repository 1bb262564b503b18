-- ===== src/Store/Cells.antt =====
-- A codec that keeps the promise of package benc, for the tests: a string, an integer or a count
-- takes one cell of the buffer.
pub mod Fits
use go_ldlm.Store.Pairs.{
  both_sizes, encode_both, both_writes, both_reads, unmarshal_both, then_reads,
}
use go_ldlm.Store.Reading.{nil_of_length}
use go_ldlm.Store.Codec.{
  Benc, IsBenc, Sized, AllFit, IsInt32, Sizer, Unmarshaler, Marshaler, IsCodec, ◌>>=◌, bind_assoc,
}
use Prim.{Unit, tt}
use go_ldlm.Errors.{other, Error}
use go_ldlm.Common.{
  Option, none, some, eqb, if◌then◌else◌, map, ℕ, zero, suc, ◌+◌, String, ◌≡◌, refl, ap, ◌∙◌, ◌⊎◌,
  inl, inr, List, [], ◌∷◌, ◌++◌, arith, length, ℤ,
}

data Cell : Type 0 where
  text : String → Cell
  number : ℤ → Cell
  count : ℕ → Cell

put : {A : Type 0} → ℕ → A → List A → List A
put n x [] = []
put zero x (y ∷ b) = x ∷ b
put (suc n) x (y ∷ b) = y ∷ put n x b

cell_at : ℕ → List Cell → Error ⊎ Cell
cell_at n [] = inl (other "past the end")
cell_at zero (x ∷ b) = inr x
cell_at (suc n) (x ∷ b) = cell_at n b

as_text : Cell → Error ⊎ String
as_text (text s) = inr s
as_text (number i) = inl (other "not a string")
as_text (count n) = inl (other "not a string")

as_number : Cell → Error ⊎ ℤ
as_number (number i) = inr i
as_number (text s) = inl (other "not a number")
as_number (count n) = inl (other "not a number")

as_count : Cell → Error ⊎ ℕ
as_count (count n) = inr n
as_count (text s) = inl (other "not a count")
as_count (number i) = inl (other "not a count")

put_lem :
    {A : Type 0} (x : A) (pre mid post : List A)
    → length mid ≡ 1
    → put (length pre) x (pre ++ (mid ++ post)) ≡ pre ++ (x ∷ post)
unfolding put
put_lem x [] [] post h = absurd (omega (arith, h))
put_lem x [] (y ∷ []) post h = refl
put_lem x [] (y ∷ z ∷ mid) post h = absurd (omega (arith, h))
put_lem x (w ∷ pre) mid post h = ap (λ b. w ∷ b) (put_lem x pre mid post h)

cell_at_lem : (x : Cell) (pre post : List Cell) → cell_at (length pre) (pre ++ (x ∷ post)) ≡ inr x
unfolding cell_at
cell_at_lem x [] post = refl
cell_at_lem x (w ∷ pre) post = cell_at_lem x pre post

module _ {A : Type 0} (cell : A → Cell) (uncell : Cell → Error ⊎ A) where
  abbrev marshal_cell : Marshaler Cell A
  marshal_cell n b a = inr (n + 1, put n (cell a) b)

  abbrev unmarshal_cell : Unmarshaler Cell A
  unmarshal_cell n b = do x ← cell_at n b; a ← uncell x; inr (n + 1, a)

  cell-IsCodec :
      ((a : A) → uncell (cell a) ≡ inr a)
      → {Fits : A → Type 0} → IsCodec Fits (λ a. inr 1) marshal_cell unmarshal_cell (λ a. a)
  cell-IsCodec law = record {
    encode = λ a. cell a ∷ [];
    sizes = λ a _. refl;
    writes =
        λ a pre mid post _ h. ap (λ b. inr (length pre + 1, b)) (put_lem (cell a) pre mid post h);
    reads = λ a pre post _. rw (cell_at_lem (cell a) pre post, law a) refl;
  }

unfoldable size_all : {A : Type 0} → List A → Sizer A → Error ⊎ ℕ
size_all [] size = inr 0
size_all (x ∷ v) size = do s ← size x; t ← size_all v size; inr (s + t)

unfoldable marshal_all :
    {A : Type 0} → ℕ → List Cell → List A → Marshaler Cell A → Error ⊎ (ℕ × List Cell)
marshal_all n b [] marshal = inr (n, b)
marshal_all n b (x ∷ v) marshal = do w ← marshal n b x; marshal_all w.0 w.1 v marshal

unfoldable unmarshal_all : {A : Type 0} → ℕ → Unmarshaler Cell A → Unmarshaler Cell (List A)
unmarshal_all zero unmarshal n b = inr (n, [])
unmarshal_all (suc k) unmarshal n b = do
  r ← unmarshal n b
  s ← unmarshal_all k unmarshal r.0 b
  inr (s.0, r.1 ∷ s.1)

unmarshal_cons :
    {A : Type 0} (k n : ℕ) (b : List Cell) (unmarshal : Unmarshaler Cell A)
    → unmarshal_all (suc k) unmarshal n b
      ≡ (unmarshal_both unmarshal (unmarshal_all k unmarshal) n b >>= λ p. inr (p.0, p.1.0 ∷ p.1.1))
unfolding unmarshal_all
unmarshal_cons k n b unmarshal = simp bind_assoc

plus_zero : (n : ℕ) → n ≡ n + 0
plus_zero n = omega arith

abbrev marshal_count : Marshaler Cell ℕ
marshal_count = marshal_cell count as_count

abbrev unmarshal_count : Unmarshaler Cell ℕ
unmarshal_count = unmarshal_cell count as_count

count-IsCodec : IsCodec (λ n. Unit) (λ n. inr 1) marshal_count unmarshal_count (λ n. n)
unfolding as_count
count-IsCodec = cell-IsCodec count as_count (λ n. refl)

module _ {A B : Type 0} {Fits : A → Type 0} {size : Sizer A} {marshal : Marshaler Cell A}
    {unmarshal : Unmarshaler Cell B} {read_as : A → B}
    (k : IsCodec Fits size marshal unmarshal read_as) where
  -- The elements of one list in a row.
  all-IsCodec :
      (v : List A)
      → IsCodec {A = Unit}
          (λ _. AllFit Fits v)
          (λ _. size_all v size)
          (λ n b _. marshal_all n b v marshal)
          (unmarshal_all (length v) unmarshal)
          (λ _. map read_as v)
  unfolding size_all marshal_all unmarshal_all
  all-IsCodec [] = record {
    encode = λ _. [];
    sizes = λ _ _. refl;
    writes = λ _ pre mid post _ h.
        rw (nil_of_length mid h) (ap (λ n. inr (n, pre ++ post)) (plus_zero (length pre)));
    reads = λ _ pre post _. ap (λ n. inr (n, [])) (plus_zero (length pre));
  }
  all-IsCodec (x ∷ v) = record {
    encode = λ u. encode_both k (all-IsCodec v) (x, u);
    sizes = λ u p. both_sizes k (all-IsCodec v) x u p.0 p.1;
    writes = λ u pre mid post p h. both_writes k (all-IsCodec v) x u pre mid post p.0 p.1 h;
    reads = λ u pre post p.
        unmarshal_cons (length v) (length pre)
          (pre ++ (encode_both k (all-IsCodec v) (x, u) ++ post)) unmarshal
        ∙ ap (λ r. r >>= λ p. inr (p.0, p.1.0 ∷ p.1.1))
            (both_reads k (all-IsCodec v) x u pre post p.0 p.1);
  }

unfoldable size_list : {A : Type 0} → List A → Sizer A → Error ⊎ ℕ
size_list v size = do t ← size_all v size; inr (1 + t)

unfoldable marshal_list :
    {A : Type 0} → ℕ → List Cell → List A → Marshaler Cell A → Error ⊎ (ℕ × List Cell)
marshal_list n b v marshal = do w ← marshal_count n b (length v); marshal_all w.0 w.1 v marshal

unfoldable unmarshal_list : {A : Type 0} → Unmarshaler Cell A → Unmarshaler Cell (List A)
unmarshal_list unmarshal n b = do k ← unmarshal_count n b; unmarshal_all k.1 unmarshal k.0 b

-- A list is its length and its elements.
module _ {A B : Type 0} {Fits : A → Type 0} {size : Sizer A} {marshal : Marshaler Cell A}
    {unmarshal : Unmarshaler Cell B} {read_as : A → B}
    (k : IsCodec Fits size marshal unmarshal read_as) where
  abbrev encode_list : List A → List Cell
  encode_list v = encode_both count-IsCodec (all-IsCodec k v) (length v, tt)

  list-IsCodec :
      IsCodec
        (λ v. AllFit Fits v × Sized (λ u. size_list u size) v)
        (λ v. size_list v size)
        (λ n b v. marshal_list n b v marshal)
        (unmarshal_list unmarshal)
        (map read_as)
  unfolding size_list marshal_list unmarshal_list
  list-IsCodec = record {
    encode = encode_list;
    sizes = λ v p. both_sizes count-IsCodec (all-IsCodec k v) (length v) tt tt p.0;
    writes = λ v pre mid post p h.
        both_writes count-IsCodec (all-IsCodec k v) (length v) tt pre mid post tt p.0 h;
    reads = λ v pre post p.
        then_reads count-IsCodec (all-IsCodec k v) (λ n. unmarshal_all n unmarshal) (length v) tt
          pre post tt p.0 refl;
  }

text-IsCodec :
    IsCodec
      (Sized (λ s. inr 1))
      (λ s. inr 1)
      (marshal_cell text as_text)
      (unmarshal_cell text as_text)
      (λ s. s)
unfolding as_text
text-IsCodec = cell-IsCodec text as_text (λ s. refl)

number-IsCodec :
    IsCodec IsInt32
      (λ i. inr 1)
      (marshal_cell number as_number)
      (unmarshal_cell number as_number)
      (λ i. i)
unfolding as_number
number-IsCodec = cell-IsCodec number as_number (λ i. refl)

-- An entry of a map is its key and its value.
abbrev size_entry : {A : Type 0} → Sizer String → Sizer A → Sizer (String × A)
size_entry size_key size (k, v) = do s ← size_key k; t ← size v; inr (s + t)

abbrev marshal_entry :
    {A : Type 0} → Marshaler Cell String → Marshaler Cell A → Marshaler Cell (String × A)
marshal_entry marshal_key marshal n b (k, v) = do w ← marshal_key n b k; marshal w.0 w.1 v

module _ {A B : Type 0} {Fits : A → Type 0} {size : Sizer A} {marshal : Marshaler Cell A}
    {unmarshal : Unmarshaler Cell B} {read_as : A → B}
    (k : IsCodec Fits size marshal unmarshal read_as) where
  entry-IsCodec :
      IsCodec
        (λ ((s, v) : String × A). Sized {A = String} (λ s. inr 1) s × Fits v)
        (size_entry (λ s. inr 1) size)
        (marshal_entry (marshal_cell text as_text) marshal)
        (unmarshal_both (unmarshal_cell text as_text) unmarshal)
        (λ ((s, v) : String × A). (s, read_as v))
  entry-IsCodec = record {
    encode = encode_both text-IsCodec k;
    sizes = λ (s, v) p. both_sizes text-IsCodec k s v p.0 p.1;
    writes = λ (s, v) pre mid post p. both_writes text-IsCodec k s v pre mid post p.0 p.1;
    reads = λ (s, v) pre post p. both_reads text-IsCodec k s v pre post p.0 p.1;
  }

replicate : {A : Type 0} → ℕ → A → List A
replicate zero x = []
replicate (suc n) x = x ∷ replicate n x

verify_end : ℕ → List Cell → Option Error
verify_end n b = if eqb n (length b) then none else some (other "bytes left")

pub cells : Benc
cells = record {
  Byte = Cell;
  size_string = λ s. inr 1;
  marshal_string = marshal_cell text as_text;
  unmarshal_string = unmarshal_cell text as_text;
  size_int32 = 1;
  marshal_int32 = λ n b i. (n + 1, put n (number i) b);
  unmarshal_int32 = unmarshal_cell number as_number;
  size_slice = size_list;
  marshal_slice = marshal_list;
  unmarshal_slice = λ n b unmarshal. unmarshal_list unmarshal n b;
  size_map = λ m size_key size. size_list m (size_entry size_key size);
  marshal_map = λ n b m marshal_key marshal. marshal_list n b m (marshal_entry marshal_key marshal);
  unmarshal_map =
      λ n b unmarshal_key unmarshal. unmarshal_list (unmarshal_both unmarshal_key unmarshal) n b;
  marshal_start = λ n. (0, replicate n (count 0));
  verify_marshal = verify_end;
}

length-replicate : {A : Type 0} (n : ℕ) (x : A) → length (replicate n x) ≡ n
unfolding replicate
length-replicate zero x = refl
length-replicate (suc n) x = ground (arith, length-replicate n x)

pub cells-IsBenc : IsBenc cells
unfolding cells verify_end list-IsCodec count-IsCodec cell-IsCodec
cells-IsBenc = record {
  string_codec = text-IsCodec;
  int32_codec = number-IsCodec;
  slice_codec = λ k. list-IsCodec k;
  map_codec = λ k. list-IsCodec (entry-IsCodec k);
  map_room = λ k m. omega arith;
  start_offset = λ n. refl;
  start_length = λ n. length-replicate n (count 0);
  verify_full = λ b. ground arith;
}
