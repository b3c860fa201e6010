-- ===== src/Chunk.antt =====
-- src/basilisp/lang/chunk.py: chunks, the buffer that builds one, and the chunked sequences.
pub mod Slices
use baisilisp.Base.{
  ℕ, zero, suc, ◌+◌, ◌-◌, ◌≤◌, Bool, true, false, Option, none, some, List, [], ◌∷◌, ◌++◌, length,
  get_elem?, ltb, leb, ◌==◌, ◌||◌, ◌&&◌, if◌then◌else◌, min,
}
use baisilisp.Base.Int.{ℤ, pos, negsuc}

pub data Error : Type 0 where
  bad_bounds index_error empty_chunk capacity_value already_converted exceeded : Error

pub data Result {ℓ} (A : Type ℓ) : Type ℓ where
  ok : A → Result A
  raise : Error → Result A

infixl 5 ◌>>=◌
abbrev pub ◌>>=◌ {ℓ κ} : {A : Type ℓ} {B : Type κ} → Result A → (A → Result B) → Result B
ok a >>= f = f a
raise e >>= f = raise e

abbrev pub default_chunk_size : ℕ
default_chunk_size = 32

pub record ArrayChunk (A : Type 0) : Type 0 where
  pub array : List A
  pub offset : ℕ
  pub end : ℕ

-- `ChunkBuffer`; `items` is `none` once the chunk is made.
pub record ChunkBuffer (A : Type 0) : Type 0 where
  pub capacity : ℕ
  pub items : Option (List A)

pub record VectorSeq (A : Type 0) : Type 0 where
  pub source : List A
  pub offset : ℕ
  pub chunk_end : ℕ

-- A sequence: `EMPTY`, a vector sequence, or a `ChunkedCons` of a chunk, an offset in it and a
-- rest that may be missing.
pub data Seq (A : Type 0) : Type 0 where
  empty : Seq A
  vector : VectorSeq A → Seq A
  chunked : ArrayChunk A → ℕ → Seq A → Seq A
  chunked_last : ArrayChunk A → ℕ → Seq A

module _ {A : Type 0} where
  -- `ArrayChunk.__init__`
  unfoldable pub make_chunk : List A → ℤ → Option ℤ → Result (ArrayChunk A)
  make_chunk array (negsuc n) end = raise bad_bounds
  make_chunk array (pos offset) none =
      if ltb (length array) offset
      then raise bad_bounds
      else ok (record { array = array; offset = offset; end = length array })
  make_chunk array (pos offset) (some (negsuc n)) = raise bad_bounds
  make_chunk array (pos offset) (some (pos end)) =
      if ltb end offset || ltb (length array) end
      then raise bad_bounds
      else ok (record { array = array; offset = offset; end = end })

  -- `__len__`
  unfoldable pub size : ArrayChunk A → ℕ
  size c = c.end - c.offset

  -- `self._array[i]`
  unfoldable pub item_at : List A → ℕ → Result A
  item_at xs i = elim (get_elem? xs i) [ none ↦ raise index_error | some x ↦ ok x ]

  -- `nth`; `none` is the sentinel for a missing `notfound`.
  unfoldable pub nth : ArrayChunk A → ℤ → Option A → Result A
  nth c (negsuc n) notfound = elim notfound [ none ↦ raise index_error | some x ↦ ok x ]
  nth c (pos k) notfound =
      if ltb k (size c)
      then item_at c.array (c.offset + k)
      else elim notfound [ none ↦ raise index_error | some x ↦ ok x ]

  unfoldable pub drop_first : ArrayChunk A → Result (ArrayChunk A)
  drop_first c =
      if size c == 0
      then raise empty_chunk
      else make_chunk c.array (pos (c.offset + 1)) (some (pos c.end))

  unfoldable pub make_buffer : ℤ → Result (ChunkBuffer A)
  make_buffer (negsuc n) = raise capacity_value
  make_buffer (pos capacity) = ok (record { capacity = capacity; items = some [] })

  unfoldable pub append : ChunkBuffer A → A → Result (ChunkBuffer A)
  append b value = elim b.items [
    | none ↦ raise already_converted
    | some items ↦
        if leb b.capacity (length items)
        then raise exceeded
        else ok (record b { items = some (items ++ value ∷ []) })
  ]

  -- `chunk`: the chunk, and the buffer that is now spent
  unfoldable pub chunk : ChunkBuffer A → Result (ArrayChunk A × ChunkBuffer A)
  chunk b = elim b.items [
    | none ↦ raise already_converted
    | some items ↦ do c ← make_chunk items (pos 0) none; ok (c, record b { items = none })
  ]

  -- `ChunkedVectorSeq.__init__`
  unfoldable pub make_vector_seq : List A → ℕ → Option ℕ → Result (VectorSeq A)
  make_vector_seq source offset chunk_end =
      if ltb offset (length source)
      then ok (record {
        source = source;
        offset = offset;
        chunk_end = elim chunk_end [
          | none ↦
              if leb (offset + default_chunk_size) (length source)
              then offset + default_chunk_size
              else length source
          | some e ↦ e
        ];
      })
      else raise index_error

  -- `ChunkedVectorSeq.first`, `chunked_first`, `chunked_rest` and `rest`
  unfoldable pub vector_first : VectorSeq A → Result A
  vector_first s = item_at s.source s.offset

  unfoldable pub vector_chunked_first : VectorSeq A → Result (ArrayChunk A)
  vector_chunked_first s = make_chunk s.source (pos s.offset) (some (pos s.chunk_end))

  unfoldable pub vector_chunked_rest : VectorSeq A → Result (Seq A)
  vector_chunked_rest s =
      if s.chunk_end == length s.source
      then ok empty
      else (do n ← make_vector_seq s.source s.chunk_end none; ok (vector n))

  unfoldable pub vector_rest : VectorSeq A → Result (Seq A)
  vector_rest s =
      if ltb (s.offset + 1) s.chunk_end
      then (do n ← make_vector_seq s.source (s.offset + 1) (some s.chunk_end); ok (vector n))
      else vector_chunked_rest s

  -- `ChunkedVectorSeq.chunked_next`; `none` is `None`.
  unfoldable pub vector_chunked_next : VectorSeq A → Result (Option (Seq A))
  vector_chunked_next s =
      if s.chunk_end == length s.source
      then ok none
      else (do n ← make_vector_seq s.source s.chunk_end none; ok (some (vector n)))

  -- `ChunkedCons.__init__`, on a rest that may be `None`
  unfoldable pub make_cons : ArrayChunk A → Option (Seq A) → ℕ → Result (Seq A)
  make_cons c rest offset =
      if size c == 0
      then raise empty_chunk
      else if ltb offset (size c)
      then ok (elim rest [ none ↦ chunked_last c offset | some r ↦ chunked c offset r ])
      else raise index_error

  -- `chunk_cons`
  unfoldable pub chunk_cons : ArrayChunk A → Option (Seq A) → Result (Option (Seq A))
  chunk_cons c rest = if size c == 0 then ok rest else (do s ← make_cons c rest 0; ok (some s))

  -- `chunked_rest`, `chunked_next` and `rest` of `ChunkedCons`
  unfoldable pub cons_chunked_rest : Option (Seq A) → Seq A
  cons_chunked_rest none = empty
  cons_chunked_rest (some s) = s

  unfoldable pub cons_rest : ArrayChunk A → Option (Seq A) → ℕ → Result (Seq A)
  cons_rest c rest offset =
      if ltb (offset + 1) (size c)
      then make_cons c rest (offset + 1)
      else ok (cons_chunked_rest rest)

  unfoldable pub cons_chunked_first : ArrayChunk A → ℕ → Result (ArrayChunk A)
  cons_chunked_first c offset = make_chunk c.array (pos (c.offset + offset)) (some (pos c.end))

  -- `chunked_vector_seq`; `none` is `None`.
  unfoldable pub chunked_vector_seq : List A → Result (Option (VectorSeq A))
  chunked_vector_seq source =
      if length source == 0 then ok none else (do s ← make_vector_seq source 0 none; ok (some s))
