-- ===== src/Chunk/Slices.antt =====
-- The chunks and the vector sequences of src/basilisp/lang/chunk.py as slices of a list.
use baisilisp.Base.{
  ℕ, zero, suc, ◌+◌, ◌-◌, ◌≤◌, ◌<◌, ◌≡◌, refl, some, List, [], ◌∷◌, ◌++◌, length, get_elem?, ltb,
  leb, ◌==◌, if◌then◌else◌, drop, take, arith, ap, ◌∙◌, sym, Bool-cases, inl, inr,
}
use baisilisp.Chunk.{
  ArrayChunk, VectorSeq, Seq, empty, vector, chunked, chunked_last, ok, make_chunk, size, item_at,
  make_vector_seq, vector_first, vector_rest, vector_chunked_first, vector_chunked_rest,
  default_chunk_size,
}

module _ {A : Type 0} where
  drop_step :
      (xs : List A) (i : ℕ)
      → i < length xs
      → (x : A) × (get_elem? xs i ≡ some x) × (drop i xs ≡ x ∷ drop (suc i) xs)
  drop_step [] i h = absurd (omega arith)
  drop_step (x ∷ xs) zero h = (x, refl, refl)
  drop_step (x ∷ xs) (suc i) h = drop_step xs i (omega arith)

  take-append-drop : (n : ℕ) (xs : List A) → take n xs ++ drop n xs ≡ xs
  take-append-drop zero xs = refl
  take-append-drop (suc n) [] = refl
  take-append-drop (suc n) (x ∷ xs) = ap (◌∷◌ x) (take-append-drop n xs)

  take_nil : (n : ℕ) → ◌≡◌ {A = List A} (take n []) []
  take_nil zero = refl
  take_nil (suc n) = refl

  drop_all_nil : (n : ℕ) → ◌≡◌ {A = List A} (drop n []) []
  drop_all_nil zero = refl
  drop_all_nil (suc n) = refl

  take-drop : (xs : List A) (i j : ℕ) → i ≤ j → take (j - i) (drop i xs) ++ drop j xs ≡ drop i xs
  take-drop xs zero j h = let e : j - 0 ≡ j = omega arith in rw e (take-append-drop j xs)
  take-drop [] (suc i) j h = rw (take_nil (j - suc i)) (drop_all_nil j)
  take-drop (x ∷ xs) (suc i) zero h = absurd (omega arith)
  take-drop (x ∷ xs) (suc i) (suc j) h =
      let e : suc j - suc i ≡ j - i = omega arith in rw e (take-drop xs i j (omega arith))

  drop_all : (xs : List A) (i : ℕ) → i ≡ length xs → drop i xs ≡ []
  drop_all [] zero h = refl
  drop_all [] (suc i) h = absurd (omega arith)
  drop_all (x ∷ xs) zero h = absurd (omega arith)
  drop_all (x ∷ xs) (suc i) h = drop_all xs i (omega arith)

  -- The items of a chunk and of a sequence.
  pub view : ArrayChunk A → List A
  view c = take (c.end - c.offset) (drop c.offset c.array)

  pub items : Seq A → List A
  items empty = []
  items (vector s) = drop s.offset s.source
  items (chunked c offset rest) = drop offset (view c) ++ items rest
  items (chunked_last c offset) = drop offset (view c)

  -- What `ChunkedVectorSeq` keeps: a place in the source, and the end of its chunk.
  pub record IsPlace (s : VectorSeq A) : Type 0 where
    pub before : s.offset < s.chunk_end
    pub inside : s.chunk_end ≤ length s.source
    pub short : s.chunk_end ≤ s.offset + default_chunk_size

  abbrev pub IsSeq : Seq A → Type 0
  IsSeq (vector s) = IsPlace s
  IsSeq _ = Unit

  -- The sequence from the end of a chunk on.
  onward :
      (s : VectorSeq A)
      → IsPlace s
      → (t : Seq A) × (vector_chunked_rest s ≡ ok t)
        × (items t ≡ drop s.chunk_end s.source)
        × IsSeq t
  unfolding vector_chunked_rest make_vector_seq items
  onward s h = elim (Bool-cases (s.chunk_end == length s.source)) [
    | inl e ↦ (empty, ground (arith, e), sym (drop_all s.source s.chunk_end (ground arith)), tt)
    | inr e ↦
        let len = length s.source in
        let end =
          if leb (s.chunk_end + default_chunk_size) len
          then s.chunk_end + default_chunk_size
          else len in
        (
          vector (record { source = s.source; offset = s.chunk_end; chunk_end = end }),
          ground (arith, e),
          refl,
          record { before = ground (arith, e); inside = ground arith; short = ground arith },
        )
  ]

module _ {A : Type 0} (s : VectorSeq A) (h : IsPlace s) where
  -- `rest` stays in the same chunk or goes to the start of the next.
  pub vector-first_rest :
      (x : A) × (t : Seq A) × (vector_first s ≡ ok x)
      × (vector_rest s ≡ ok t)
      × (items (vector s) ≡ x ∷ items t)
      × IsSeq t
  unfolding vector_first item_at vector_rest make_vector_seq items
  vector-first_rest =
      let (x, found, split) = drop_step s.source s.offset (omega (arith, h.before, h.inside)) in
      elim (Bool-cases (ltb (s.offset + 1) s.chunk_end)) [
        | inl e ↦
            let at : suc s.offset ≡ s.offset + 1 = omega arith in
            (
              x,
              vector (record s { offset = s.offset + 1 }),
              ground (arith, found),
              ground (arith, e, h.inside),
              split ∙ ap (λ n. x ∷ drop n s.source) at,
              record {
                before = ground (arith, e);
                inside = h.inside;
                short = omega (arith, h.short);
              },
            )
        | inr e ↦
            let (t, more, rest, place) = onward s h in
            let at : suc s.offset ≡ s.chunk_end = ground (arith, e, h.before) in
            (
              x,
              t,
              ground (arith, found),
              rw (e, vector_rest) more,
              split ∙ ap (λ n. x ∷ drop n s.source) at ∙ ap (◌∷◌ x) (sym rest),
              place,
            )
      ]

  -- `chunked_rest` goes on after the chunk.
  pub vector-chunks :
      (c : ArrayChunk A) × (t : Seq A) × (vector_chunked_first s ≡ ok c)
      × (vector_chunked_rest s ≡ ok t)
      × (items (vector s) ≡ view c ++ items t)
      × (0 < size c)
      × (size c ≤ default_chunk_size)
      × IsSeq t
  unfolding vector_chunked_first make_chunk items view size
  vector-chunks =
      let (t, more, rest, place) = onward s h in
      (
        record { array = s.source; offset = s.offset; end = s.chunk_end },
        t,
        ground (arith, h.before, h.inside),
        more,
        rw rest (sym (take-drop s.source s.offset s.chunk_end (omega (arith, h.before)))),
        omega (arith, h.before),
        omega (arith, h.short),
        place,
      )

  -- For a vector sequence that keeps its place: `first` and `rest` split off the first item,
  -- `chunked_first` and `chunked_rest` split off a chunk of 1 to 32 items, and both rests are
  -- sequences that keep their place.
  pub vector-steps :
      ((x : A) × (t : Seq A) × (vector_first s ≡ ok x)
        × (vector_rest s ≡ ok t)
        × (items (vector s) ≡ x ∷ items t)
        × IsSeq t)
      × ((c : ArrayChunk A) × (t : Seq A) × (vector_chunked_first s ≡ ok c)
          × (vector_chunked_rest s ≡ ok t)
          × (items (vector s) ≡ view c ++ items t)
          × (0 < size c)
          × (size c ≤ default_chunk_size)
          × IsSeq t)
  vector-steps = (vector-first_rest, vector-chunks)
