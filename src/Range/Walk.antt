-- ===== src/Range/Walk.antt =====
-- Walking a range of src/basilisp/lang/range.py item by item and chunk by chunk.
use mathlib.Core.Path.{subst}
use baisilisp.Base.{
  ℕ, zero, suc, ◌-◌, ◌≤◌, ◌<◌, ◌≡◌, true, Option, List, [], ◌∷◌, length, arith, Bool-cases, inl,
  inr,
}
use baisilisp.Base.Int.{ℤ, ◌+ℤ◌}
use baisilisp.Range.{
  RangeSeq, Seq, empty, range_seq, zero_step, in_bounds, rest, values_from, chunk_values, advance,
  chunked_rest, default_chunk_size,
}

-- `first` and `rest` taken `n` times: the items, and the sequence that is left.
pub walk : ℕ → Seq → List ℤ × Seq
walk zero s = ([], s)
walk (suc n) empty = ([], empty)
walk (suc n) (zero_step v) = let w = walk n (zero_step v) in (v ∷ w.0, w.1)
walk (suc n) (range_seq s) = let w = walk n (rest s) in (s.start ∷ w.0, w.1)

-- What `RangeSeq.__init__` and the callers of it establish.
pub record IsRange (s : RangeSeq) : Type 0 where
  pub lower : 0 < s.chunk_remaining
  pub upper : s.chunk_remaining ≤ default_chunk_size
  pub inside : in_bounds s.start s.end s.step ≡ true

abbrev pub IsSeq : Seq → Type 0
IsSeq (range_seq s) = IsRange s
IsSeq _ = Unit

-- From a range that is in bounds, with 1 to 32 items left in its chunk, `rest` and `chunked_rest`
-- arrive at a sequence of which the same holds.
pub rest-IsSeq : (s : RangeSeq) → IsRange s → IsSeq (rest s) × IsSeq (chunked_rest s)
unfolding rest chunked_rest
rest-IsSeq s h = (by_item, by_chunk)
  where
    by_item : IsSeq (rest s)
    by_item = elim (Bool-cases (in_bounds (s.start +ℤ s.step) s.end s.step)) [
      | inr e ↦ rw (e, rest) tt
      | inl e ↦ rw (e, rest) (record { lower = ground arith; upper = ground arith; inside = e })
    ]

    by_chunk : IsSeq (chunked_rest s)
    by_chunk =
        let next = advance (length (chunk_values s)) s.start s.step in
        elim (Bool-cases (in_bounds next s.end s.step)) [
          | inr e ↦ rw (e, chunked_rest) tt
          | inl e ↦
              rw (e, chunked_rest) (record { lower = omega arith; upper = omega arith; inside = e })
        ]

-- A range with `suc r` items left in its chunk.
abbrev at : ℤ → Option ℤ → ℤ → ℕ → RangeSeq
at start end step r = record { start = start; end = end; step = step; chunk_remaining = suc r }

-- The next chunk, and the walk over as many items.
abbrev pub Agree : RangeSeq → Type 0
Agree s = walk (length (chunk_values s)) (range_seq s) ≡ (chunk_values s, chunked_rest s)

Agree-from :
    (r : ℕ) (start : ℤ) (end : Option ℤ) (step : ℤ)
    → in_bounds start end step ≡ true
    → Agree (at start end step r)
unfolding walk chunk_values values_from chunked_rest advance rest
Agree-from zero start end step h = elim (Bool-cases (in_bounds (start +ℤ step) end step)) [
  | inr e ↦ ground (arith, h, e)
  | inl e ↦ ground (arith, h, e)
]
Agree-from (suc r) start end step h = elim (Bool-cases (in_bounds (start +ℤ step) end step)) [
  | inr e ↦ ground (arith, h, e)
  | inl e ↦ ground (arith, h, e, Agree-from r (start +ℤ step) end step e)
]

-- For a range that is in bounds, with 1 to 32 items left in its chunk: the chunk is what `first`
-- gives on the walk by `rest` over as many items, and `chunked_rest` is the sequence at which that
-- walk arrives.
pub walk-chunk : (s : RangeSeq) → IsRange s → Agree s
walk-chunk s h =
    let r = s.chunk_remaining - 1 in
    let e : suc r ≡ s.chunk_remaining = omega arith in
    subst (λ n. Agree (record s { chunk_remaining = n })) e
      (Agree-from r s.start s.end s.step h.inside)
