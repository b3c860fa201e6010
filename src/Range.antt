-- ===== src/Range.antt =====
-- src/basilisp/lang/range.py: the chunked sequence of `range`, over the integers.
pub mod Walk
use baisilisp.Base.{
  ℕ, zero, suc, ◌-◌, Bool, true, false, Option, none, some, List, [], ◌∷◌, length, ltb, ◌==◌, ◌||◌,
  if◌then◌else◌,
}
use baisilisp.Base.Int.{ℤ, pos, negsuc, ◌+ℤ◌, ltb_ℤ, leb_ℤ}

-- `DEFAULT_CHUNK_SIZE`
abbrev pub default_chunk_size : ℕ
default_chunk_size = 32

-- `_in_bounds`; without an end everything is.
unfoldable pub in_bounds : ℤ → Option ℤ → ℤ → Bool
in_bounds value none step = true
in_bounds value (some end) step = if leb_ℤ (pos 0) step then ltb_ℤ value end else ltb_ℤ end value

pub record RangeSeq : Type 0 where
  pub start : ℤ
  pub end : Option ℤ
  pub step : ℤ
  pub chunk_remaining : ℕ

-- A sequence: `EMPTY`, a `RangeSeq`, or a `_ZeroStepRangeSeq` of its value.
pub data Seq : Type 0 where
  empty : Seq
  range_seq : RangeSeq → Seq
  zero_step : ℤ → Seq

-- `RangeSeq.__init__`; `none` is the `ValueError`.
unfoldable pub make_range : ℤ → Option ℤ → ℤ → ℕ → Option RangeSeq
make_range start end step chunk_remaining =
    if ltb chunk_remaining 1 || ltb default_chunk_size chunk_remaining
    then none
    else some (record { start = start; end = end; step = step; chunk_remaining = chunk_remaining })

-- `RangeSeq.rest`
unfoldable pub rest : RangeSeq → Seq
rest s =
    let next_start = s.start +ℤ s.step in
    if in_bounds next_start s.end s.step
    then range_seq (record s {
      start = next_start;
      chunk_remaining =
          if ltb 1 s.chunk_remaining then s.chunk_remaining - 1 else default_chunk_size;
    })
    else empty

-- the loop of `_chunk_values`, over the rounds left
unfoldable pub values_from : ℕ → ℤ → Option ℤ → ℤ → List ℤ
values_from zero current end step = []
values_from (suc n) current end step =
    let more = values_from n (current +ℤ step) end step in
    if in_bounds current end step then current ∷ more else []

unfoldable pub chunk_values : RangeSeq → List ℤ
chunk_values s = values_from s.chunk_remaining s.start s.end s.step

-- the loop of `chunked_rest`
unfoldable pub advance : ℕ → ℤ → ℤ → ℤ
advance zero start step = start
advance (suc n) start step = advance n (start +ℤ step) step

unfoldable pub chunked_rest : RangeSeq → Seq
chunked_rest s =
    let next_start = advance (length (chunk_values s)) s.start s.step in
    if in_bounds next_start s.end s.step
    then range_seq (record s { start = next_start; chunk_remaining = default_chunk_size })
    else empty

-- `chunked_next`; `none` is `None`.
unfoldable pub chunked_next : RangeSeq → Option Seq
chunked_next s = elim (chunked_rest s) [ empty ↦ none | other ↦ some other ]

-- `step == 0`
unfoldable pub is_zero : ℤ → Bool
is_zero (pos n) = n == 0
is_zero (negsuc n) = false

-- `range`, of up to three arguments; `none` is the `TypeError`.
unfoldable pub range_from : ℤ → Option ℤ → ℤ → Seq
range_from start end step =
    if in_bounds start end step
    then (if is_zero step
        then zero_step start
        else range_seq (record {
          start = start;
          end = end;
          step = step;
          chunk_remaining = default_chunk_size;
        }))
    else empty

unfoldable pub range : List ℤ → Option Seq
range [] = some (range_from (pos 0) none (pos 1))
range (end ∷ []) = some (range_from (pos 0) (some end) (pos 1))
range (start ∷ end ∷ []) = some (range_from start (some end) (pos 1))
range (start ∷ end ∷ step ∷ []) = some (range_from start (some end) step)
range _ = none
