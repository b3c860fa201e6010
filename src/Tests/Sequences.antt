-- ===== src/Tests/Sequences.antt =====
-- A range of three items.
use baisilisp.Base.{refl, some, arith, dec_lt}
use baisilisp.Base.Int.{pos}
use baisilisp.Range.{RangeSeq, in_bounds}
use baisilisp.Range.Walk.{walk-chunk, IsRange, Agree}

abbrev three : RangeSeq
three = record { start = pos 0; end = some (pos 6); step = pos 2; chunk_remaining = 32 }

three-IsRange : IsRange three
unfolding in_bounds dec_lt
three-IsRange = record { lower = omega arith; upper = omega arith; inside = refl }

walk-chunk_example : Agree three
walk-chunk_example = walk-chunk three three-IsRange
