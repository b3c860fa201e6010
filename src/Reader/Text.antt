-- ===== src/Reader/Text.antt =====
-- Reading a whole text by `advance` of src/basilisp/lang/reader.py.
use baisilisp.Base.{
  ◌≡◌, refl, ap, ◌∙◌, ℕ, zero, suc, ◌≤◌, Option, some, List, [], ◌∷◌, map, length, get_elem?,
}
use baisilisp.Reader.{StreamReader, make_reader, next_char, advance, ◌>>=◌}
use baisilisp.Reader.Stands.{Stands, Stands-reads, move_on-Stands, make_reader-Stands}

-- what `n` calls of `advance` return
unfoldable pub advance_all : ℕ → StreamReader → Option (List (Option ℕ))
advance_all zero r = some []
advance_all (suc n) r = do next ← advance r; rest ← advance_all n next.1; some (next.0 ∷ rest)

chars_from : List ℕ → ℕ → ℕ → List (Option ℕ)
chars_from src p zero = []
chars_from src p (suc n) = get_elem? src p ∷ chars_from src (suc p) n

chars_from-cons :
    (x : ℕ) (xs : List ℕ) (p n : ℕ) → chars_from (x ∷ xs) (suc p) n ≡ chars_from xs p n
unfolding chars_from
chars_from-cons x xs p zero = refl
chars_from-cons x xs p (suc n) = ap (λ cs. get_elem? xs p ∷ cs) (chars_from-cons x xs (suc p) n)

chars_from-all : (src : List ℕ) → chars_from src 0 (length src) ≡ map some src
unfolding chars_from
chars_from-all [] = refl
chars_from-all (x ∷ xs) =
    ap (λ cs. some x ∷ cs) (chars_from-cons x xs 0 (length xs) ∙ chars_from-all xs)

module _ (src : List ℕ) (line₀ col₀ depth : ℕ) where
  advance-Stands :
      (p : ℕ) (r : StreamReader)
      → Stands src line₀ col₀ depth p p r
      → (r' : StreamReader) × (advance r ≡ some (get_elem? src p, r'))
        × Stands src line₀ col₀ depth (suc p) (suc p) r'
  unfolding advance next_char
  advance-Stands p r s =
      let (r', moved, s') = move_on-Stands src line₀ col₀ depth p r s in
      let here = (Stands-reads src line₀ col₀ depth p p r s).0 in
      let there = (Stands-reads src line₀ col₀ depth (suc p) (suc p) r' s').0 in
      (r', rw (here, moved, there) refl, s')

  advance_all-chars :
      (n p : ℕ) (r : StreamReader)
      → Stands src line₀ col₀ depth p p r
      → advance_all n r ≡ some (chars_from src p n)
  unfolding advance_all chars_from
  advance_all-chars zero p r s = refl
  advance_all-chars (suc n) p r s =
      let (r', next, s') = advance-Stands p r s in rw (next, advance_all-chars n (suc p) r' s') refl

  -- A reader gives the text that it was made from: as many calls of `advance` as the text has
  -- characters raise nothing and return them in order. The deques hold at least 2 entries.
  pub advance_all-text :
      2 ≤ depth
      → (make_reader src depth (some line₀) (some col₀) >>= advance_all (length src))
        ≡ some (map some src)
  advance_all-text deep =
      let (r, made, s) = make_reader-Stands src line₀ col₀ depth deep in
      rw made (advance_all-chars (length src) 0 r s ∙ ap some (chars_from-all src))
