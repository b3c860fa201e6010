-- ===== src/Tests/Readers.antt =====
-- A reader of the text "a\r\nb\nc".
use baisilisp.Base.{
  ◌≡◌, refl, ℕ, ◌+◌, ◌-◌, ◌<◌, none, some, List, [], ◌∷◌, map, length, get_elem?, ◌↔◌, arith,
}
use baisilisp.Reader.{StreamReader, ends_line, make_reader, peek, line, col, pushback, ◌>>=◌}
use baisilisp.Reader.Cursor.{Move, forward, backward, move_all, go, go_all, reader_at_place}
use baisilisp.Reader.Stands.{loc_at}
use baisilisp.Reader.Text.{advance_all, advance_all-text}

abbrev text : List ℕ
text = 97 ∷ 13 ∷ 10 ∷ 98 ∷ 10 ∷ 99 ∷ []

abbrev moves : List Move
moves = forward ∷ forward ∷ forward ∷ backward ∷ forward ∷ forward ∷ backward ∷ []

reader_at_place_example :
    (r : StreamReader) × ((make_reader text 5 (some 1) (some 0) >>= move_all moves) ≡ some r)
    × (peek r ≡ some (get_elem? text 3))
    × (line r ≡ some (loc_at text 1 0 3).0)
    × (col r ≡ some (loc_at text 1 0 3).1)
    × ((pushback r ≡ none) ↔ (5 < 4 - 3 + 3))
unfolding go_all go
reader_at_place_example = reader_at_place text 1 0 5 moves 3 4 (omega arith) refl

abbrev place_3 : ℕ × ℕ
place_3 = loc_at text 1 0 3

third_line : place_3 ≡ (2, 0)
unfolding loc_at ends_line
third_line = refl

advance_all-text_example :
    (make_reader text 5 (some 1) (some 0) >>= advance_all (length text)) ≡ some (map some text)
advance_all-text_example = advance_all-text text 1 0 5 (omega arith)
