-- ===== src/Reader.antt =====
-- `StreamReader` of src/basilisp/lang/reader.py. A character is a number; the empty string, which the
-- stream gives at its end, is `none`. The deques have their newest entry first, and `back` is the
-- index `_idx` without its sign. `IndexError` is `none`.
pub mod Window
pub mod Stands
pub mod Cursor
pub mod Text
use baisilisp.Base.{
  ℕ, suc, ◌+◌, ◌-◌, Bool, true, false, not, ◌&&◌, ◌||◌, Option, none, some, List, [], ◌∷◌, ltb,
  ◌==◌, get_elem?, take, if◌then◌else◌,
}

infixl 5 ◌>>=◌
abbrev pub ◌>>=◌ : {A B : Type 0} → Option A → (A → Option B) → Option B
none >>= f = none
some a >>= f = f a

pub record StreamReader : Type 0 where
  pub stream : List ℕ
  pub pushback_depth : ℕ
  pub back : ℕ
  pub lines : List ℕ
  pub cols : List ℕ
  pub buffer : List (Option ℕ)

-- `stream.read(1)`
unfoldable pub read_char : List ℕ → Option ℕ × List ℕ
read_char [] = (none, [])
read_char (c ∷ cs) = (some c, cs)

-- `append` of a deque that holds at most `depth` entries
abbrev pub append : {A : Type 0} → ℕ → A → List A → List A
append depth x xs = take depth (x ∷ xs)

-- `self._buffer[-2] == "\n" or (self._buffer[-2] == "\r" and self._buffer[-1] != "\n")`
unfoldable pub ends_line : Option ℕ → Option ℕ → Bool
ends_line none next = false
ends_line (some c) none = c == 10 || c == 13
ends_line (some c) (some d) = c == 10 || c == 13 && not (d == 10)

unfoldable pub update_loc : StreamReader → Option StreamReader
update_loc r = do
  next ← get_elem? r.buffer 0
  before ← get_elem? r.buffer 1
  line ← get_elem? r.lines 0
  col ← get_elem? r.cols 0
  some (record r {
    lines = append r.pushback_depth (if ends_line before next then suc line else line) r.lines;
    cols = append r.pushback_depth (if ends_line before next then 0 else suc col) r.cols;
  })

unfoldable pub make_reader : List ℕ → ℕ → Option ℕ → Option ℕ → Option StreamReader
make_reader stream depth init_line init_column =
    let first = read_char stream in
    let second = read_char first.1 in
    update_loc (record {
      stream = second.1;
      pushback_depth = depth;
      back = 2;
      lines = take depth (elim init_line [ none ↦ 1 | some n ↦ n ] ∷ []);
      cols = take depth (elim init_column [ none ↦ 0 | some n ↦ n ] ∷ []);
      buffer = append depth second.0 (take depth (first.0 ∷ []));
    })

unfoldable pub peek : StreamReader → Option (Option ℕ)
peek r = get_elem? r.buffer (r.back - 1)

unfoldable pub line : StreamReader → Option ℕ
line r = get_elem? r.lines (r.back - 1)

unfoldable pub col : StreamReader → Option ℕ
col r = get_elem? r.cols (r.back - 1)

unfoldable pub pushback : StreamReader → Option StreamReader
pushback r =
    if ltb r.pushback_depth (suc r.back) then none else some (record r { back = suc r.back })

-- the change that `next_char` makes
unfoldable pub move_on : StreamReader → Option StreamReader
move_on r =
    let read = read_char r.stream in
    if ltb 2 r.back
    then some (record r { back = r.back - 1 })
    else update_loc (record r { stream = read.1; buffer = append r.pushback_depth read.0 r.buffer })

unfoldable pub next_char : StreamReader → Option (Option ℕ × StreamReader)
next_char r = do moved ← move_on r; c ← peek moved; some (c, moved)

unfoldable pub advance : StreamReader → Option (Option ℕ × StreamReader)
advance r = do cur ← peek r; next ← next_char r; some (cur, next.1)
