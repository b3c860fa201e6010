-- ===== src/Reader/Stands.antt =====
-- The state of a reader of src/basilisp/lang/reader.py at a place in its text.
use baisilisp.Base.{
  ◌≡◌, refl, ℕ, zero, suc, ◌+◌, ◌-◌, ◌≤◌, some, List, [], ◌∷◌, get_elem?, take, drop, if◌then◌else◌,
  arith, Bool-cases, inl, inr,
}
use baisilisp.Reader.{
  StreamReader, read_char, append, ends_line, update_loc, make_reader, peek, line, col, pushback,
  move_on,
}
use baisilisp.Reader.Window.{Window, append-Window, start-Window, Window-at}

module _ (src : List ℕ) (line₀ col₀ : ℕ) where
  -- The line and column of a place in the text.
  unfoldable pub loc_at : ℕ → ℕ × ℕ
  loc_at zero = (line₀, col₀)
  loc_at (suc p) =
      let here = loc_at p in
      if ends_line (get_elem? src p) (get_elem? src (suc p))
      then (suc here.0, 0)
      else (here.0, suc here.1)

  -- A reader whose next character is the one at `p`, and which went as far as `h`.
  pub record Stands (depth p h : ℕ) (r : StreamReader) : Type 0 where
    pub unread : r.stream ≡ drop (suc (suc h)) src
    pub kept : r.pushback_depth ≡ depth
    pub deep : 2 ≤ depth
    pub near : r.back ≤ depth
    pub index : r.back + p ≡ suc (suc h)
    pub behind : p ≤ h
    pub buffer-Window : Window depth (get_elem? src) (suc h) r.buffer
    pub lines-Window : Window depth (λ i. (loc_at i).0) (suc h) r.lines
    pub cols-Window : Window depth (λ i. (loc_at i).1) (suc h) r.cols

  pub Stands-reads :
      (depth p h : ℕ) (r : StreamReader)
      → Stands depth p h r
      → (peek r ≡ some (get_elem? src p))
        × (line r ≡ some (loc_at p).0)
        × (col r ≡ some (loc_at p).1)
  unfolding peek line col
  Stands-reads depth p h r s = (
    Window-at depth (get_elem? src) (suc h) r.buffer (r.back - 1) p s.buffer-Window
        (ground (arith, s.index, s.near, s.behind, s.kept))
        (ground (arith, s.index, s.near, s.behind, s.kept)),
    Window-at depth (λ i. (loc_at i).0) (suc h) r.lines (r.back - 1) p s.lines-Window
        (ground (arith, s.index, s.near, s.behind, s.kept))
        (ground (arith, s.index, s.near, s.behind, s.kept)),
    Window-at depth (λ i. (loc_at i).1) (suc h) r.cols (r.back - 1) p s.cols-Window
        (ground (arith, s.index, s.near, s.behind, s.kept))
        (ground (arith, s.index, s.near, s.behind, s.kept)),
  )

  pub pushback-Stands :
      (depth p h : ℕ) (r : StreamReader)
      → Stands depth (suc p) h r
      → suc r.back ≤ depth
      → (r' : StreamReader) × (pushback r ≡ some r') × Stands depth p h r'
  unfolding pushback
  pushback-Stands depth p h r s room = (
    record r { back = suc r.back },
    (ground (arith, s.index, s.near, s.behind, s.kept, room)),
    record {
      unread = s.unread;
      kept = s.kept;
      deep = s.deep;
      near = room;
      index = ground (arith, s.index);
      behind = ground (arith, s.behind);
      buffer-Window = s.buffer-Window;
      lines-Window = s.lines-Window;
      cols-Window = s.cols-Window;
    },
  )

  pub move_on-Stands_again :
      (depth p h : ℕ) (r : StreamReader)
      → Stands depth p h r
      → suc p ≤ h
      → (r' : StreamReader) × (move_on r ≡ some r') × Stands depth (suc p) h r'
  unfolding move_on
  move_on-Stands_again depth p h r s past = (
    record r { back = r.back - 1 },
    (ground (arith, s.index, past)),
    record {
      unread = s.unread;
      kept = s.kept;
      deep = s.deep;
      near = (ground (arith, s.index, s.near, s.behind, s.kept));
      index = ground (arith, s.index, past);
      behind = past;
      buffer-Window = s.buffer-Window;
      lines-Window = s.lines-Window;
      cols-Window = s.cols-Window;
    },
  )

  read_char_lem : (n : ℕ) (xs : List ℕ) → read_char (drop n xs) ≡ (get_elem? xs n, drop (suc n) xs)
  unfolding read_char
  read_char_lem zero [] = refl
  read_char_lem zero (x ∷ xs) = refl
  read_char_lem (suc n) [] = refl
  read_char_lem (suc n) (x ∷ xs) = read_char_lem n xs

  loc_at-next :
      (n : ℕ)
      → ((loc_at (suc n)).0 ≡ (
          if ends_line (get_elem? src n) (get_elem? src (suc n))
          then suc (loc_at n).0
          else (loc_at n).0))
        × ((loc_at (suc n)).1
            ≡ (if ends_line (get_elem? src n) (get_elem? src (suc n)) then 0 else suc (loc_at n).1))
  unfolding loc_at
  loc_at-next n = elim (Bool-cases (ends_line (get_elem? src n) (get_elem? src (suc n)))) [
    | inl e ↦ rw (e, loc_at) (refl, refl)
    | inr e ↦ rw (e, loc_at) (refl, refl)
  ]

  -- The reader with the location of one more character.
  abbrev located : ℕ → StreamReader → StreamReader
  located n r = record r {
    lines = append r.pushback_depth (loc_at (suc n)).0 r.lines;
    cols = append r.pushback_depth (loc_at (suc n)).1 r.cols;
  }

  update_loc-located :
      (depth n : ℕ) (r : StreamReader)
      → 2 ≤ depth
      → Window depth (get_elem? src) (suc n) r.buffer
      → Window depth (λ i. (loc_at i).0) n r.lines
      → Window depth (λ i. (loc_at i).1) n r.cols
      → update_loc r ≡ some (located n r)
  unfolding update_loc
  update_loc-located depth n r deep chars lines cols =
      let next =
        Window-at depth (get_elem? src) (suc n) r.buffer 0 (suc n) chars (ground (arith, deep))
          (omega arith) in
      let before =
        Window-at depth (get_elem? src) (suc n) r.buffer 1 n chars (ground (arith, deep))
          (omega arith) in
      let l =
        Window-at depth (λ i. (loc_at i).0) n r.lines 0 n lines (ground (arith, deep))
          (omega arith) in
      let c =
        Window-at depth (λ i. (loc_at i).1) n r.cols 0 n cols (ground (arith, deep))
          (omega arith) in
      rw (next, before, l, c, (loc_at-next n).0, (loc_at-next n).1) refl

  located-Stands :
      (depth p h : ℕ) (r : StreamReader)
      → r.stream ≡ drop (suc (suc h)) src
      → r.pushback_depth ≡ depth
      → 2 ≤ depth
      → r.back ≡ 2
      → p ≡ h
      → Window depth (get_elem? src) (suc h) r.buffer
      → Window depth (λ i. (loc_at i).0) h r.lines
      → Window depth (λ i. (loc_at i).1) h r.cols
      → Stands depth p h (located h r)
  located-Stands depth p h r unread kept deep back at chars lines cols = record {
    unread = unread;
    kept = kept;
    deep = deep;
    near = ground (arith, back, deep);
    index = ground (arith, back, at);
    behind = ground (arith, at);
    buffer-Window = chars;
    lines-Window = rw kept (append-Window depth (λ i. (loc_at i).0) h r.lines lines);
    cols-Window = rw kept (append-Window depth (λ i. (loc_at i).1) h r.cols cols);
  }

  pub move_on-Stands :
      (depth h : ℕ) (r : StreamReader)
      → Stands depth h h r
      → (r' : StreamReader) × (move_on r ≡ some r') × Stands depth (suc h) (suc h) r'
  unfolding move_on
  move_on-Stands depth h r s =
      let read : StreamReader = record r {
        stream = drop (suc (suc (suc h))) src;
        buffer = append r.pushback_depth (get_elem? src (suc (suc h))) r.buffer;
      } in
      let chars : Window depth (get_elem? src) (suc (suc h)) read.buffer =
        rw s.kept (append-Window depth (get_elem? src) (suc h) r.buffer s.buffer-Window) in
      (
        located (suc h) read,
        rw (s.unread, read_char_lem (suc (suc h)) src)
            (ground (
              arith,
              s.index,
              update_loc-located depth (suc h) read s.deep chars s.lines-Window s.cols-Window,
            )),
        located-Stands depth (suc h) (suc h) read refl s.kept s.deep (ground (arith, s.index)) refl
            chars s.lines-Window s.cols-Window,
      )

  first_reader : ℕ → StreamReader
  first_reader depth = record {
    stream = drop 2 src;
    pushback_depth = depth;
    back = 2;
    lines = take depth (line₀ ∷ []);
    cols = take depth (col₀ ∷ []);
    buffer = append depth (get_elem? src 1) (take depth (get_elem? src 0 ∷ []));
  }

  pub make_reader-Stands :
      (depth : ℕ)
      → 2 ≤ depth
      → (r : StreamReader) × (make_reader src depth (some line₀) (some col₀) ≡ some r)
        × Stands depth 0 0 r
  unfolding make_reader loc_at first_reader
  make_reader-Stands depth deep =
      let chars : Window depth (get_elem? src) 1 (first_reader depth).buffer =
        append-Window depth (get_elem? src) 0 (take depth (get_elem? src 0 ∷ []))
          (start-Window depth (get_elem? src)) in
      let lines : Window depth (λ i. (loc_at i).0) 0 (first_reader depth).lines =
        start-Window depth (λ i. (loc_at i).0) in
      let cols : Window depth (λ i. (loc_at i).1) 0 (first_reader depth).cols =
        start-Window depth (λ i. (loc_at i).1) in
      (
        located 0 (first_reader depth),
        rw (read_char_lem 0 src, read_char_lem 1 src)
            (update_loc-located depth 0 (first_reader depth) deep chars lines cols),
        located-Stands depth 0 0 (first_reader depth) refl refl deep refl refl chars lines cols,
      )
