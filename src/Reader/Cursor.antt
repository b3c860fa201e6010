-- ===== src/Reader/Cursor.antt =====
-- The reader of src/basilisp/lang/reader.py as a cursor in the text.
use baisilisp.Base.{
  ◌≡◌, refl, sym, ap, ◌∙◌, ℕ, zero, suc, ◌+◌, ◌-◌, ◌≤◌, ◌<◌, max, Option, none, some, List, [], ◌∷◌,
  ltb, get_elem?, if◌then◌else◌, arith, Bool-cases, Option-cases, ◌↔◌, inl, inr,
}
use mathlib.Core.Path.{subst}
use baisilisp.Reader.{StreamReader, make_reader, peek, line, col, pushback, move_on, ◌>>=◌}
use baisilisp.Reader.Stands.{
  loc_at, Stands, Stands-reads, pushback-Stands, move_on-Stands_again, move_on-Stands,
  make_reader-Stands,
}

pub data Move : Type 0 where
  forward backward : Move

abbrev pub move : Move → StreamReader → Option StreamReader
move forward r = move_on r
move backward r = pushback r

unfoldable pub move_all : List Move → StreamReader → Option StreamReader
move_all [] r = some r
move_all (m ∷ ms) r = move m r >>= λ r'. move_all ms r'

-- A place in the text with the furthest place that was reached. It is not defined to go back past
-- the start, nor further back than the deque of `depth` entries holds.
unfoldable pub go : ℕ → Move → ℕ × ℕ → Option (ℕ × ℕ)
go depth forward (p, h) = some (suc p, max (suc p) h)
go depth backward (zero, h) = none
go depth backward (suc p, h) = if ltb depth (h - p + 2) then none else some (p, h)

unfoldable pub go_all : ℕ → List Move → ℕ × ℕ → Option (ℕ × ℕ)
go_all depth [] c = some c
go_all depth (m ∷ ms) c = go depth m c >>= λ c'. go_all depth ms c'

pair_eq : {a b c d : ℕ} → a ≡ b → c ≡ d → ◌≡◌ {A = ℕ × ℕ} (a, c) (b, d)
pair_eq e e' = cc

some_inj : {A : Type 0} {a b : A} → some a ≡ some b → a ≡ b
some_inj e = cc

module _ (src : List ℕ) (line₀ col₀ depth : ℕ) where
  move-Stands :
      (m : Move) (p h : ℕ) (c : ℕ × ℕ) (r : StreamReader)
      → Stands src line₀ col₀ depth p h r
      → go depth m (p, h) ≡ some c
      → (r' : StreamReader) × (move m r ≡ some r') × Stands src line₀ col₀ depth c.0 c.1 r'
  unfolding go
  move-Stands forward p h c r s e = elim (Bool-cases (ltb p h)) [
    | inl past ↦
        let (r', moved, s') =
          move_on-Stands_again src line₀ col₀ depth p h r s (ground (arith, past)) in
        let to : (suc p, h) ≡ c = ap (λ n. (suc p, n)) (ground (arith, past)) ∙ some_inj e in
        (r', moved, subst (λ c. Stands src line₀ col₀ depth c.0 c.1 r') to s')
    | inr end ↦
        let at : p ≡ h = ground (arith, end, s.behind) in
        let (r', moved, s') =
          move_on-Stands src line₀ col₀ depth h r
            (subst (λ q. Stands src line₀ col₀ depth q h r) at s) in
        let to : (suc h, suc h) ≡ c = pair_eq (ap suc (sym at)) (ground (arith, at)) ∙ some_inj e in
        (r', moved, subst (λ c. Stands src line₀ col₀ depth c.0 c.1 r') to s')
  ]
  move-Stands backward zero h c r s e = ground (arith, e)
  move-Stands backward (suc p) h c r s e =
      let (r', moved, s') =
        pushback-Stands src line₀ col₀ depth p h r s (ground (arith, e, s.index, s.behind)) in
      let to : (p, h) ≡ c = ground (arith, e) in
      (r', moved, subst (λ c. Stands src line₀ col₀ depth c.0 c.1 r') to s')

  move_all-Stands :
      (ms : List Move) (p h : ℕ) (c : ℕ × ℕ) (r : StreamReader)
      → Stands src line₀ col₀ depth p h r
      → go_all depth ms (p, h) ≡ some c
      → (r' : StreamReader) × (move_all ms r ≡ some r') × Stands src line₀ col₀ depth c.0 c.1 r'
  unfolding move_all go_all
  move_all-Stands [] p h c r s e =
      (r, refl, subst (λ c. Stands src line₀ col₀ depth c.0 c.1 r) (some_inj e) s)
  move_all-Stands (m ∷ ms) p h c r s e = elim (Option-cases (go depth m (p, h))) [
    | inl none_e ↦ ground (arith, e, none_e)
    | inr (c', e') ↦
        let (r', moved, s') = move-Stands m p h c' r s e' in
        let (r'', rest, s'') = move_all-Stands ms c'.0 c'.1 c r' s' (ground (arith, e, e')) in
        (r'', rw moved rest, s'')
  ]

  pushback-Stands_iff :
      (p h : ℕ) (r : StreamReader)
      → Stands src line₀ col₀ depth p h r
      → (pushback r ≡ none) ↔ (depth < h - p + 3)
  unfolding pushback
  pushback-Stands_iff p h r s = (
    (λ e. ground (arith, e, s.index, s.behind, s.kept)),
    λ e. ground (arith, e, s.index, s.behind, s.kept),
  )

  -- After any moves forward and back from the start of a text, none of which goes back past the start
  -- or further than the deques hold, no call has raised. The next character, the line and the column
  -- are those of the place in the text to which the moves lead, where a line ends as the whole text
  -- says; and `pushback` raises there if and only if it would go further back than the deques hold.
  -- The deques hold at least 2 entries.
  pub reader_at_place :
      (ms : List Move) (p h : ℕ)
      → 2 ≤ depth
      → go_all depth ms (0, 0) ≡ some (p, h)
      → (r : StreamReader) × ((make_reader src depth (some line₀) (some col₀) >>= move_all ms)
          ≡ some r)
        × (peek r ≡ some (get_elem? src p))
        × (line r ≡ some (loc_at src line₀ col₀ p).0)
        × (col r ≡ some (loc_at src line₀ col₀ p).1)
        × ((pushback r ≡ none) ↔ (depth < h - p + 3))
  unfolding pushback
  reader_at_place ms p h deep e =
      let (r₀, made, s₀) = make_reader-Stands src line₀ col₀ depth deep in
      let (r, moved, s) = move_all-Stands ms 0 0 (p, h) r₀ s₀ e in
      let (c, l, k) = Stands-reads src line₀ col₀ depth p h r s in
      (r, rw made moved, c, l, k, pushback-Stands_iff p h r s)
