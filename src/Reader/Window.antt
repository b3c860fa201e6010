-- ===== src/Reader/Window.antt =====
-- The deques of `StreamReader` in src/basilisp/lang/reader.py, which keep the newest entries.
use baisilisp.Base.{
  ◌≡◌, ◌∙◌, ℕ, zero, suc, ◌+◌, ◌-◌, ◌<◌, ◌&&◌, none, some, List, [], ◌∷◌, ltb, leb, get_elem?, take,
  if◌then◌else◌, arith,
}
use baisilisp.Reader.{append}

get_elem?-take :
    {A : Type 0} (d : ℕ) (xs : List A) (i : ℕ)
    → get_elem? (take d xs) i ≡ (if ltb i d then get_elem? xs i else none)
get_elem?-take zero xs i = ground arith
get_elem?-take (suc d) [] i = ground arith
get_elem?-take (suc d) (x ∷ xs) zero = ground arith
get_elem?-take (suc d) (x ∷ xs) (suc i) = ground (arith, get_elem?-take d xs i)

-- The deque of the last entries of `f` up to the one at `n`, the newest one first.
abbrev pub Window : {A : Type 0} → ℕ → (ℕ → A) → ℕ → List A → Type 0
Window d f n xs = (i : ℕ) → get_elem? xs i ≡ (if ltb i d && leb i n then some (f (n - i)) else none)

pub start-Window : {A : Type 0} (d : ℕ) (f : ℕ → A) → Window d f 0 (take d (f 0 ∷ []))
start-Window d f zero = get_elem?-take d (f 0 ∷ []) zero ∙ ground arith
start-Window d f (suc i) = get_elem?-take d (f 0 ∷ []) (suc i) ∙ ground arith

pub append-Window :
    {A : Type 0} (d : ℕ) (f : ℕ → A) (n : ℕ) (xs : List A)
    → Window d f n xs
    → Window d f (suc n) (append d (f (suc n)) xs)
append-Window d f n xs w zero = get_elem?-take d (f (suc n) ∷ xs) zero ∙ ground arith
append-Window d f n xs w (suc i) = get_elem?-take d (f (suc n) ∷ xs) (suc i) ∙ grind (arith, w i)

pub Window-at :
    {A : Type 0} (d : ℕ) (f : ℕ → A) (n : ℕ) (xs : List A) (i p : ℕ)
    → Window d f n xs
    → i < d
    → i + p ≡ n
    → get_elem? xs i ≡ some (f p)
Window-at d f n xs i p w short e = w i ∙ grind (arith, short, e)
