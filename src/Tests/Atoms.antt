-- ===== src/Tests/Atoms.antt =====
-- An atom that another thread changes once while it is swapped.
use baisilisp.Base.{ℕ, suc, ◌≡◌, refl, true, none, some, ◌==◌, if◌then◌else◌}
use baisilisp.Agent.{Result, ok, validate_state}
use baisilisp.Atom.{Atom, Others, Swapped, swap, exchange, notify_watches}
use baisilisp.Atom.Swap.{swap-atomic}

abbrev three : Atom ℕ
three = record { state = 3; validator = none; watches = λ old new. none }

-- In the first turn the state becomes 8 after it was read.
abbrev once : Others ℕ
once = record { before = λ i s. s; between = λ i s. if i == 0 then 8 else s }

abbrev nine : Swapped ℕ
nine = record { result = ok 9; found = 8; atom = record three { state = 9 } }

abbrev increment : ℕ → Result ℕ
increment n = ok (suc n)

three-swapped : swap ◌==◌ 2 0 once increment three ≡ some nine
unfolding swap exchange notify_watches validate_state
three-swapped = refl

swap-atomic_example :
    (s : ℕ) × (increment s ≡ ok 9) × ((nine.found == s) ≡ true) × (nine.atom.state ≡ 9)
swap-atomic_example = swap-atomic ◌==◌ once increment three 2 nine 9 three-swapped refl
