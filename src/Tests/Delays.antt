-- ===== src/Tests/Delays.antt =====
-- A delay of src/basilisp/lang/delay.py that is dereferenced twice.
use baisilisp.Base.{◌==◌, Bool, true, false, ◌≡◌, refl, ℕ, Option, none, some}
use baisilisp.Agent.{ok, raise, user, validate_state}
use baisilisp.Atom.{Others, Swapped, swap, exchange, notify_watches}
use baisilisp.Delay.{make_delay, compute, deref_delay}
use baisilisp.Delay.Realized.{AreDerefs, deref_same}

abbrev same_state : Option ℕ → Option ℕ → Bool
same_state none none = true
same_state (some m) (some n) = m == n
same_state _ _ = false

abbrev alone : Others (Option ℕ)
alone = record { before = λ i s. s; between = λ i s. s }

alone-AreDerefs : AreDerefs same_state alone
alone-AreDerefs = record { before_kept = λ i v. refl; between_kept = λ i v. refl }

abbrev seven : Swapped (Option ℕ)
seven = record { result = ok (some 7); found = none; atom = record make_delay { state = some 7 } }

first_deref : deref_delay same_state 1 alone (ok 7) make_delay ≡ some seven
unfolding deref_delay swap compute exchange validate_state notify_watches
first_deref = refl

deref_same_example :
    deref_delay same_state 1 alone (raise (user 3)) seven.atom
    ≡ some (record { result = ok (some 7); found = some 7; atom = seven.atom })
deref_same_example =
    deref_same same_state 1 0 alone alone (ok 7) (raise (user 3)) none 7 seven alone-AreDerefs refl
      first_deref refl
