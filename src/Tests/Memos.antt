-- ===== src/Tests/Memos.antt =====
-- A function that fails when it is called for the first time, memoized by src/basilisp/core_memoize.py.
use baisilisp.Base.{
  ◌≡◌, refl, sym, ap, ◌∙◌, ◌+◌, inl, inr, if_pos, if_neg, ℕ, some, List, [], ◌∷◌, arith, ℕ_discrete,
}
use baisilisp.Base.Dict.{Dict, get, put, get-put}
use baisilisp.Cache.Fifo.{Result, ok, raise, user, cache_has, cache_lookup, basic_miss}
use baisilisp.Tests.Maps.{DictsOf, dicts_of, dicts_of-MapLaws, fill_dicts}
use baisilisp.Memo.{
  Delay, retrying, CacheOps, Memo, tuple, cache_key, derefable_seed, memoizer, settle, deref_cell,
  deref, add_delay, access, find, call_memoized, Event, calls, derefs, step, run,
}
use baisilisp.Memo.Right.{
  IsItem, CacheLaws, IsValue, some_value, ok_value, IsSeed, memoized_right, memoizer-IsRight,
  run-Safe,
}
use baisilisp.Memo.Once.{called_once}
use baisilisp.Memo.Policies.{basic_ops, basic_ops-CacheLaws}

abbrev ops : CacheOps (DictsOf (Delay ℕ)) ℕ ℕ
ops = basic_ops (dicts_of (Delay ℕ)) ℕ_discrete

fill_dicts-IsItem :
    {V : Type 0} (base : Dict ℕ V) (k : ℕ) (d : V)
    → get ℕ_discrete k (fill_dicts base).0 ≡ some d
    → IsItem k d base
unfolding fill_dicts get
fill_dicts-IsItem [] k d e = absurd (ground (arith, e))
fill_dicts-IsItem ((j, c) ∷ base) k d e =
    let q = sym (get-put ℕ_discrete j k c (fill_dicts base).0) ∙ e in
    elim (ℕ_discrete j k) [
      | yes p ↦ inl (p, some_value c d (sym (if_pos (ℕ_discrete j k) p _ _) ∙ q))
      | no p ↦ inr (fill_dicts-IsItem base k d (sym (if_neg (ℕ_discrete j k) p _ _) ∙ q))
    ]

laws : CacheLaws ops
laws =
    basic_ops-CacheLaws (dicts_of (Delay ℕ)) ℕ_discrete (dicts_of-MapLaws (Delay ℕ))
      fill_dicts-IsItem

abbrev first : List ℕ → ℕ
first [] = 0
first (x ∷ xs) = x

abbrev key_of : List ℕ → ℕ
key_of args = cache_key first (tuple args)

abbrev double : List ℕ → ℕ
double args = first args + first args

abbrev fails_once : List (List ℕ) → List ℕ → Result ℕ
fails_once [] args = raise (user 1)
fails_once (c ∷ cs) args = ok (double args)

sound :
    (log : List (List ℕ)) (args : List ℕ) (v : ℕ)
    → fails_once log args ≡ ok v
    → IsValue ops laws key_of fails_once double (key_of args) v
unfolding cache_key
sound [] args v e args' k = absurd (ground (arith, e))
sound (c ∷ cs) args v e args' k = sym (ok_value (double args) v e) ∙ ap (λ n. n + n) (sym k)

unseeded : IsSeed ops laws key_of fails_once double []
unfolding derefable_seed
unseeded k d i = absurd i

abbrev started : Memo (DictsOf (Delay ℕ)) ℕ ℕ
started = memoizer ops key_of fails_once ([], tt) []

abbrev failed : List (Event ops key_of fails_once)
failed = calls (3 ∷ []) ∷ derefs (retrying 0) ∷ []

abbrev others : List (Event ops key_of fails_once)
others = calls (4 ∷ []) ∷ derefs (retrying 1) ∷ []

abbrev tried : Memo (DictsOf (Delay ℕ)) ℕ ℕ
tried = run ops key_of fails_once started failed

abbrev accessed : Memo (DictsOf (Delay ℕ)) ℕ ℕ
accessed = access ops key_of fails_once tried (3 ∷ [])

memoized_right_example :
    (d : Delay ℕ) × (find ops key_of fails_once tried (3 ∷ []) ≡ some d)
    × ((v : ℕ)
        → (deref ops key_of fails_once (run ops key_of fails_once accessed others) d).0 ≡ ok v
        → v ≡ 6)
memoized_right_example =
    memoized_right ops laws key_of fails_once double sound ([], tt) [] failed others (3 ∷ [])
      unseeded (tt, (tt, tt)) (tt, (tt, tt))

found_again : find ops key_of fails_once tried (3 ∷ []) ≡ some (retrying 0)
unfolding find access add_delay memoizer run step deref deref_cell settle cache_key cache_has
    cache_lookup basic_miss get put fill_dicts derefable_seed ℕ_discrete
found_again = refl

retried : (deref ops key_of fails_once accessed (retrying 0)).0 ≡ ok 6
unfolding find access add_delay memoizer run step deref deref_cell settle cache_key cache_has
    cache_lookup basic_miss get put fill_dicts derefable_seed ℕ_discrete
retried = refl

abbrev later : Memo (DictsOf (Delay ℕ)) ℕ ℕ
later = run ops key_of fails_once (deref ops key_of fails_once accessed (retrying 0)).1 others

still_cached : ops.lookup later.cache (key_of (3 ∷ [])) ≡ some (retrying 0)
unfolding find access add_delay memoizer run step deref deref_cell settle cache_key cache_has
    cache_lookup basic_miss get put fill_dicts derefable_seed ℕ_discrete
still_cached = refl

called_once_example :
    (c : DictsOf (Delay ℕ)) × (call_memoized ops key_of fails_once 1 later (3 ∷ [])
      ≡ some (ok 6, record later { cache = c }))
called_once_example =
    called_once ops laws key_of fails_once double sound tried (3 ∷ []) (3 ∷ []) (retrying 0) 6
      others 0
      (run-Safe ops laws key_of fails_once double sound started failed
        (memoizer-IsRight ops laws key_of fails_once double sound ([], tt) [] unseeded)
        (tt, (tt, tt))).0
      (tt, (tt, tt)) found_again retried still_cached
