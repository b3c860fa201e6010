-- ===== src/Memo/Once.antt =====
-- A function memoized by src/basilisp/core_memoize.py is not called again while its delay is cached.
use mathlib.Core.Path.{subst}
use baisilisp.Base.{
  ◌≡◌, refl, sym, ap, ◌∙◌, inl, inr, ℕ, suc, true, some, List, ◌∷◌, Option-cases, is_some,
}
use baisilisp.Cache.Fifo.{Result, ok, raise, key_error}
use baisilisp.Memo.{
  Delay, value_delay, retrying, DelayState, CacheOps, Memo, settle, deref_cell, deref, access, find,
  call_memoized, Event, run,
}
use baisilisp.Memo.Right.{
  CacheLaws, update_at, ok_value, raise_ok, IsValue, IsRight, Keeps, AreAllowed, access-Safe,
  deref-Safe, run-Safe, deref_here,
}

module _ {C X K V : Type 0} (ops : CacheOps C K V) (laws : CacheLaws ops) (key_of : List X → K)
    (f : List (List X) → List X → Result V) (g : List X → V)
    (sound : (log : List (List X)) (args : List X) (v : V)
      → f log args ≡ ok v
      → IsValue ops laws key_of f g (key_of args) v) where
  -- A delay that has its value.
  abbrev pub IsDone : Memo C X V → Delay V → V → Type 0
  IsDone s (value_delay w) v = w ≡ v
  IsDone s (retrying i) v =
      (cell : DelayState X V) × (s.cells i ≡ some cell) × (cell.value ≡ some v)

  deref-done :
      (s : Memo C X V) (d : Delay V) (v : V) → IsDone s d v → deref ops key_of f s d ≡ (ok v, s)
  unfolding deref deref_cell
  deref-done s (value_delay w) v e = rw e refl
  deref-done s (retrying i) v (cell, here, e) =
      rw (here, deref, deref_cell) (rw (e, deref_cell) refl)

  settle-IsDone :
      (s : Memo C X V) (i : ℕ) (cell : DelayState X V) (r : Result V) (v : V)
      → (settle ops key_of f s i cell r).0 ≡ ok v
      → IsDone (settle ops key_of f s i cell r).1 (retrying i) v
  unfolding settle
  settle-IsDone s i cell (ok w) v e = (
    record cell { value = some w },
    update_at s.cells i (some (record cell { value = some w })),
    ap some (ok_value w v e),
  )
  settle-IsDone s i cell (raise x) v e = absurd (raise_ok x v e)

  deref_cell-IsDone :
      (s : Memo C X V) (i : ℕ) (cell : DelayState X V) (v : V)
      → s.cells i ≡ some cell
      → (deref_cell ops key_of f s i cell).0 ≡ ok v
      → IsDone (deref_cell ops key_of f s i cell).1 (retrying i) v
  unfolding deref_cell settle
  deref_cell-IsDone s i cell v here = elim (Option-cases cell.value) [
    | inl e ↦
        let s' : Memo C X V = record s { log = cell.args ∷ s.log } in
        rw (e, deref_cell) (settle-IsDone s' i cell (f s.log cell.args) v)
    | inr (w, e) ↦ rw (e, deref_cell) (λ q. (cell, here, e ∙ ap some (ok_value w v q)))
  ]

  deref-IsDone :
      (s : Memo C X V) (d : Delay V) (v : V)
      → (deref ops key_of f s d).0 ≡ ok v
      → IsDone (deref ops key_of f s d).1 d v
  unfolding deref
  deref-IsDone s (value_delay w) v e = ok_value w v e
  deref-IsDone s (retrying i) v e = elim (Option-cases (s.cells i)) [
    | inl gone ↦
        let q : (deref ops key_of f s (retrying i)).0 ≡ raise key_error = rw (gone, deref) refl in
        absurd (raise_ok key_error v (sym q ∙ e))
    | inr (cell, here) ↦
        subst (λ (r : Result V × Memo C X V). r.0 ≡ ok v → IsDone r.1 (retrying i) v)
          (sym (deref_here ops laws key_of f g sound s i cell here))
          (deref_cell-IsDone s i cell v here) e
  ]

  IsDone-Keeps :
      (s t : Memo C X V) (d : Delay V) (v : V)
      → Keeps ops laws key_of f g s t
      → IsDone s d v
      → IsDone t d v
  IsDone-Keeps s t (value_delay w) v k e = e
  IsDone-Keeps s t (retrying i) v k (cell, here, e) =
      let (cell', there, a, keeps) = k i cell here in (cell', there, keeps v e)

  access_cached :
      (s : Memo C X V) (args : List X) (d : Delay V)
      → ops.lookup s.cache (key_of args) ≡ some d
      → access ops key_of f s args ≡ record s { cache = ops.hit s.cache (key_of args) }
  unfolding access
  access_cached s args d e =
      let has : ops.has s.cache (key_of args) ≡ true =
        laws.has-lookup s.cache (key_of args) ∙ ap is_some e in
      rw (has, access) refl

  find_cached :
      (s : Memo C X V) (args : List X) (d : Delay V)
      → ops.lookup s.cache (key_of args) ≡ some d
      → find ops key_of f s args ≡ some d
  unfolding find
  find_cached s args d e =
      ap (λ (t : Memo C X V). ops.lookup t.cache (key_of args)) (access_cached s args d e)
      ∙ laws.lookup-hit s.cache (key_of args) (key_of args)
      ∙ e

  -- A call that finds its delay done does not call the function.
  call_done :
      (fuel : ℕ) (s : Memo C X V) (args : List X) (d : Delay V) (v : V)
      → ops.lookup s.cache (key_of args) ≡ some d
      → IsDone s d v
      → call_memoized ops key_of f (suc fuel) s args
        ≡ some (ok v, record s { cache = ops.hit s.cache (key_of args) })
  unfolding call_memoized
  call_done fuel s args d v e done =
      let t : Memo C X V = record s { cache = ops.hit s.cache (key_of args) } in
      let still = IsDone-Keeps s t d v (λ i cell here. (cell, here, refl, λ v h. h)) done in
      rw (find_cached s args d e, call_memoized)
        (rw (access_cached s args d e, deref-done t d v still) refl)

  -- After a call has returned a value, and whatever is done then with the memoized function, a call for
  -- whose key the cache still has the delay of the first call returns the same value. It changes nothing
  -- but the cache, so it does not call the function, and one turn is enough for it.
  pub called_once :
      (s : Memo C X V) (args args' : List X) (d : Delay V) (v : V) (es : List (Event ops key_of f))
      (fuel : ℕ)
      → IsRight ops laws key_of f g s
      → AreAllowed ops laws key_of f g sound es
      → find ops key_of f s args ≡ some d
      → (deref ops key_of f (access ops key_of f s args) d).0 ≡ ok v
      → ops.lookup
          (run ops key_of f (deref ops key_of f (access ops key_of f s args) d).1 es).cache
          (key_of args')
        ≡ some d
      → (c : C) × (call_memoized ops key_of f
            (suc fuel)
            (run ops key_of f (deref ops key_of f (access ops key_of f s args) d).1 es)
            args'
          ≡ some (
            ok v,
            record (run ops key_of f (deref ops key_of f (access ops key_of f s args) d).1 es) {
              cache = c;
            },
          ))
  called_once s args args' d v es fuel right allowed found first cached =
      let t = access ops key_of f s args in
      let u = (deref ops key_of f t d).1 in
      let accessed = access-Safe ops laws key_of f g sound s args right in
      let derefed = deref-Safe ops laws key_of f g sound t d accessed.0 in
      let later = run-Safe ops laws key_of f g sound u es derefed.0 allowed in
      let done = IsDone-Keeps u (run ops key_of f u es) d v later.1 (deref-IsDone t d v first) in
      (_, call_done fuel (run ops key_of f u es) args' d v cached done)
