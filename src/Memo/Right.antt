-- ===== src/Memo/Right.antt =====
-- What a function memoized by src/basilisp/core_memoize.py returns while other threads use it.
use mathlib.Core.Path.{subst}
use baisilisp.Base.{
  ◌≡◌, ◌≢◌, ◌≤◌, refl, sym, ap, ◌∙◌, ◌⊎◌, inl, inr, ℕ, suc, true, Option, none, some, List, [], ◌∷◌,
  arith, Option-cases, Bool-cases, update, ℕ_discrete, is_some,
}
use baisilisp.Base.Dict.{Dict}
use baisilisp.Cache.Fifo.{Error, Result, ok, raise}
use baisilisp.Memo.{
  Delay, value_delay, retrying, DelayState, CacheOps, Memo, Seeded, derefable_seed, memoizer,
  settle, deref_cell, deref, add_delay, access, find, memo_clear, memo_reset, add_entry,
  snapshot_from, snapshot, Event, calls, derefs, clears, resets, takes_snapshot, step, run,
}

-- An item of a dict.
abbrev pub IsItem : {K D : Type 0} → K → D → Dict K D → Type 0
IsItem k d [] = ⊥
IsItem k d ((j, e) ∷ base) = ((j ≡ k) × (e ≡ d)) ⊎ IsItem k d base

-- What a memoized function relies on in a cache.
pub record CacheLaws {C K V : Type 0} (ops : CacheOps C K V) : Type 0 where
  pub has-lookup : (c : C) (k : K) → ops.has c k ≡ is_some (ops.lookup c k)
  pub lookup-hit : (c : C) (k j : K) → ops.lookup (ops.hit c k) j ≡ ops.lookup c j
  pub miss_found : (c : C) (k : K) (d : Delay V) → ops.lookup (ops.miss c k d) k ≡ some d
  pub lookup-miss :
      (c : C) (k j : K) (d e : Delay V)
      → ops.lookup (ops.miss c k d) j ≡ some e
      → ((j ≡ k) × (e ≡ d)) ⊎ (ops.lookup c j ≡ some e)
  pub lookup-evict :
      (c : C) (k j : K) (e : Delay V)
      → ops.lookup (ops.evict c k) j ≡ some e
      → ops.lookup c j ≡ some e
  pub lookup-seed :
      (c : C) (base : Dict K (Delay V)) (j : K) (e : Delay V)
      → ops.lookup (ops.seed c base) j ≡ some e
      → IsItem j e base

module _ {A : Type 0} where
  pub some_value : (a b : A) → some a ≡ some b → a ≡ b
  some_value a b e = cc

  is_some_value : (o : Option A) → is_some o ≡ true → (a : A) × (o ≡ some a)
  is_some_value none e = absurd (ground (arith, e))
  is_some_value (some a) e = (a, refl)

  pub not_some : (a : A) → none ≡ some a → ⊥
  not_some a e = cc

  pub raise_ok : (x : Error) (a : A) → raise x ≡ ok a → ⊥
  raise_ok x a e = cc

  pub ok_value : (a b : A) → ok a ≡ ok b → a ≡ b
  ok_value a b e = cc

  update_cases :
      (cells : ℕ → A) (i : ℕ) (a : A) (j : ℕ) (b : A)
      → update cells i a j ≡ b
      → ((i ≡ j) × (a ≡ b)) ⊎ ((i ≢ j) × (cells j ≡ b))
  update_cases cells i a j b e = ground (arith, e)

  pub update_at : (cells : ℕ → A) (i : ℕ) (a : A) → update cells i a i ≡ a
  update_at cells i a = ground arith

  update_ne : (cells : ℕ → A) (i : ℕ) (a : A) (j : ℕ) → i ≢ j → update cells i a j ≡ cells j
  update_ne cells i a j h = ground (arith, h)

module _ {C X K V : Type 0} (ops : CacheOps C K V) (laws : CacheLaws ops) (key_of : List X → K)
    (f : List (List X) → List X → Result V) (g : List X → V) where
  -- A value that is right for a key.
  abbrev pub IsValue : K → V → Type 0
  IsValue k v = (args : List X) → key_of args ≡ k → v ≡ g args

  -- The values of a seed are right.
  abbrev pub IsSeed : Dict K (Seeded V) → Type 0
  IsSeed base =
      (k : K) (d : Delay V)
      → IsItem k d (derefable_seed base)
      → (v : V) × (d ≡ value_delay v) × IsValue k v

  -- The cell of a delay that stands for a key.
  abbrev pub IsFor : Memo C X V → K → Delay V → Type 0
  IsFor s k (value_delay v) = IsValue k v
  IsFor s k (retrying i) =
      (cell : DelayState X V) × (s.cells i ≡ some cell) × (key_of cell.args ≡ k)

  pub record IsRight (s : Memo C X V) : Type 0 where
    pub cells_right :
        (i : ℕ) (cell : DelayState X V)
        → s.cells i ≡ some cell
        → (suc i ≤ s.next) × ((v : V) → cell.value ≡ some v → IsValue (key_of cell.args) v)
    pub cache_right : (k : K) (d : Delay V) → ops.lookup s.cache k ≡ some d → IsFor s k d

  -- Later states keep the arguments of the delays, and their values.
  abbrev pub Keeps : Memo C X V → Memo C X V → Type 0
  Keeps s s' =
      (i : ℕ) (cell : DelayState X V)
      → s.cells i ≡ some cell
      → (cell' : DelayState X V) × (s'.cells i ≡ some cell')
        × (cell'.args ≡ cell.args)
        × ((v : V) → cell.value ≡ some v → cell'.value ≡ some v)

  Keeps-refl : (s : Memo C X V) → Keeps s s
  Keeps-refl s i cell e = (cell, e, refl, λ v h. h)

  pub Keeps-trans : (s t u : Memo C X V) → Keeps s t → Keeps t u → Keeps s u
  Keeps-trans s t u p q i cell e =
      let (c', e', a', v') = p i cell e in
      let (c'', e'', a'', v'') = q i c' e' in (c'', e'', a'' ∙ a', λ v h. v'' v (v' v h))

  pub IsFor-Keeps : (s t : Memo C X V) (k : K) (d : Delay V) → Keeps s t → IsFor s k d → IsFor t k d
  IsFor-Keeps s t k (value_delay v) p h = h
  IsFor-Keeps s t k (retrying i) p (cell, e, a) =
      let (c', e', a', v') = p i cell e in (c', e', ap key_of a' ∙ a)

  -- What a step keeps.
  abbrev pub Safe : Memo C X V → Memo C X V → Type 0
  Safe s t = IsRight t × Keeps s t

  pub Safe-trans : (s t u : Memo C X V) → Safe s t → Safe t u → Safe s u
  Safe-trans s t u p q = (q.0, Keeps-trans s t u p.1 q.1)

  Safe-cache :
      (s : Memo C X V) (c : C)
      → IsRight s
      → ((k : K) (d : Delay V) → ops.lookup c k ≡ some d → IsFor s k d)
      → Safe s (record s { cache = c })
  Safe-cache s c right h =
      (record { cells_right = right.cells_right; cache_right = h }, Keeps-refl s)

  settled : Memo C X V → ℕ → DelayState X V → V → Memo C X V
  settled s i cell v = record s { cells = update s.cells i (some (record cell { value = some v })) }

  settled-Keeps :
      (s : Memo C X V) (i : ℕ) (cell : DelayState X V) (v : V)
      → s.cells i ≡ some cell
      → cell.value ≡ none
      → Keeps s (settled s i cell v)
  unfolding settled
  settled-Keeps s i cell v here undone j c e = elim (ℕ_discrete i j) [
    | yes p ↦
        let same : c ≡ cell = ground (arith, here, e, p) in
        let new = some (record cell { value = some v }) in
        (
          record cell { value = some v },
          ap (update s.cells i new) (sym p) ∙ update_at s.cells i new,
          ap (λ (c : DelayState X V). c.args) (sym same),
          λ w h.
              absurd
                (not_some w (sym undone ∙ ap (λ (c : DelayState X V). c.value) (sym same) ∙ h)),
        )
    | no p ↦ (c, update_ne s.cells i _ j p ∙ e, refl, λ w h. h)
  ]

  settled-IsRight :
      (s : Memo C X V) (i : ℕ) (cell : DelayState X V) (v : V)
      → IsRight s
      → s.cells i ≡ some cell
      → cell.value ≡ none
      → IsValue (key_of cell.args) v
      → IsRight (settled s i cell v)
  unfolding settled
  settled-IsRight s i cell v right here undone value = record {
    cells_right = λ j c e.
        elim (update_cases s.cells i (some (record cell { value = some v })) j (some c) e) [
          | inl (p, q) ↦
              let new : DelayState X V = record cell { value = some v } in
              let same : new ≡ c = some_value new c q in
              subst
                (λ (c : DelayState X V).
                  (suc j ≤ s.next) × ((w : V) → c.value ≡ some w → IsValue (key_of c.args) w))
                same
                (
                  subst (λ n. suc n ≤ s.next) p (right.cells_right i cell here).0,
                  λ w q'. subst (IsValue (key_of cell.args)) (some_value v w q') value,
                )
          | inr (p, q) ↦ right.cells_right j c q
        ];
    cache_right = λ k d e.
        IsFor-Keeps s (settled s i cell v) k d (settled-Keeps s i cell v here undone)
          (right.cache_right k d e);
  }

  module _
      (sound : (log : List (List X)) (args : List X) (v : V)
        → f log args ≡ ok v
        → IsValue (key_of args) v) where
    settle-Safe :
        (s : Memo C X V) (i : ℕ) (cell : DelayState X V) (r : Result V)
        → IsRight s
        → s.cells i ≡ some cell
        → cell.value ≡ none
        → ((v : V) → r ≡ ok v → IsValue (key_of cell.args) v)
        → Safe s (settle ops key_of f s i cell r).1
          × ((v : V) → (settle ops key_of f s i cell r).0 ≡ ok v → IsValue (key_of cell.args) v)
    unfolding settle settled
    settle-Safe s i cell (raise e) right here undone value = ((right, Keeps-refl s), value)
    settle-Safe s i cell (ok v) right here undone value = (
      (
        settled-IsRight s i cell v right here undone (value v refl),
        settled-Keeps s i cell v here undone,
      ),
      value,
    )

    logged : (s : Memo C X V) (log : List (List X)) → IsRight s → Safe s (record s { log = log })
    logged s log right =
        (record { cells_right = right.cells_right; cache_right = right.cache_right }, Keeps-refl s)

    -- A delay that stands for a key.
    deref_cell-Safe :
        (s : Memo C X V) (i : ℕ) (cell : DelayState X V)
        → IsRight s
        → s.cells i ≡ some cell
        → Safe s (deref_cell ops key_of f s i cell).1
          × ((v : V) → (deref_cell ops key_of f s i cell).0 ≡ ok v → IsValue (key_of cell.args) v)
    unfolding deref_cell settle
    deref_cell-Safe s i cell right here = elim (Option-cases cell.value) [
      | inl e ↦
          let s' : Memo C X V = record s { log = cell.args ∷ s.log } in
          rw (e, deref_cell)
            (settle-Safe s' i cell (f s.log cell.args) (logged s (cell.args ∷ s.log) right).0 here e
              (sound s.log cell.args))
      | inr (v, e) ↦
          let value = (right.cells_right i cell here).1 v e in
          rw (e, deref_cell)
            (
              (right, Keeps-refl s),
              λ w q. subst (IsValue (key_of cell.args)) (ok_value v w q) value,
            )
    ]

    pub deref_here :
        (s : Memo C X V) (i : ℕ) (cell : DelayState X V)
        → s.cells i ≡ some cell
        → deref ops key_of f s (retrying i) ≡ deref_cell ops key_of f s i cell
    unfolding deref
    deref_here s i cell e = rw (e, deref) refl

    pub deref-Safe : (s : Memo C X V) (d : Delay V) → IsRight s → Safe s (deref ops key_of f s d).1
    unfolding deref
    deref-Safe s (value_delay v) right = (right, Keeps-refl s)
    deref-Safe s (retrying i) right = elim (Option-cases (s.cells i)) [
      | inl e ↦ rw (e, deref) (right, Keeps-refl s)
      | inr (cell, e) ↦ rw (deref_here s i cell e) (deref_cell-Safe s i cell right e).0
    ]

    pub deref-value :
        (s : Memo C X V) (k : K) (d : Delay V)
        → IsRight s
        → IsFor s k d
        → (v : V) → (deref ops key_of f s d).0 ≡ ok v
        → IsValue k v
    unfolding deref
    deref-value s k (value_delay w) right h v e = subst (IsValue k) (ok_value w v e) h
    deref-value s k (retrying i) right (cell, here, key) v e =
        let e' = ap (λ (r : Result V × Memo C X V). r.0) (sym (deref_here s i cell here)) ∙ e in
        subst (λ k. IsValue k v) key ((deref_cell-Safe s i cell right here).1 v e')

    add_delay-Keeps :
        (s : Memo C X V) (args : List X)
        → IsRight s
        → Keeps s (add_delay ops key_of f s (key_of args) args)
    unfolding add_delay
    add_delay-Keeps s args right i cell e =
        let below = (right.cells_right i cell e).0 in
        (cell, update_ne s.cells s.next _ i (ground (arith, below)) ∙ e, refl, λ v h. h)

    -- The new delay of a miss.
    add_delay-Safe :
        (s : Memo C X V) (args : List X)
        → IsRight s
        → Safe s (add_delay ops key_of f s (key_of args) args)
    unfolding add_delay
    add_delay-Safe s args right =
        let new : DelayState X V = record { args = args; value = none } in
        (
          record {
            cells_right = λ i cell e.
                elim (update_cases s.cells s.next (some new) i (some cell) e) [
                  | inl (p, q) ↦
                      subst
                        (λ (c : DelayState X V).
                          (suc i ≤ suc s.next)
                          × ((w : V) → c.value ≡ some w → IsValue (key_of c.args) w))
                        (some_value new cell q) (omega (arith, p), λ w q'. absurd (not_some w q'))
                  | inr (p, q) ↦
                      let (below, value) = right.cells_right i cell q in
                      (omega (arith, below), value)
                ];
            cache_right = λ k d e.
                elim (laws.lookup-miss s.cache (key_of args) k (retrying s.next) d e) [
                  | inl (p, q) ↦
                      subst (IsFor (add_delay ops key_of f s (key_of args) args) k) (sym q)
                        (new, update_at s.cells s.next (some new), sym p)
                  | inr q ↦
                      IsFor-Keeps s (add_delay ops key_of f s (key_of args) args) k d
                        (add_delay-Keeps s args right) (right.cache_right k d q)
                ];
          },
          add_delay-Keeps s args right,
        )

    pub access-Safe :
        (s : Memo C X V) (args : List X) → IsRight s → Safe s (access ops key_of f s args)
    unfolding access
    access-Safe s args right = elim (Bool-cases (ops.has s.cache (key_of args))) [
      | inl e ↦
          rw (e, access)
            (Safe-cache s (ops.hit s.cache (key_of args)) right
              (λ k d h. right.cache_right k d (sym (laws.lookup-hit s.cache (key_of args) k) ∙ h)))
      | inr e ↦ rw (e, access) (add_delay-Safe s args right)
    ]

    clear-Safe :
        (s : Memo C X V) (key : Option K) → IsRight s → Safe s (memo_clear ops key_of f key s)
    unfolding memo_clear
    clear-Safe s none right =
        Safe-cache s (ops.seed s.cache []) right
          (λ k d h. absurd (laws.lookup-seed s.cache [] k d h))
    clear-Safe s (some key) right =
        Safe-cache s (ops.evict s.cache key) right
          (λ k d h. right.cache_right k d (laws.lookup-evict s.cache key k d h))

    reset-Safe :
        (s : Memo C X V) (base : Dict K (Seeded V))
        → IsRight s
        → IsSeed base
        → Safe s (memo_reset ops key_of f base s)
    unfolding memo_reset
    reset-Safe s base right seed =
        Safe-cache s (ops.seed s.cache (derefable_seed base)) right (λ k d h.
          let (v, e, value) = seed k d (laws.lookup-seed s.cache (derefable_seed base) k d h) in
          subst (IsFor s k) (sym e) value)

    add_entry-Safe :
        (s : Memo C X V) (k : K) (r : Result V) (t : Memo C X V)
        (rest : Result (Dict K V) × Memo C X V)
        → Safe s t
        → Safe s rest.1
        → Safe s (add_entry ops key_of f k r t rest).1
    add_entry-Safe s k (raise e) t rest p q = p
    add_entry-Safe s k (ok v) t (raise e, u) p q = q
    add_entry-Safe s k (ok v) t (ok found, u) p q = q

    snapshot_from-Safe :
        (s : Memo C X V) (items : Dict K (Delay V))
        → IsRight s
        → Safe s (snapshot_from ops key_of f s items).1
    unfolding snapshot_from
    snapshot_from-Safe s [] right = (right, Keeps-refl s)
    snapshot_from-Safe s ((k, d) ∷ items) right =
        let out = deref ops key_of f s d in
        let first = deref-Safe s d right in
        add_entry-Safe s k out.0 out.1 (snapshot_from ops key_of f out.1 items) first (
          Safe-trans s out.1 (snapshot_from ops key_of f out.1 items).1 first
            (snapshot_from-Safe out.1 items first.0))

    -- A seed of a reset is right.
    abbrev pub IsAllowed : Event ops key_of f → Type 0
    IsAllowed (resets base) = IsSeed base
    IsAllowed e = Unit

    abbrev pub AreAllowed : List (Event ops key_of f) → Type 0
    AreAllowed [] = Unit
    AreAllowed (e ∷ es) = IsAllowed e × AreAllowed es

    step-Safe :
        (s : Memo C X V) (e : Event ops key_of f)
        → IsRight s
        → IsAllowed e
        → Safe s (step ops key_of f s e)
    unfolding step snapshot
    step-Safe s (calls args) right a = access-Safe s args right
    step-Safe s (derefs d) right a = deref-Safe s d right
    step-Safe s (clears key) right a = clear-Safe s key right
    step-Safe s (resets base) right a = reset-Safe s base right a
    step-Safe s (takes_snapshot items_of) right a = snapshot_from-Safe s (items_of s.cache) right

    pub run-Safe :
        (s : Memo C X V) (es : List (Event ops key_of f))
        → IsRight s
        → AreAllowed es
        → Safe s (run ops key_of f s es)
    unfolding run
    run-Safe s [] right a = (right, Keeps-refl s)
    run-Safe s (e ∷ es) right (a, rest) =
        let t = step ops key_of f s e in
        let first = step-Safe s e right a in
        Safe-trans s t (run ops key_of f t es) first (run-Safe t es first.0 rest)

    -- A call finds a delay, whatever was done before with the cache.
    pub find_found :
        (s : Memo C X V) (args : List X) → (d : Delay V) × (find ops key_of f s args ≡ some d)
    unfolding find access add_delay
    find_found s args = elim (Bool-cases (ops.has s.cache (key_of args))) [
      | inl e ↦
          let some_there : is_some (ops.lookup s.cache (key_of args)) ≡ true =
            sym (laws.has-lookup s.cache (key_of args)) ∙ e in
          let (d, there) = is_some_value (ops.lookup s.cache (key_of args)) some_there in
          rw (e, find) (d, laws.lookup-hit s.cache (key_of args) (key_of args) ∙ there)
      | inr e ↦
          rw (e, find) (retrying s.next, laws.miss_found s.cache (key_of args) (retrying s.next))
    ]

    pub memoizer-IsRight :
        (c : C) (seed : Dict K (Seeded V)) → IsSeed seed → IsRight (memoizer ops key_of f c seed)
    unfolding memoizer
    memoizer-IsRight c seed h = record {
      cells_right = λ i cell e. absurd (not_some cell e);
      cache_right = λ k d e.
          let (v, e', value) = h k d (laws.lookup-seed c (derefable_seed seed) k d e) in
          subst (IsFor (memoizer ops key_of f c seed) k) (sym e') value;
    }

    -- A memoized function is what it memoizes: whatever else was done with it before a call, and
    -- whatever is done between the access of the call to the cache and the end of the delay that it found
    -- (calls, delays that end, evictions, resets and snapshots), the access finds a delay, and if
    -- the delay has a value it is the function's for the arguments. This holds if the cache
    -- keeps its laws, the function returns a value that depends only on the key, and seeds and
    -- resets give such values.
    pub memoized_right :
        (c : C) (seed : Dict K (Seeded V)) (before after : List (Event ops key_of f))
        (args : List X)
        → IsSeed seed
        → AreAllowed before
        → AreAllowed after
        → (d : Delay V) × (find ops key_of f
              (run ops key_of f (memoizer ops key_of f c seed) before)
              args
            ≡ some d)
          × ((v : V)
              → (deref ops key_of f
                  (run ops key_of f
                    (access ops key_of f
                      (run ops key_of f (memoizer ops key_of f c seed) before)
                      args)
                    after)
                  d).0
                ≡ ok v
              → v ≡ g args)
    unfolding find
    memoized_right c seed before after args h a b =
        let s0 = memoizer ops key_of f c seed in
        let s = run ops key_of f s0 before in
        let t = access ops key_of f s args in
        let u = run ops key_of f t after in
        let accessed = access-Safe s args (run-Safe s0 before (memoizer-IsRight c seed h) a).0 in
        let later = run-Safe t after accessed.0 b in
        let (d, e) = find_found s args in
        let stands =
          IsFor-Keeps t u (key_of args) d later.1 (accessed.0.cache_right (key_of args) d e) in
        (d, e, λ v q. deref-value u (key_of args) d later.0 stands v q args refl)
