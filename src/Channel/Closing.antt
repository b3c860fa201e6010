-- ===== src/Channel/Closing.antt =====
-- `close` of src/basilisp/concurrent_channel.py leaves nobody waiting.
use mathlib.Core.Path.{subst, sym}
use baisilisp.Base.{
  ℕ, ◌≡◌, refl, Bool, true, false, List, [], ◌∷◌, keep, arith, All, Bool-cases, inl, inr,
  List-cases, Option-cases, ◌∙◌,
}
use baisilisp.Channel.Waiters.{
  Answer, nil, flag, Cells, Waiter, active, is_waiting, answer_of, resolve,
}
use baisilisp.Channel.Ops.{
  World, ok, close, close_open, bind_loop, discard_inactive, refuse_puts, end_takes,
}

All-keep :
    {A : Type 0} (p : A → Bool) (P : A → Type 0) (xs : List A)
    → ((x : A) → p x ≡ false → P x)
    → All P (keep p xs)
    → All P xs
All-keep p P [] rest h = tt
All-keep p P (x ∷ xs) rest h = elim (Bool-cases (p x)) [
  | inl e ↦ let both : P x × All P (keep p xs) = rw e at h in (both.0, All-keep p P xs rest both.1)
  | inr e ↦ let tail : All P (keep p xs) = rw e at h in (rest x e, All-keep p P xs rest tail)
]

All-map :
    {A : Type 0} {P Q : A → Type 0} (xs : List A) → ((x : A) → P x → Q x) → All P xs → All Q xs
All-map [] f h = tt
All-map (x ∷ xs) f h = (f x h.0, All-map xs f h.1)

module _ {V : Type 0} where
  -- Whoever waited on the future has an answer, or gave up.
  abbrev pub Settled : Cells V → Waiter → Type 0
  Settled cells w = active cells w ≡ false

  resolve_settles : (w : Waiter) (a : Answer V) (cells : Cells V) → Settled (resolve w a cells).1 w
  unfolding resolve active is_waiting answer_of
  resolve_settles w a cells = ground arith

  resolve_keeps :
      (w q : Waiter) (a : Answer V) (cells : Cells V)
      → Settled cells q
      → Settled (resolve w a cells).1 q
  unfolding resolve active is_waiting answer_of
  resolve_keeps w q a cells h = ground arith

  refuse_puts_keeps :
      (puts : List (V × Waiter)) (q : Waiter) (cells : Cells V)
      → Settled cells q
      → Settled (refuse_puts puts cells) q
  unfolding refuse_puts
  refuse_puts_keeps [] q cells h = h
  refuse_puts_keeps (p ∷ puts) q cells h =
      refuse_puts_keeps puts q _ (resolve_keeps p.1 q (flag false) cells h)

  refuse_puts_settles :
      (puts : List (V × Waiter)) (cells : Cells V)
      → All (λ (p : V × Waiter). Settled (refuse_puts puts cells) p.1) puts
  unfolding refuse_puts
  refuse_puts_settles [] cells = tt
  refuse_puts_settles (p ∷ puts) cells = (
    refuse_puts_keeps puts p.1 _ (resolve_settles p.1 (flag false) cells),
    refuse_puts_settles puts _,
  )

  end_takes_keeps :
      (takes : List Waiter) (q : Waiter) (cells : Cells V)
      → Settled cells q
      → Settled (end_takes takes cells) q
  unfolding end_takes
  end_takes_keeps [] q cells h = h
  end_takes_keeps (t ∷ takes) q cells h = end_takes_keeps takes q _ (resolve_keeps t q nil cells h)

  end_takes_settles :
      (takes : List Waiter) (cells : Cells V) → All (Settled (end_takes takes cells)) takes
  unfolding end_takes
  end_takes_settles [] cells = tt
  end_takes_settles (t ∷ takes) cells =
      (end_takes_keeps takes t _ (resolve_settles t nil cells), end_takes_settles takes _)

module _ {V : Type 0} (w : World V) where
  abbrev puts_left : List (V × Waiter)
  puts_left = keep (λ (p : V × Waiter). active w.cells p.1) w.channel.puts

  puts_settle :
      (cells : Cells V)
      → ((q : Waiter) → Settled (refuse_puts puts_left w.cells) q → Settled cells q)
      → All (λ (p : V × Waiter). Settled cells p.1) w.channel.puts
  puts_settle cells later =
      All-keep (λ (p : V × Waiter). active w.cells p.1) (λ (p : V × Waiter). Settled cells p.1)
        w.channel.puts (λ p h. later p.1 (refuse_puts_keeps puts_left p.1 w.cells h))
        (All-map puts_left (λ p h. later p.1 h) (refuse_puts_settles puts_left w.cells))

  close_open_puts :
      All (λ (p : V × Waiter). Settled (close_open w).cells p.1) w.channel.puts
      × ((close_open w).channel.closed ≡ true)
      × ((close_open w).channel.puts ≡ [])
      × ((close_open w).channel.buffer ≡ w.channel.buffer)
  unfolding close_open discard_inactive
  close_open_puts = elim (List-cases w.channel.buffer) [
    | inl e ↦ rw e (
      puts_settle _ (λ q h. end_takes_keeps (keep (active w.cells) w.channel.takes) q _ h),
      refl,
      refl,
      refl,
    )
    | inr (v, buffer, e) ↦ rw e (puts_settle _ (λ q h. h), refl, refl, refl)
  ]

  close_open_takes :
      w.channel.buffer ≡ []
      → All (Settled (close_open w).cells) w.channel.takes × ((close_open w).channel.takes ≡ [])
  unfolding close_open discard_inactive
  close_open_takes e =
      let takes = keep (active w.cells) w.channel.takes in
      let cells = refuse_puts puts_left w.cells in
      rw e (
        All-keep (active w.cells) (Settled (end_takes takes cells)) w.channel.takes
            (λ t h. end_takes_keeps takes t cells (refuse_puts_keeps puts_left t w.cells h))
            (end_takes_settles takes cells),
        refl,
      )

module _ {V : Type 0} (running : ℕ) (w : World V) where
  bound : World V
  bound = (bind_loop running w).1

  closing :
      (bind_loop running w).0 ≡ ok tt
      → w.channel.closed ≡ false
      → (close running w).1 ≡ close_open bound
  unfolding close bind_loop bound
  closing ours open_before = elim (Option-cases w.channel.loop) [
    | inl e ↦ ground (arith, e)
    | inr (l, e) ↦ ground (arith, e)
  ]

  bound_same :
      (bound.channel.puts ≡ w.channel.puts)
      × (bound.channel.takes ≡ w.channel.takes)
      × (bound.channel.buffer ≡ w.channel.buffer)
  unfolding bound bind_loop
  bound_same = elim (Option-cases w.channel.loop) [
    | inl e ↦ ground (arith, e)
    | inr (l, e) ↦ ground (arith, e)
  ]

  -- Closing an open channel from its event loop marks it closed, leaves nobody waiting with a put,
  -- and keeps the values of the buffer for later takes.
  pub close-refuses_puts :
      (bind_loop running w).0 ≡ ok tt
      → w.channel.closed ≡ false
      → All (λ (p : V × Waiter). Settled (close running w).1.cells p.1) w.channel.puts
        × ((close running w).1.channel.closed ≡ true)
        × ((close running w).1.channel.puts ≡ [])
        × ((close running w).1.channel.buffer ≡ w.channel.buffer)
  close-refuses_puts ours open_before =
      let same = sym (closing ours open_before) in
      let (settled, shut, none_left, kept) = close_open_puts bound in
      (
        subst (λ ps. All (λ (p : V × Waiter). Settled (close running w).1.cells p.1) ps)
            bound_same.0
            (subst
              (λ (out : World V).
                All (λ (p : V × Waiter). Settled out.cells p.1) bound.channel.puts)
              same settled),
        subst (λ (out : World V). out.channel.closed ≡ true) same shut,
        subst (λ (out : World V). out.channel.puts ≡ []) same none_left,
        subst (λ (out : World V). out.channel.buffer ≡ w.channel.buffer) same (kept ∙ bound_same.2),
      )

  -- Closing an open channel whose buffer is empty leaves nobody waiting with a take.
  pub close-ends_takes :
      (bind_loop running w).0 ≡ ok tt
      → w.channel.closed ≡ false
      → w.channel.buffer ≡ []
      → All (Settled (close running w).1.cells) w.channel.takes
        × ((close running w).1.channel.takes ≡ [])
  close-ends_takes ours open_before e =
      let same = sym (closing ours open_before) in
      let (settled, none_left) = close_open_takes bound (bound_same.2 ∙ e) in
      (
        subst (λ ts. All (Settled (close running w).1.cells) ts) bound_same.1
            (subst (λ (out : World V). All (Settled out.cells) bound.channel.takes) same settled),
        subst (λ (out : World V). out.channel.takes ≡ []) same none_left,
      )
