-- ===== src/Channel/Puts.antt =====
-- What a put does to an open channel of src/basilisp/concurrent_channel.py, and the bound that the
-- buffer keeps.
use mathlib.Core.List.{append-nil}
use baisilisp.Base.{
  ℕ, zero, suc, ◌-◌, ◌≤◌, ◌≡◌, refl, sym, ap, ◌∙◌, Bool, true, false, List, [], ◌∷◌, ◌++◌, keep,
  length, ◌==◌, ltb, leb, take, drop, Bool-cases, inl, inr, update, arith, length-append,
  if◌then◌else◌,
}
use baisilisp.Channel.Waiters.{Answer, item, Cells, Waiter, active, is_waiting, answer_of, resolve}
use baisilisp.Channel.Ops.{
  fixed, unsupported, World, discard_inactive, hand_over, store_value, put_value, Try, done,
  not_ready, slide, sliding, dropping, Policy,
}
use baisilisp.Channel.Queue.{offered, offered-live, contents, takers, live}

keep-active {ℓ} :
    {A : Type ℓ} (p : A → Bool) (xs : List A) (y : A) (ys : List A)
    → keep p xs ≡ y ∷ ys
    → p y ≡ true
keep-active p [] y ys h = cc
keep-active p (x ∷ xs) y ys h = ground (arith, keep-active p xs y ys)

module _ {V : Type 0} where
  hand_over_none :
      (v : V) (takes : List Waiter) (cells : Cells V)
      → keep (active cells) takes ≡ []
      → hand_over v takes cells ≡ (false, [], cells)
  unfolding hand_over resolve
  hand_over_none v [] cells h = refl
  hand_over_none v (t ∷ takes) cells h = ground (arith, hand_over_none v takes cells)

  -- The first taker that still waits gets the value.
  hand_over_first :
      (v : V) (t : Waiter) (rest : List Waiter) (cells : Cells V)
      → active cells t ≡ true
      → hand_over v (t ∷ rest) cells ≡ (true, rest, update cells t.future (answer_of t (item v)))
  unfolding hand_over resolve
  hand_over_first v t rest cells h = rw h

  -- An answer on a future never makes an offer of what was not one.
  offered-update_none :
      (cells : Cells V) (w : Waiter) (a : Answer V) (puts : List (V × Waiter))
      → offered cells puts ≡ []
      → offered (update cells w.future (answer_of w a)) puts ≡ []
  unfolding offered active is_waiting answer_of
  offered-update_none cells w a [] h = refl
  offered-update_none cells w a ((v, p) ∷ puts) h =
      ground (arith, offered-update_none cells w a puts)

module _ {V : Type 0} (v : V) where
  -- What a put without a taker makes of the offered values `q`: of these and the new value a sliding
  -- buffer keeps the last ones that fit, a dropping one the first; any other takes the new value if
  -- all fit, and else the put has to wait, as it does on a channel without a buffer.
  pub put_spec : Policy → ℕ → List V → Try Bool × List V
  put_spec policy zero q = (not_ready, q)
  put_spec sliding capacity q = (done true, drop (suc (length q) - capacity) (q ++ v ∷ []))
  put_spec dropping capacity q = (done true, take capacity (q ++ v ∷ []))
  put_spec policy capacity q =
      if leb (suc (length q)) capacity then (done true, q ++ v ∷ []) else (not_ready, q)

  slide-drop : (n : ℕ) (q : List V) → length q ≡ suc n → slide q v ≡ drop 1 (q ++ v ∷ [])
  unfolding slide
  slide-drop n [] h = absurd (omega (arith, h))
  slide-drop n (x ∷ q) h = refl

  kept_last :
      (n : ℕ) (q : List V)
      → length q ≤ suc n
      → (if ltb (length q) (suc n) then q ++ v ∷ [] else slide q v)
        ≡ drop (suc (length q) - suc n) (q ++ v ∷ [])
  kept_last n q h = elim (Bool-cases (ltb (length q) (suc n))) [
    | inl l ↦
        let none_lost : suc (length q) - suc n ≡ 0 = ground (arith, l) in
        ground (arith, none_lost, l)
    | inr l ↦
        let one_lost : suc (length q) - suc n ≡ 1 = ground (arith, h, l) in
        let full : length q ≡ suc n = ground (arith, h, l) in
        ground (arith, one_lost, l, slide-drop n q full)
  ]

  take-nil : (n : ℕ) → take {A = V} n [] ≡ []
  take-nil zero = refl
  take-nil (suc n) = refl

  kept_first :
      (n : ℕ) (q : List V)
      → length q ≤ n
      → (if ltb (length q) n then q ++ v ∷ [] else q) ≡ take n (q ++ v ∷ [])
  kept_first zero [] h = refl
  kept_first (suc n) [] h = ground (arith, take-nil n)
  kept_first zero (x ∷ q) h = absurd (omega (arith, h))
  kept_first (suc n) (x ∷ q) h =
      let rest = kept_first n q (omega (arith, h)) in ground (arith, rest)

  -- what `store_value` says and stores
  abbrev stored : Policy → ℕ → List V → Try Bool × List V
  stored policy capacity q =
      if capacity == 0
      then (not_ready, q)
      else if ltb (length q) capacity
      then (done true, q ++ v ∷ [])
      else elim policy [
        | sliding ↦ (done true, slide q v)
        | dropping ↦ (done true, q)
        | _ ↦ (not_ready, q)
      ]

  stored-put_spec :
      (policy : Policy) (capacity : ℕ) (q : List V)
      → length q ≤ capacity
      → stored policy capacity q ≡ put_spec policy capacity q
  unfolding put_spec
  stored-put_spec fixed zero q h = refl
  stored-put_spec sliding zero q h = refl
  stored-put_spec dropping zero q h = refl
  stored-put_spec unsupported zero q h = refl
  stored-put_spec fixed (suc n) q h = ground arith
  stored-put_spec sliding (suc n) q h = ground (arith, kept_last n q h)
  stored-put_spec dropping (suc n) q h = ground (arith, kept_first (suc n) q h)
  stored-put_spec unsupported (suc n) q h = ground arith

  store_value-stored :
      (w : World V)
      → offered w.cells w.channel.puts ≡ []
      → ((store_value v w).0, contents (store_value v w).1)
        ≡ stored w.channel.policy w.channel.capacity w.channel.buffer
  unfolding store_value
  store_value-stored w h = ground (
    arith,
    h,
    append-nil w.channel.buffer,
    append-nil (w.channel.buffer ++ v ∷ []),
    append-nil (slide w.channel.buffer v),
  )

module _ {V : Type 0} (v : V) (w : World V) where
  -- With a taker that still waits and nothing offered, a put hands its value to the first such
  -- taker, and nothing is offered afterwards.
  pub put-wakes :
      (t : Waiter) (rest : List Waiter)
      → contents w ≡ []
      → takers w ≡ t ∷ rest
      → ((put_value v w).0 ≡ done true)
        × (contents (put_value v w).1 ≡ [])
        × ((put_value v w).1.cells t.future ≡ answer_of t (item v))
  unfolding put_value discard_inactive
  put-wakes t rest h e =
      let first : active w.cells t ≡ true = keep-active (active w.cells) w.channel.takes t rest e in
      let handed = hand_over_first v t rest w.cells first in
      let b : w.channel.buffer ≡ [] = ground arith in
      let quiet : offered w.cells (live w.cells w.channel.puts) ≡ [] =
        offered-live w.cells w.channel.puts ∙ ground arith in
      rw (e, handed, b)
        (
          refl,
          offered-update_none w.cells t (item v) (live w.cells w.channel.puts) quiet,
          ground arith,
        )

  -- With no taker waiting, no put waiting and a buffer not above its capacity, a put is that of the
  -- queue of offered values.
  pub put-behind :
      offered w.cells w.channel.puts ≡ []
      → takers w ≡ []
      → length w.channel.buffer ≤ w.channel.capacity
      → ((put_value v w).0, contents (put_value v w).1)
        ≡ put_spec v w.channel.policy w.channel.capacity (contents w)
  unfolding put_value discard_inactive
  put-behind h e fits =
      let quiet : World V = record {
        channel = record (w.channel) { puts = live w.cells w.channel.puts; takes = [] };
        cells = w.cells;
      } in
      rw (e, hand_over_none)
        (store_value-stored v quiet (offered-live w.cells w.channel.puts ∙ h)
          ∙ stored-put_spec v w.channel.policy w.channel.capacity w.channel.buffer fits
          ∙ ap (put_spec v w.channel.policy w.channel.capacity)
              (sym (ap (◌++◌ w.channel.buffer) h ∙ append-nil w.channel.buffer)))

  -- If the buffer of an open channel is not above its capacity, a put leaves it so, whoever waits.
  pub put-bounded :
      length w.channel.buffer ≤ w.channel.capacity
      → length (put_value v w).1.channel.buffer ≤ (put_value v w).1.channel.capacity
  unfolding put_value store_value discard_inactive slide
  put-bounded h = ground (arith, length-append {0} w.channel.buffer (v ∷ []))
