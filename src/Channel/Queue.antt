-- ===== src/Channel/Queue.antt =====
-- A channel of src/basilisp/concurrent_channel.py as the queue of what is offered: the values of
-- the buffer, then those of the puts that still wait.
use mathlib.Core.List.{append_assoc}
use baisilisp.Base.{
  ℕ, ◌≤◌, ◌≡◌, refl, ap, ◌∙◌, Bool, true, false, none, some, List, [], ◌∷◌, ◌++◌, keep, length, ltb,
  update, arith, All, ◌≢◌, ◌⊎◌, Bool-cases, inl, inr, List-cases, length-append, if◌then◌else◌,
}
use baisilisp.Channel.Waiters.{Answer, flag, Cell, Cells, Waiter, active, answer_of, resolve}
use baisilisp.Channel.Ops.{
  World, discard_inactive, fill, fill_buffer, take_from_puts, take_waiting, take_value, done,
  not_ready,
}

keep-keep {ℓ} : {A : Type ℓ} (p : A → Bool) (xs : List A) → keep p (keep p xs) ≡ keep p xs
keep-keep p [] = refl
keep-keep p (x ∷ xs) = ground (arith, keep-keep p xs)

module _ {V : Type 0} where
  -- The values of the puts that still wait, and the takers that still wait.
  unfoldable pub offered : Cells V → List (V × Waiter) → List V
  offered cells [] = []
  offered cells ((v, p) ∷ puts) =
      let rest = offered cells puts in if active cells p then v ∷ rest else rest

  abbrev pub contents : World V → List V
  contents w = w.channel.buffer ++ offered w.cells w.channel.puts

  abbrev pub takers : World V → List Waiter
  takers w = keep (active w.cells) w.channel.takes

  -- No put in the list waits on the future, and no two wait on one.
  abbrev pub Apart : ℕ → List (V × Waiter) → Type 0
  Apart f = All (λ (q : V × Waiter). q.1.future ≢ f)

  abbrev pub Once : List (V × Waiter) → Type 0
  Once [] = Unit
  Once ((v, p) ∷ puts) = Apart p.future puts × Once puts

  abbrev pub live : Cells V → List (V × Waiter) → List (V × Waiter)
  live cells = keep (λ p. active cells p.1)

  pub offered-live :
      (cells : Cells V) (puts : List (V × Waiter))
      → offered cells (live cells puts) ≡ offered cells puts
  unfolding offered
  offered-live cells [] = refl
  offered-live cells (p ∷ puts) = ground (arith, offered-live cells puts)

  -- An answer that is set on a future changes nothing for puts on other futures.
  offered-update :
      (cells : Cells V) (f : ℕ) (c : Cell V) (puts : List (V × Waiter))
      → Apart f puts
      → offered (update cells f c) puts ≡ offered cells puts
  unfolding offered active
  offered-update cells f c [] h = refl
  offered-update cells f c ((v, p) ∷ puts) h =
      ground (arith, h.0, offered-update cells f c puts h.1)

  resolve_spent :
      (w : Waiter) (a : Answer V) (cells : Cells V)
      → active cells w ≡ false
      → resolve w a cells ≡ (false, cells)
  unfolding resolve
  resolve_spent w a cells h = rw h

  resolve-active :
      (w : Waiter) (a : Answer V) (cells : Cells V)
      → active cells w ≡ true
      → resolve w a cells ≡ (true, update cells w.future (answer_of w a))
  unfolding resolve
  resolve-active w a cells h = rw h

  -- Refilling the buffer moves what is offered and loses nothing.
  fill_contents :
      (capacity : ℕ) (buffer : List V) (puts : List (V × Waiter)) (cells : Cells V)
      → Once puts
      → (fill capacity buffer puts cells).0
          ++ offered (fill capacity buffer puts cells).2 (fill capacity buffer puts cells).1
        ≡ buffer ++ offered cells puts
  unfolding fill offered
  fill_contents capacity buffer [] cells h = refl
  fill_contents capacity buffer ((v, p) ∷ puts) cells h =
      elim (Bool-cases (ltb (length buffer) capacity)) [
        | inr full ↦ rw (full, fill)
        | inl room ↦ elim (Bool-cases (active cells p)) [
          | inr spent ↦
              rw (room, fill, resolve_spent p (flag true) cells spent, spent)
                (fill_contents capacity buffer puts cells h.1)
          | inl waits ↦
              rw (room, fill, resolve-active p (flag true) cells waits, waits)
                (fill_contents capacity (buffer ++ v ∷ []) puts _ h.1
                  ∙ append_assoc buffer (v ∷ []) _
                  ∙ ap (λ (vs : List V). buffer ++ v ∷ vs)
                      (offered-update cells p.future _ puts h.0))
        ]
      ]

  pub fill_bounds :
      (capacity : ℕ) (buffer : List V) (puts : List (V × Waiter)) (cells : Cells V)
      → length buffer ≤ capacity
      → (length (fill capacity buffer puts cells).0 ≤ capacity)
        × ((offered (fill capacity buffer puts cells).2 (fill capacity buffer puts cells).1 ≡ [])
            ⊎ (length (fill capacity buffer puts cells).0 ≡ capacity))
  unfolding fill offered
  fill_bounds capacity buffer [] cells h = (h, inl refl)
  fill_bounds capacity buffer ((v, p) ∷ puts) cells h =
      elim (Bool-cases (ltb (length buffer) capacity)) [
        | inr full ↦ rw (full, fill) (h, inr (ground arith))
        | inl room ↦ elim (Bool-cases (active cells p)) [
          | inr spent ↦
              rw (room, fill, resolve_spent p (flag true) cells spent)
                (fill_bounds capacity buffer puts cells h)
          | inl waits ↦
              rw (room, fill, resolve-active p (flag true) cells waits)
                (fill_bounds capacity (buffer ++ v ∷ []) puts _
                  (ground (arith, length-append {0} buffer (v ∷ []))))
        ]
      ]

  -- The first put that still waits is the one that a taker gets.
  take_from_puts-offered :
      (puts : List (V × Waiter)) (cells : Cells V) (v : V) (rest : List V)
      → Once puts
      → offered cells puts ≡ v ∷ rest
      → ((take_from_puts puts cells).0 ≡ some v)
        × (offered (take_from_puts puts cells).2 (take_from_puts puts cells).1 ≡ rest)
  unfolding take_from_puts offered
  take_from_puts-offered [] cells v rest once h = cc
  take_from_puts-offered ((u, p) ∷ puts) cells v rest once h = elim (Bool-cases (active cells p)) [
    | inr spent ↦
        rw (resolve_spent p (flag true) cells spent, take_from_puts)
          (take_from_puts-offered puts cells v rest once.1 (ground arith))
    | inl waits ↦
        rw (resolve-active p (flag true) cells waits, take_from_puts)
          (ground arith, offered-update cells p.future _ puts once.0 ∙ ground arith)
  ]

  take_from_puts-none :
      (puts : List (V × Waiter)) (cells : Cells V)
      → offered cells puts ≡ []
      → take_from_puts puts cells ≡ (none, [], cells)
  unfolding take_from_puts offered
  take_from_puts-none [] cells h = refl
  take_from_puts-none ((u, p) ∷ puts) cells h = elim (Bool-cases (active cells p)) [
    | inr spent ↦
        rw (resolve_spent p (flag true) cells spent, take_from_puts)
          (take_from_puts-none puts cells (ground arith))
    | inl waits ↦ ground arith
  ]

  -- Refilling, on a channel with waiting puts on futures of their own.
  contents-fill_buffer :
      (w : World V) → Once (live w.cells w.channel.puts) → contents (fill_buffer w) ≡ contents w
  unfolding fill_buffer discard_inactive
  contents-fill_buffer w once =
      fill_contents w.channel.capacity w.channel.buffer (live w.cells w.channel.puts) w.cells once
      ∙ ap (◌++◌ w.channel.buffer) (offered-live w.cells w.channel.puts)

  take_waiting_oldest :
      (w : World V) (v : V) (rest : List V)
      → w.channel.buffer ≡ []
      → Once w.channel.puts
      → offered w.cells w.channel.puts ≡ v ∷ rest
      → ((take_waiting w).0 ≡ done (some v)) × (contents (take_waiting w).1 ≡ rest)
  unfolding take_waiting
  take_waiting_oldest w v rest e once h =
      let (found, left) = take_from_puts-offered w.channel.puts w.cells v rest once h in
      ground (arith, found, left)

  take_waiting-none :
      (w : World V)
      → w.channel.buffer ≡ []
      → offered w.cells w.channel.puts ≡ []
      → ((take_waiting w).0 ≡ (if w.channel.closed then done none else not_ready))
        × (contents (take_waiting w).1 ≡ [])
  unfolding take_waiting offered
  take_waiting-none w e h =
      let none_found = take_from_puts-none w.channel.puts w.cells h in
      ground (arith, none_found, ap (λ out. out.0) none_found, ap (λ out. out.1) none_found)

module _ {V : Type 0} (w : World V) where
  -- A take gets the oldest value that is offered, buffered or waiting, and leaves the others in
  -- order, if no two puts wait on one future.
  pub take-oldest :
      (v : V) (rest : List V)
      → Once (live w.cells w.channel.puts)
      → contents w ≡ v ∷ rest
      → ((take_value w).0 ≡ done (some v)) × (contents (take_value w).1 ≡ rest)
  unfolding take_value discard_inactive
  take-oldest v rest once h = elim (List-cases w.channel.buffer) [
    | inl e ↦
        let (a, b) =
          take_waiting_oldest (discard_inactive w) v rest e once
            (offered-live w.cells w.channel.puts ∙ (rw e at h)) in
        rw (e, take_value) (a, b)
    | inr (x, xs, e) ↦
        let puts = live w.cells w.channel.puts in
        let popped : World V = record {
          channel = record (w.channel) {
            buffer = xs;
            puts = puts;
            takes = keep (active w.cells) w.channel.takes;
          };
          cells = w.cells;
        } in
        let head : x ∷ (xs ++ offered w.cells w.channel.puts) ≡ v ∷ rest = rw e at h in
        rw (e, take_value)
          (
            ground (arith, head),
            contents-fill_buffer popped (rw keep-keep once)
                ∙ ap (◌++◌ xs) (offered-live w.cells w.channel.puts)
                ∙ ground (arith, head),
          )
  ]

  -- With nothing offered, a take on an open channel has to wait, and on a closed one gets `None`.
  pub take_empty :
      contents w ≡ []
      → ((take_value w).0 ≡ (if w.channel.closed then done none else not_ready))
        × (contents (take_value w).1 ≡ [])
  unfolding take_value discard_inactive
  take_empty h = elim (List-cases w.channel.buffer) [
    | inl e ↦
        let (a, b) =
          take_waiting-none (discard_inactive w) e
            (offered-live w.cells w.channel.puts ∙ (rw e at h)) in
        rw (e, take_value) (a, b)
    | inr (x, xs, e) ↦ ground (arith, e, h)
  ]
