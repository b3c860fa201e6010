-- ===== src/Channel/Waiters.antt =====
-- `_Selection` and `_Waiter` of src/basilisp/concurrent_channel.py. A future is a number, and the
-- cells say what became of each; an asyncio future is set once, and cancelling it sets it too.
use baisilisp.Base.{ℕ, Bool, true, false, update, if◌then◌else◌}

-- What an operation answers: a value that was taken, `None`, or the `bool` of a put.
pub data Answer (V : Type 0) : Type 0 where
  item : V → Answer V
  nil : Answer V
  flag : Bool → Answer V

-- A plain operation is told the answer, an `alts` also the channel that answered.
pub data Cell (V : Type 0) : Type 0 where
  waiting : Cell V
  answered : Answer V → Cell V
  selected : Answer V → ℕ → Cell V
  cancelled : Cell V

abbrev pub Cells : Type 0 → Type 0
Cells V = ℕ → Cell V

-- A waiter has a future of its own, or shares the one of its selection; `channel` is
-- `self._channel`.
pub data Kind : Type 0 where
  plain selection : Kind

pub record Waiter : Type 0 where
  pub channel : ℕ
  pub kind : Kind
  pub future : ℕ

module _ {V : Type 0} where
  -- `not future.done()`
  unfoldable pub is_waiting : Cell V → Bool
  is_waiting waiting = true
  is_waiting _ = false

  unfoldable pub active : Cells V → Waiter → Bool
  unfolding is_waiting
  active cells w = is_waiting (cells w.future)

  unfoldable pub answer_of : Waiter → Answer V → Cell V
  answer_of w a = elim w.kind [ plain ↦ answered a | selection ↦ selected a w.channel ]

  -- `resolve`: whether the waiter took the answer, and the cells after.
  unfoldable pub resolve : Waiter → Answer V → Cells V → Bool × Cells V
  unfolding active answer_of
  resolve w a cells =
      if active cells w then (true, update cells w.future (answer_of w a)) else (false, cells)
