-- ===== src/Channel/Ops.antt =====
-- `Channel` of src/basilisp/concurrent_channel.py. A method takes the channel with the cells of all
-- futures and returns both; one that raises leaves what it had changed before.
use baisilisp.Base.{
  ℕ, Bool, true, false, Option, none, some, List, [], ◌∷◌, ◌++◌, keep, length, ltb, ◌==◌,
  if◌then◌else◌,
}
use baisilisp.Base.Int.{ℤ, pos, negsuc}
use baisilisp.Channel.Waiters.{item, nil, flag, Cells, Waiter, plain, active, resolve}

pub data Policy : Type 0 where
  fixed sliding dropping unsupported : Policy

pub data Error : Type 0 where
  negative_capacity bad_policy zero_capacity foreign_loop nil_value negative_delay no_ports : Error

pub record Channel (V : Type 0) : Type 0 where
  pub name : ℕ
  pub capacity : ℕ
  pub policy : Policy
  pub closed : Bool
  pub loop : Option ℕ
  pub buffer : List V
  pub puts : List (V × Waiter)
  pub takes : List Waiter

pub data Result {ℓ} (A : Type ℓ) : Type ℓ where
  ok : A → Result A
  raise : Error → Result A

-- A channel and the cells of the futures.
pub record World (V : Type 0) : Type 0 where
  pub channel : Channel V
  pub cells : Cells V

-- What `_try_put` and `_try_take` return: `done`, or the sentinel `_BLOCKED` or `_NOT_READY`.
pub data Try (A : Type 0) : Type 0 where
  done : A → Try A
  not_ready : Try A

module _ {V : Type 0} where
  -- `Channel.__init__`
  unfoldable pub make : ℕ → ℤ → Policy → Result (Channel V)
  make name (negsuc n) policy = raise negative_capacity
  make name (pos capacity) policy =
      let channel : Channel V = record {
        name = name;
        capacity = capacity;
        policy = policy;
        closed = false;
        loop = none;
        buffer = [];
        puts = [];
        takes = [];
      } in
      elim policy [
        | unsupported ↦ raise bad_policy
        | fixed ↦ ok channel
        | _ ↦ if capacity == 0 then raise zero_capacity else ok channel
      ]

  -- `_discard_inactive`
  unfoldable pub discard_inactive : World V → World V
  discard_inactive w = record w {
    channel = record (w.channel) {
      puts = keep (λ p. active w.cells p.1) w.channel.puts;
      takes = keep (active w.cells) w.channel.takes;
    };
  }

  -- `_bind_loop`, in the event loop `running`
  unfoldable pub bind_loop : ℕ → World V → Result (Unit {0}) × World V
  bind_loop running w = elim w.channel.loop [
    | none ↦ (ok tt, record w { channel = record (w.channel) { loop = some running } })
    | some l ↦ if l == running then (ok tt, w) else (raise foreign_loop, w)
  ]

  -- `while takes: if takes.popleft().resolve(value): return True`
  unfoldable pub hand_over : V → List Waiter → Cells V → Bool × List Waiter × Cells V
  hand_over v [] cells = (false, [], cells)
  hand_over v (t ∷ takes) cells =
      let rest = hand_over v takes cells in
      if (resolve t (item v) cells).0 then (true, takes, (resolve t (item v) cells).1) else rest

  -- the loop of `_fill_buffer`
  unfoldable pub fill :
      ℕ → List V → List (V × Waiter) → Cells V → List V × List (V × Waiter) × Cells V
  fill capacity buffer [] cells = (buffer, [], cells)
  fill capacity buffer ((v, p) ∷ puts) cells =
      if ltb (length buffer) capacity
      then (let (taken, cells') = resolve p (flag true) cells in
          fill capacity (if taken then buffer ++ v ∷ [] else buffer) puts cells')
      else (buffer, (v, p) ∷ puts, cells)

  unfoldable pub fill_buffer : World V → World V
  fill_buffer w =
      let w' = discard_inactive w in
      let c = w'.channel in
      let (buffer, puts, cells) = fill c.capacity c.buffer c.puts w'.cells in
      record { channel = record c { buffer = buffer; puts = puts }; cells = cells }

  -- the loop over the waiting puts in `_try_take`
  unfoldable pub take_from_puts :
      List (V × Waiter) → Cells V → Option V × List (V × Waiter) × Cells V
  take_from_puts [] cells = (none, [], cells)
  take_from_puts ((v, p) ∷ puts) cells =
      let rest = take_from_puts puts cells in
      if (resolve p (flag true) cells).0
      then (some v, puts, (resolve p (flag true) cells).1)
      else rest

  -- `buffer.popleft()` and `buffer.append(value)`
  unfoldable pub slide : List V → V → List V
  slide [] v = v ∷ []
  slide (x ∷ buffer) v = buffer ++ v ∷ []

  -- `_try_put` when no taker took the value
  unfoldable pub store_value : V → World V → Try Bool × World V
  store_value v w =
      let c = w.channel in
      if c.capacity == 0
      then (not_ready, w)
      else if ltb (length c.buffer) c.capacity
      then (done true, record w { channel = record c { buffer = c.buffer ++ v ∷ [] } })
      else elim c.policy [
        | sliding ↦ (done true, record w { channel = record c { buffer = slide c.buffer v } })
        | dropping ↦ (done true, w)
        | _ ↦ (not_ready, w)
      ]

  -- `_try_put` once the loop is bound, the value is valid and the channel is open
  unfoldable pub put_value : V → World V → Try Bool × World V
  put_value v w =
      let w' = discard_inactive w in
      let (taken, takes, cells) = hand_over v w'.channel.takes w'.cells in
      let w'' : World V = record {
        channel = record (w'.channel) { takes = takes };
        cells = cells;
      } in
      if taken then (done true, w'') else store_value v w''

  -- `_try_put`; `none` is the value `None`
  unfoldable pub try_put : ℕ → Option V → World V → Result (Try Bool) × World V
  try_put running value w =
      let (bound, w') = bind_loop running w in
      elim bound [
        | raise e ↦ (raise e, w')
        | ok _ ↦ elim value [
          | none ↦ (raise nil_value, w')
          | some v ↦
              if w'.channel.closed
              then (ok (done false), w')
              else (ok (put_value v w').0, (put_value v w').1)
        ]
      ]

  -- `_try_take` past the test of the buffer; `done none` is the `None` of a closed channel
  unfoldable pub take_waiting : World V → Try (Option V) × World V
  take_waiting w =
      let (found, puts, cells) = take_from_puts w.channel.puts w.cells in
      let w' : World V = record { channel = record (w.channel) { puts = puts }; cells = cells } in
      elim found [
        | some v ↦ (done (some v), w')
        | none ↦ (if w.channel.closed then done none else not_ready, w')
      ]

  -- `_try_take` once the loop is bound
  unfoldable pub take_value : World V → Try (Option V) × World V
  take_value w =
      let w' = discard_inactive w in
      elim w'.channel.buffer [
        | v ∷ buffer ↦ (
          done (some v),
          fill_buffer (record w' { channel = record (w'.channel) { buffer = buffer } }),
        )
        | [] ↦ take_waiting w'
      ]

  unfoldable pub try_take : ℕ → World V → Result (Try (Option V)) × World V
  try_take running w =
      let (bound, w') = bind_loop running w in
      elim bound [ raise e ↦ (raise e, w') | ok _ ↦ (ok (take_value w').0, (take_value w').1) ]

  -- `_enqueue_put` and `_enqueue_take`, and the same of `put` and `take`
  unfoldable pub enqueue_put : V → Waiter → World V → World V
  enqueue_put v p w = record w {
    channel = record (w.channel) { puts = w.channel.puts ++ (v, p) ∷ [] };
  }

  unfoldable pub enqueue_take : Waiter → World V → World V
  enqueue_take t w = record w { channel = record (w.channel) { takes = w.channel.takes ++ t ∷ [] } }

  -- `put` and `take` up to their `await`, with the number of the future that they create; when the
  -- future is set they go on with `discard_inactive`.
  unfoldable pub put : ℕ → ℕ → Option V → World V → Result (Try Bool) × World V
  put running future value w =
      let (answer, w') = try_put running value w in
      elim answer [
        | raise e ↦ (raise e, w')
        | ok (done b) ↦ (ok (done b), w')
        | ok not_ready ↦ elim value [
          | none ↦ (ok not_ready, w')
          | some v ↦ (
            ok not_ready,
            enqueue_put v (record { channel = w'.channel.name; kind = plain; future = future }) w',
          )
        ]
      ]

  unfoldable pub take : ℕ → ℕ → World V → Result (Try (Option V)) × World V
  take running future w =
      let (answer, w') = try_take running w in
      elim answer [
        | raise e ↦ (raise e, w')
        | ok (done v) ↦ (ok (done v), w')
        | ok not_ready ↦ (
          ok not_ready,
          enqueue_take (record { channel = w'.channel.name; kind = plain; future = future }) w',
        )
      ]

  unfoldable pub offer : ℕ → Option V → World V → Result Bool × World V
  offer running value w =
      let (answer, w') = try_put running value w in
      elim answer [
        | raise e ↦ (raise e, w')
        | ok (done b) ↦ (ok b, w')
        | ok not_ready ↦ (ok false, w')
      ]

  unfoldable pub poll : ℕ → World V → Result (Option V) × World V
  poll running w =
      let (answer, w') = try_take running w in
      elim answer [
        | raise e ↦ (raise e, w')
        | ok (done v) ↦ (ok v, w')
        | ok not_ready ↦ (ok none, w')
      ]

  -- the two loops of `close`
  unfoldable pub refuse_puts : List (V × Waiter) → Cells V → Cells V
  refuse_puts [] cells = cells
  refuse_puts (p ∷ puts) cells = refuse_puts puts (resolve p.1 (flag false) cells).1

  unfoldable pub end_takes : List Waiter → Cells V → Cells V
  end_takes [] cells = cells
  end_takes (t ∷ takes) cells = end_takes takes (resolve t nil cells).1

  unfoldable pub close_open : World V → World V
  close_open w =
      let w' = discard_inactive (record w { channel = record (w.channel) { closed = true } }) in
      let cells = refuse_puts w'.channel.puts w'.cells in
      let c = record (w'.channel) { puts = [] } in
      elim c.buffer [
        | [] ↦ record { channel = record c { takes = [] }; cells = end_takes c.takes cells }
        | _ ↦ record { channel = c; cells = cells }
      ]

  unfoldable pub close : ℕ → World V → Result (Unit {0}) × World V
  close running w =
      let (bound, w') = bind_loop running w in
      elim bound [
        | raise e ↦ (raise e, w')
        | ok _ ↦ (ok tt, if w'.channel.closed then w' else close_open w')
      ]
