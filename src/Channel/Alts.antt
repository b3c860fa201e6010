-- ===== src/Channel/Alts.antt =====
-- `alts` and `TimeoutChannel` of src/basilisp/concurrent_channel.py, over all channels. The ports
-- come in the order in which they are tried: as given, or as `random.shuffle` left them.
use baisilisp.Base.{ℕ, Bool, true, false, Option, none, some, List, [], ◌∷◌, update, if◌then◌else◌}
use baisilisp.Base.Int.{ℤ, pos, negsuc}
use baisilisp.Channel.Waiters.{Answer, item, nil, flag, Cells, selection}
use baisilisp.Channel.Ops.{
  Channel, Result, ok, raise, World, Try, done, not_ready, nil_value, no_ports, negative_delay,
  fixed, make, try_put, try_take, enqueue_put, enqueue_take, discard_inactive,
}

-- A take from a channel, or a put to one; `none` is the value `None`.
pub data Port (V : Type 0) : Type 0 where
  takes_from : ℕ → Port V
  puts_to : ℕ → Option V → Port V

pub record System (V : Type 0) : Type 0 where
  pub channels : ℕ → Channel V
  pub cells : Cells V

-- The answer and the port, the default, or the number of the selection that is awaited.
pub data Choice (V : Type 0) : Type 0 where
  chosen : Answer V → ℕ → Choice V
  default : Choice V
  awaits : ℕ → Choice V

module _ {V : Type 0} where
  unfoldable pub world : System V → ℕ → World V
  world s c = record { channel = s.channels c; cells = s.cells }

  unfoldable pub store : ℕ → World V → System V → System V
  store c w s = record { channels = update s.channels c w.channel; cells = w.cells }

  unfoldable pub channel_of : Port V → ℕ
  channel_of (takes_from c) = c
  channel_of (puts_to c v) = c

  -- `_parse_port` on each port: a put of `None` is refused before anything is tried.
  unfoldable pub parse_ports : List (Port V) → Result (Unit {0})
  parse_ports [] = ok tt
  parse_ports (takes_from c ∷ ports) = parse_ports ports
  parse_ports (puts_to c none ∷ ports) = raise nil_value
  parse_ports (puts_to c (some v) ∷ ports) = parse_ports ports

  unfoldable pub answer : Option V → Answer V
  answer none = nil
  answer (some v) = item v

  -- One turn of the loop over the ports.
  unfoldable pub try_port : ℕ → Port V → System V → Result (Try (Answer V)) × System V
  try_port running (takes_from c) s =
      let (r, w) = try_take running (world s c) in
      (
        elim r [
          | raise e ↦ raise e
          | ok (done v) ↦ ok (done (answer v))
          | ok not_ready ↦ ok not_ready
        ],
        store c w s,
      )
  try_port running (puts_to c v) s =
      let (r, w) = try_put running v (world s c) in
      (
        elim r [
          | raise e ↦ raise e
          | ok (done b) ↦ ok (done (flag b))
          | ok not_ready ↦ ok not_ready
        ],
        store c w s,
      )

  -- The loop: the first port that is ready, or `none`.
  unfoldable pub try_ports :
      ℕ → List (Port V) → System V → Result (Option (Answer V × ℕ)) × System V
  try_ports running [] s = (ok none, s)
  try_ports running (p ∷ ports) s =
      let (r, s') = try_port running p s in
      let rest = try_ports running ports s' in
      elim r [
        | raise e ↦ (raise e, s')
        | ok (done a) ↦ (ok (some (a, channel_of p)), s')
        | ok not_ready ↦ rest
      ]

  -- The loop that enqueues a branch of the selection on each channel.
  unfoldable pub enqueue : ℕ → Port V → System V → System V
  enqueue future (takes_from c) s =
      store c (enqueue_take (record { channel = c; kind = selection; future = future }) (world s c))
        s
  enqueue future (puts_to c none) s = s
  enqueue future (puts_to c (some v)) s =
      store c
        (enqueue_put v (record { channel = c; kind = selection; future = future }) (world s c)) s

  unfoldable pub enqueue_all : ℕ → List (Port V) → System V → System V
  enqueue_all future [] s = s
  enqueue_all future (p ∷ ports) s = enqueue_all future ports (enqueue future p s)

  -- `alts` up to its `await`, with the number of the future that its selection creates.
  unfoldable pub alts : ℕ → ℕ → List (Port V) → Bool → System V → Result (Choice V) × System V
  alts running future ports has_default s =
      let (tried, s') = try_ports running ports s in
      elim (parse_ports ports) [
        | raise e ↦ (raise e, s)
        | ok _ ↦
            if (elim ports [ [] ↦ if has_default then false else true | _ ↦ false ])
            then (raise no_ports, s)
            else elim tried [
              | raise e ↦ (raise e, s')
              | ok (some (a, c)) ↦ (ok (chosen a c), s')
              | ok none ↦
                  if has_default
                  then (ok default, s')
                  else (ok (awaits future), enqueue_all future ports s')
            ]
      ]

  -- the `finally` of `alts`
  unfoldable pub discard_all : List (Port V) → System V → System V
  discard_all [] s = s
  discard_all (p ∷ ports) s =
      discard_all ports (store (channel_of p) (discard_inactive (world s (channel_of p))) s)

  -- `TimeoutChannel.__init__`; the timer of the loop closes the channel later, by `close`.
  unfoldable pub make_timeout : ℕ → ℕ → ℤ → Result (Channel V)
  make_timeout running name (negsuc d) = raise negative_delay
  make_timeout running name (pos d) = elim (make name (pos 0) fixed) [
    | raise e ↦ raise e
    | ok c ↦ ok (record c { loop = some running })
  ]
