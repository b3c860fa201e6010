-- ===== src/Tests/Channels.antt =====
-- A channel with room for two values, on which a put or a take waits.
use baisilisp.Base.{ℕ, ◌≡◌, refl, true, false, some, [], ◌∷◌, ◌≤◌, length, arith}
use baisilisp.Channel.Waiters.{Cells, waiting, Waiter, plain, active, is_waiting, answer_of, item}
use baisilisp.Channel.Ops.{
  Channel, World, fixed, sliding, put_value, discard_inactive, hand_over, store_value, slide,
  take_value, done,
}
use baisilisp.Channel.Queue.{offered, contents, takers, take-oldest, Once, live}
use baisilisp.Channel.Puts.{put_spec, put-wakes, put-behind, put-bounded}

abbrev empty_channel : Channel ℕ
empty_channel = record {
  name = 0;
  capacity = 2;
  policy = fixed;
  closed = false;
  loop = some 0;
  buffer = [];
  puts = [];
  takes = [];
}

abbrev waiter : Waiter
waiter = record { channel = 0; kind = plain; future = 4 }

abbrev all_waiting : Cells ℕ
all_waiting f = waiting

-- nothing offered, nobody waits
abbrev idle : World ℕ
idle = record { channel = empty_channel; cells = all_waiting }

-- a take waits
abbrev wanting : World ℕ
wanting = record { channel = record empty_channel { takes = waiter ∷ [] }; cells = all_waiting }

-- full, and a put waits
abbrev crowded : World ℕ
crowded = record {
  channel = record empty_channel { buffer = 1 ∷ 2 ∷ []; puts = (3, waiter) ∷ [] };
  cells = all_waiting;
}

crowded-Once : Once (live crowded.cells crowded.channel.puts)
unfolding active is_waiting
crowded-Once = (tt, tt)

crowded-contents : contents crowded ≡ 1 ∷ 2 ∷ 3 ∷ []
unfolding offered active is_waiting
crowded-contents = refl

take-oldest_example :
    ((take_value crowded).0 ≡ done (some 1)) × (contents (take_value crowded).1 ≡ 2 ∷ 3 ∷ [])
take-oldest_example = take-oldest crowded 1 (2 ∷ 3 ∷ []) crowded-Once crowded-contents

idle-offered : offered idle.cells idle.channel.puts ≡ []
unfolding offered
idle-offered = refl

wanting-contents : contents wanting ≡ []
unfolding offered
wanting-contents = refl

wanting-takers : takers wanting ≡ waiter ∷ []
unfolding active is_waiting
wanting-takers = refl

put-wakes_example :
    ((put_value 5 wanting).0 ≡ done true)
    × (contents (put_value 5 wanting).1 ≡ [])
    × ((put_value 5 wanting).1.cells 4 ≡ answer_of waiter (item 5))
put-wakes_example = put-wakes 5 wanting waiter [] wanting-contents wanting-takers

-- a full sliding buffer
abbrev sliding_full : World ℕ
sliding_full = record {
  channel = record empty_channel { policy = sliding; buffer = 7 ∷ 8 ∷ [] };
  cells = all_waiting;
}

sliding_full-offered : offered sliding_full.cells sliding_full.channel.puts ≡ []
unfolding offered
sliding_full-offered = refl

sliding_full-fits : length sliding_full.channel.buffer ≤ sliding_full.channel.capacity
sliding_full-fits = omega arith

put-behind_example :
    ((put_value 5 sliding_full).0, contents (put_value 5 sliding_full).1)
    ≡ put_spec 5 sliding 2 (contents sliding_full)
put-behind_example = put-behind 5 sliding_full sliding_full-offered refl sliding_full-fits

sliding_full-contents : contents (put_value 5 sliding_full).1 ≡ 8 ∷ 5 ∷ []
unfolding offered put_value discard_inactive hand_over store_value slide
sliding_full-contents = refl

crowded-fits : length crowded.channel.buffer ≤ crowded.channel.capacity
crowded-fits = omega arith

put-bounded_example :
    length (put_value 5 crowded).1.channel.buffer ≤ (put_value 5 crowded).1.channel.capacity
put-bounded_example = put-bounded 5 crowded crowded-fits
