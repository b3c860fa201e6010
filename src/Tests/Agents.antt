-- ===== src/Tests/Agents.antt =====
-- An agent that counts, goes on after a failure, and whose executor 1 refuses every action.
use baisilisp.Base.{
  ℕ, suc, ◌+◌, ◌≡◌, refl, false, Option, none, some, List, [], ◌∷◌, ◌++◌, map, ◌==◌, if◌then◌else◌,
  All,
}
use baisilisp.Agent.{
  Agent, Action, ran, dropped, Error, user, continue, ok, raise, submit, run_one, schedule_next,
  handle_failure, is_failed, apply_action, validate_state, call_handler, first_of, refusal, restart,
  resume,
}
use baisilisp.Agent.Order.{
  Turn, submits, runs, restarts, Keeps, take_turns, accepted, action_of, take_turns-in_order,
}
use baisilisp.Agent.State.{Inside, replay, take_turns-replay}

abbrev counter : Agent ℕ
counter = record {
  state = 0;
  queue = [];
  active = false;
  error = none;
  mode = continue;
  handler = none;
  validator = none;
  watches = λ old new. none;
}

abbrev refuses : Action ℕ → Option Error
refuses a = if a.executor == 1 then some (user 0) else none

abbrev increment : Action ℕ
increment = record { executor = 0; call = λ n. ok (suc n) }

abbrev refused : Action ℕ
refused = record { executor = 1; call = λ n. ok (n + 10) }

abbrev failing : Action ℕ
failing = record { executor = 0; call = λ n. raise (user 1) }

abbrev schedule : List (Turn ℕ)
schedule =
    submits refuses increment
    ∷ submits refuses refused
    ∷ submits refuses failing
    ∷ submits refuses increment
    ∷ runs refuses
    ∷ runs refuses
    ∷ runs refuses
    ∷ runs refuses
    ∷ restarts refuses none false
    ∷ []

run : take_turns schedule counter ≡ (
  record counter { state = 2 },
  ran increment ∷ dropped refused (user 0) ∷ ran failing ∷ ran increment ∷ [],
)
unfolding take_turns submit run_one schedule_next handle_failure is_failed apply_action
    validate_state call_handler first_of refusal restart resume
run = refl

schedule-Keeps : All Keeps schedule
schedule-Keeps = (tt, (tt, (tt, (tt, (tt, (tt, (tt, (tt, (refl, tt)))))))))

take_turns-in_order_example :
    map action_of (take_turns schedule counter).1 ++ (take_turns schedule counter).0.queue
    ≡ counter.queue ++ accepted schedule counter
take_turns-in_order_example = take_turns-in_order schedule counter schedule-Keeps

schedule-Inside : All Inside schedule
schedule-Inside = (tt, (tt, (tt, (tt, (tt, (tt, (tt, (tt, (refl, tt)))))))))

take_turns-replay_example :
    (take_turns schedule counter).0.state
    ≡ replay counter.validator counter.state (take_turns schedule counter).1
take_turns-replay_example = take_turns-replay schedule counter schedule-Inside
