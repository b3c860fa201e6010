-- ===== src/Agent/State.antt =====
-- The state of an agent of src/basilisp/lang/agent.py, as what its actions make of it.
use baisilisp.Base.{
  ◌≡◌, refl, sym, ap, ◌∙◌, Bool, true, Option, none, some, List, [], ◌∷◌, ◌++◌, arith, Option-cases,
  List-cases, inl, inr, is_some, if◌then◌else◌, All,
}
use baisilisp.Agent.{
  Agent, Action, Event, ran, dropped, Refuses, Outcome, Error, ok, raise, handle_failure,
  schedule_next, submit, resume, restart, apply_action, run_one, handle_pre_start_failure,
  clear_error, validate_state, call_handler,
}
use baisilisp.Agent.Order.{
  Turn, submits, restarts, clears, sets_mode, runs, fails_to_start, take_turn, take_turns,
  Result-cases,
}

module _ {V : Type 0} where
  -- An action that raises, or whose value the validator refuses, leaves the state as it is.
  unfoldable pub applied : Option (V → Option Bool) → V → Action V → V
  applied vf s a = elim (a.call s) [
    | raise e ↦ s
    | ok v ↦ elim (validate_state vf v) [ raise e ↦ s | ok w ↦ w ]
  ]

  -- The actions that ran, applied in the order of the events.
  unfoldable pub replay : Option (V → Option Bool) → V → List (Event V) → V
  replay vf s [] = s
  replay vf s (ran a ∷ events) = replay vf (applied vf s a) events
  replay vf s (dropped a e ∷ events) = replay vf s events

  replay-append :
      (vf : Option (V → Option Bool)) (s : V) (xs ys : List (Event V))
      → replay vf s (xs ++ ys) ≡ replay vf (replay vf s xs) ys
  unfolding replay
  replay-append vf s [] ys = refl
  replay-append vf s (ran a ∷ xs) ys = replay-append vf (applied vf s a) xs ys
  replay-append vf s (dropped a e ∷ xs) ys = replay-append vf s xs ys

  -- An operation that runs no action.
  abbrev Quiet : Agent V → Outcome V → Type 0
  Quiet g out =
      (out.1.state ≡ g.state)
      × (out.1.validator ≡ g.validator)
      × ((s : V) → replay g.validator s out.2 ≡ s)

  handle_failure-Quiet :
      (refuses : Refuses V) (queue : List (Action V)) (e : Error) (g : Agent V)
      → Quiet g (handle_failure refuses queue e g)
  unfolding handle_failure replay
  handle_failure-Quiet refuses [] e g = (refl, refl, λ s. refl)
  handle_failure-Quiet refuses (a ∷ queue) e g = elim (Option-cases (refuses a)) [
    | inl r ↦ (ground (arith, r), ground (arith, r), λ s. ground (arith, r))
    | inr (x, r) ↦
        let kept = if is_some (call_handler g e) then some e else none in
        let (a1, a2, a3) =
          handle_failure-Quiet refuses queue x (record g { error = kept; active = true }) in
        (ground (arith, r, a1), ground (arith, r, a2), λ s. ground (arith, r, a3 s))
  ]

  schedule_next-Quiet :
      (refuses : Refuses V) (queue : List (Action V)) (g : Agent V)
      → Quiet g (schedule_next refuses queue g)
  unfolding schedule_next replay
  schedule_next-Quiet refuses [] g = (refl, refl, λ s. refl)
  schedule_next-Quiet refuses (a ∷ queue) g = elim (Option-cases (refuses a)) [
    | inl r ↦ (ground (arith, r), ground (arith, r), λ s. ground (arith, r))
    | inr (x, r) ↦
        let (a1, a2, a3) = handle_failure-Quiet refuses queue x (record g { active = true }) in
        (ground (arith, r, a1), ground (arith, r, a2), λ s. ground (arith, r, a3 s))
  ]

  -- What each turn does to the state.
  abbrev Replays : Agent V → Outcome V → Type 0
  Replays g out = (out.1.state ≡ replay g.validator g.state out.2) × (out.1.validator ≡ g.validator)

  submit-Replays :
      (refuses : Refuses V) (a : Action V) (g : Agent V) → Replays g (submit refuses a g)
  unfolding submit replay
  submit-Replays refuses a g =
      let (a1, a2, a3) = schedule_next-Quiet refuses (g.queue ++ a ∷ []) g in
      (ground (arith, a1, a3 g.state), ground (arith, a2))

  restart-Replays :
      (refuses : Refuses V) (clear_actions : Bool) (g : Agent V)
      → Replays g (restart refuses none clear_actions g)
  unfolding restart resume replay
  restart-Replays refuses clear_actions g =
      let queue = if clear_actions then [] else g.queue in
      let (a1, a2, a3) = schedule_next-Quiet refuses queue (record g { error = none }) in
      (ground (arith, a1, a3 g.state), ground (arith, a2))

  run_one-Replays : (refuses : Refuses V) (g : Agent V) → Replays g (run_one refuses g)
  unfolding run_one replay apply_action applied
  run_one-Replays refuses g = elim (List-cases g.queue) [
    | inl e ↦ (ground (arith, e), ground (arith, e))
    | inr (a, queue, e) ↦ elim (Result-cases (a.call g.state)) [
      | inr (x, f) ↦
          let (a1, a2, a3) = handle_failure-Quiet refuses queue x g in
          (ground (arith, e, f, a1, a3 g.state), ground (arith, e, f, a2))
      | inl (v, f) ↦ elim (Result-cases (validate_state g.validator v)) [
        | inr (x, h) ↦
            let (a1, a2, a3) = handle_failure-Quiet refuses queue x g in
            (ground (arith, e, f, h, a1, a3 g.state), ground (arith, e, f, h, a2))
        | inl (w, h) ↦
            let (a1, a2, a3) = schedule_next-Quiet refuses queue (record g { state = w }) in
            (ground (arith, e, f, h, a1, a3 w), ground (arith, e, f, h, a2))
      ]
    ]
  ]

  fail_to_start-Replays :
      (refuses : Refuses V) (x : Error) (g : Agent V)
      → Replays g (handle_pre_start_failure refuses x g)
  unfolding handle_pre_start_failure replay
  fail_to_start-Replays refuses x g = elim (List-cases g.queue) [
    | inl e ↦ (ground (arith, e), ground (arith, e))
    | inr (a, queue, e) ↦
        let (a1, a2, a3) = handle_failure-Quiet refuses queue x g in
        (ground (arith, e, a1, a3 g.state), ground (arith, e, a2))
  ]

  -- A turn that gives the agent no new state from outside.
  abbrev pub Inside : Turn V → Type 0
  Inside (restarts refuses state clear_actions) = state ≡ none
  Inside _ = Unit

  take_turn-Replays : (t : Turn V) (g : Agent V) → Inside t → Replays g (take_turn t g)
  unfolding replay clear_error
  take_turn-Replays (submits refuses a) g h = submit-Replays refuses a g
  take_turn-Replays (restarts refuses state clear_actions) g h =
      rw h (restart-Replays refuses clear_actions g)
  take_turn-Replays clears g h = (refl, refl)
  take_turn-Replays (sets_mode mode) g h = (refl, refl)
  take_turn-Replays (runs refuses) g h = run_one-Replays refuses g
  take_turn-Replays (fails_to_start refuses e) g h = fail_to_start-Replays refuses e g

  -- After any turns, none of which restarts the agent with a new state, the state is what the
  -- actions that ran make of the first one, each applied to what the one before it left, in the
  -- order of the events; an action that raised, or whose value the validator refused, changed
  -- nothing.
  pub take_turns-replay :
      (turns : List (Turn V)) (g : Agent V)
      → All Inside turns
      → (take_turns turns g).0.state ≡ replay g.validator g.state (take_turns turns g).1
  unfolding take_turns replay
  take_turns-replay [] g h = refl
  take_turns-replay (t ∷ turns) g h =
      let now = take_turn t g in
      let (state, same) = take_turn-Replays t g h.0 in
      let rest = take_turns turns now.1 in
      take_turns-replay turns now.1 h.1
      ∙ ap (λ vf. replay vf now.1.state rest.1) same
      ∙ ap (λ s. replay g.validator s rest.1) state
      ∙ sym (replay-append g.validator g.state now.2 rest.1)
