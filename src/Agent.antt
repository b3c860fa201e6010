-- ===== src/Agent.antt =====
-- `Agent` of src/basilisp/lang/agent.py. Each operation takes what the executors do: `refuses a` is
-- what `executor.submit` raises when it is handed the action `a` now, if it raises. An operation
-- returns what it raises, the agent after, and what became of the actions that left the queue. The
-- run of an action is one step, so an action sent meanwhile counts as sent before it.
pub mod Order
pub mod State
use baisilisp.Base.{
  ℕ, Bool, true, false, not, ◌&&◌, ◌||◌, Option, none, some, List, [], ◌∷◌, ◌++◌, is_some,
  if◌then◌else◌,
}

pub data Error : Type 0 where
  failed_agent running_action invalid_state bad_mode no_action : Error
  user : ℕ → Error

pub data Result {ℓ} (A : Type ℓ) : Type ℓ where
  ok : A → Result A
  raise : Error → Result A

pub data Mode : Type 0 where
  fail continue : Mode

-- An entry of the queue: the executor, and the function with its arguments.
pub record Action (V : Type 0) : Type 0 where
  pub executor : ℕ
  pub call : V → Result V

-- The handler and the watches, all watches together, say what they raise. A validator that raises
-- gives `none`.
pub record Agent (V : Type 0) : Type 0 where
  pub state : V
  pub queue : List (Action V)
  pub active : Bool
  pub error : Option Error
  pub mode : Mode
  pub handler : Option (Error → Option Error)
  pub validator : Option (V → Option Bool)
  pub watches : V → V → Option Error

-- What became of an action: it ran, or it left the queue since it could not start.
pub data Event (V : Type 0) : Type 0 where
  ran : Action V → Event V
  dropped : Action V → Error → Event V

abbrev pub Refuses : Type 0 → Type 0
Refuses V = Action V → Option Error

abbrev pub Outcome : Type 0 → Type 0
Outcome V = Option Error × Agent V × List (Event V)

-- `a` if it raised, else `b`
unfoldable pub first_of : Option Error → Option Error → Option Error
first_of none b = b
first_of (some e) b = some e

module _ {V : Type 0} where
  unfoldable pub validate_state : Option (V → Option Bool) → V → Result V
  validate_state none v = ok v
  validate_state (some vf) v = elim (vf v) [
    | none ↦ raise invalid_state
    | some b ↦ if b then ok v else raise invalid_state
  ]

  -- `Agent.__init__`; `none` is a mode that is neither of the two.
  unfoldable pub make_agent :
      V → Option (V → Option Bool) → Option Mode → Option (Error → Option Error) → Result (Agent V)
  make_agent state validator none handler = raise bad_mode
  make_agent state validator (some mode) handler = elim (validate_state validator state) [
    | raise e ↦ raise e
    | ok _ ↦ ok (record {
      state = state;
      queue = [];
      active = false;
      error = none;
      mode = mode;
      handler = handler;
      validator = validator;
      watches = λ old new. none;
    })
  ]

  unfoldable pub is_failed : Agent V → Bool
  is_failed g = is_some g.error && elim g.mode [ fail ↦ true | continue ↦ false ]

  unfoldable pub pending : Agent V → Bool
  unfolding is_failed
  pending g = g.active || not (is_failed g) && elim g.queue [ [] ↦ false | _ ∷ _ ↦ true ]

  -- the condition of `await_completion`
  unfoldable pub is_complete : Bool → Agent V → Bool
  unfolding is_failed
  is_complete wait_on_failure g =
      not g.active
      && (elim g.queue [ [] ↦ true | _ ∷ _ ↦ false ] || is_failed g)
      && (not wait_on_failure || not (is_failed g))

  unfoldable pub clear_error : Agent V → Agent V
  clear_error g = record g { error = none }

  unfoldable pub set_error_mode : Option Mode → Agent V → Result (Agent V)
  set_error_mode none g = raise bad_mode
  set_error_mode (some mode) g = ok (record g { mode = mode })

  unfoldable pub set_error_handler : Option (Error → Option Error) → Agent V → Agent V
  set_error_handler handler g = record g { handler = handler }

  unfoldable pub call_handler : Agent V → Error → Option Error
  call_handler g e = elim g.handler [ none ↦ none | some h ↦ h e ]

  -- `_handle_failure`, on the queue: it calls itself when the next action is refused too, after a
  -- `popleft`. What the inner call raises replaces what the handler raised.
  unfoldable pub handle_failure : Refuses V → List (Action V) → Error → Agent V → Outcome V
  handle_failure refuses [] e g =
      let handled = call_handler g e in
      let kept : Option Error = elim g.mode [
        | fail ↦ some e
        | continue ↦ if is_some handled then some e else none
      ] in
      (handled, record g { error = kept; active = false; queue = [] }, [])
  handle_failure refuses (a ∷ queue) e g =
      let handled = call_handler g e in
      let kept = if is_some handled then some e else none in
      elim g.mode [
        | fail ↦ (handled, record g { error = some e; active = false; queue = a ∷ queue }, [])
        | continue ↦ elim (refuses a) [
          | none ↦ (handled, record g { error = kept; active = true; queue = a ∷ queue }, [])
          | some x ↦
              let (raised, g', events) =
                handle_failure refuses queue x (record g { error = kept; active = true }) in
              (first_of raised handled, g', dropped a x ∷ events)
        ]
      ]

  -- `_schedule_next`, and what its callers do when `executor.submit` raises: the action leaves the
  -- queue, the failure is handled, and what the handler raises comes first.
  unfoldable pub schedule_next : Refuses V → List (Action V) → Agent V → Outcome V
  schedule_next refuses [] g = (none, record g { active = false; queue = [] }, [])
  schedule_next refuses (a ∷ queue) g = elim (refuses a) [
    | none ↦ (none, record g { active = true; queue = a ∷ queue }, [])
    | some e ↦
        let (raised, g', events) = handle_failure refuses queue e (record g { active = true }) in
        (raised, g', dropped a e ∷ events)
  ]

  -- the error of the refusal that `schedule_next` met first
  unfoldable pub refusal : List (Event V) → Option Error
  refusal (dropped a e ∷ events) = some e
  refusal _ = none

  -- `submit`: it raises what the handler raised, or else the refusal.
  unfoldable pub submit : Refuses V → Action V → Agent V → Outcome V
  submit refuses a g =
      let queue = g.queue ++ a ∷ [] in
      if is_failed g
      then (some failed_agent, g, [])
      else if g.active
      then (none, record g { queue = queue }, [])
      else let (raised, g', events) = schedule_next refuses queue g in
        (first_of raised (refusal events), g', events)

  -- what a restart does once its state is set
  unfoldable pub resume : Refuses V → Bool → Agent V → Outcome V
  resume refuses clear_actions g =
      let queue = if clear_actions then [] else g.queue in
      let (raised, g', events) = schedule_next refuses queue (record g { error = none }) in
      (first_of raised (refusal events), g', events)

  -- `restart`; a watch that raises leaves the new state and the old error.
  unfoldable pub restart : Refuses V → Option V → Bool → Agent V → Outcome V
  restart refuses state clear_actions g =
      if g.active then (some running_action, g, []) else elim state [
        | none ↦ resume refuses clear_actions g
        | some v ↦ elim (validate_state g.validator v) [
          | raise e ↦ (some e, g, [])
          | ok _ ↦
              let g' = record g { state = v } in
              elim (g.watches g.state v) [
                | some e ↦ (some e, g', [])
                | none ↦ resume refuses clear_actions g'
              ]
        ]
      ]

  -- the action of `_run_one` with the validation of its result
  unfoldable pub apply_action : Agent V → Action V → Result V
  apply_action g a = elim (a.call g.state) [
    | raise e ↦ raise e
    | ok v ↦ validate_state g.validator v
  ]

  -- `_run_one`
  unfoldable pub run_one : Refuses V → Agent V → Outcome V
  run_one refuses g = elim g.queue [
    | [] ↦ (none, record g { active = false }, [])
    | a ∷ queue ↦ elim (apply_action g a) [
      | raise e ↦
          let (raised, g', events) = handle_failure refuses queue e g in
          (raised, g', ran a ∷ events)
      | ok v ↦
          let told = g.watches g.state v in
          let (raised, g', events) = schedule_next refuses queue (record g { state = v }) in
          (first_of raised told, g', ran a ∷ events)
    ]
  ]

  -- `_handle_pre_start_failure`, when the executor ended with `e` without a start of the action
  unfoldable pub handle_pre_start_failure : Refuses V → Error → Agent V → Outcome V
  handle_pre_start_failure refuses e g = if not g.active then (none, g, []) else elim g.queue [
    | [] ↦ (some no_action, g, [])
    | a ∷ queue ↦
        let (raised, g', events) = handle_failure refuses queue e g in
        (raised, g', dropped a e ∷ events)
  ]
