-- ===== src/Agent/Order.antt =====
-- The order in which an agent of src/basilisp/lang/agent.py takes its actions, over any sequence of
-- calls and of turns of the executors.
use mathlib.Core.List.{append_assoc, append-nil, map-append}
use baisilisp.Base.{
  ◌≡◌, refl, sym, ap, ◌∙◌, Bool, All, true, false, Option, none, some, List, [], ◌∷◌, ◌++◌, map,
  arith, Option-cases, List-cases, inl, inr, is_some, if◌then◌else◌, ◌⊎◌,
}
use baisilisp.Agent.{
  Agent, Action, Event, ran, dropped, Refuses, Outcome, Error, Mode, Result, ok, raise,
  handle_failure, schedule_next, submit, resume, restart, apply_action, run_one,
  handle_pre_start_failure, is_failed, clear_error, call_handler,
}

pub Result-cases :
    {A : Type 0} (m : Result A) → ((a : A) × (m ≡ ok a)) ⊎ ((e : Error) × (m ≡ raise e))
Result-cases (ok a) = inl (a, refl)
Result-cases (raise e) = inr (e, refl)

-- What can happen to an agent next: a call of one of its methods, or a turn of an executor, which
-- runs the action that it was handed or ends without a start of it.
pub data Turn (V : Type 0) : Type 0 where
  submits : Refuses V → Action V → Turn V
  restarts : Refuses V → Option V → Bool → Turn V
  clears : Turn V
  sets_mode : Mode → Turn V
  runs : Refuses V → Turn V
  fails_to_start : Refuses V → Error → Turn V

module _ {V : Type 0} where
  abbrev pub action_of : Event V → Action V
  action_of (ran a) = a
  action_of (dropped a e) = a

  -- The actions of the events, then those of the queue.
  abbrev pub line : List (Event V) → List (Action V) → List (Action V)
  line events queue = map action_of events ++ queue

  line-handle_failure :
      (refuses : Refuses V) (queue : List (Action V)) (e : Error) (g : Agent V)
      → line (handle_failure refuses queue e g).2 (handle_failure refuses queue e g).1.queue ≡ queue
  unfolding handle_failure
  line-handle_failure refuses [] e g = refl
  line-handle_failure refuses (a ∷ queue) e g = elim (Option-cases (refuses a)) [
    | inl r ↦ ground (arith, r)
    | inr (x, r) ↦
        let kept = if is_some (call_handler g e) then some e else none in
        ground
          (arith, r, line-handle_failure refuses queue x (record g { error = kept; active = true }))
  ]

  line-schedule_next :
      (refuses : Refuses V) (queue : List (Action V)) (g : Agent V)
      → line (schedule_next refuses queue g).2 (schedule_next refuses queue g).1.queue ≡ queue
  unfolding schedule_next
  line-schedule_next refuses [] g = refl
  line-schedule_next refuses (a ∷ queue) g = elim (Option-cases (refuses a)) [
    | inl r ↦ ground (arith, r)
    | inr (x, r) ↦
        ground (arith, r, line-handle_failure refuses queue x (record g { active = true }))
  ]

  line-resume :
      (refuses : Refuses V) (g : Agent V)
      → line (resume refuses false g).2 (resume refuses false g).1.queue ≡ g.queue
  unfolding resume
  line-resume refuses g = line-schedule_next refuses g.queue (record g { error = none })

  line-restart :
      (refuses : Refuses V) (state : Option V) (g : Agent V)
      → line (restart refuses state false g).2 (restart refuses state false g).1.queue ≡ g.queue
  unfolding restart
  line-restart refuses none g = ground (arith, line-resume refuses g)
  line-restart refuses (some v) g = ground (arith, line-resume refuses (record g { state = v }))

  line-submit :
      (refuses : Refuses V) (a : Action V) (g : Agent V)
      → line (submit refuses a g).2 (submit refuses a g).1.queue
        ≡ g.queue ++ (if is_failed g then [] else a ∷ [])
  unfolding submit
  line-submit refuses a g =
      ground (arith, append-nil g.queue, line-schedule_next refuses (g.queue ++ a ∷ []) g)

  line-run_one :
      (refuses : Refuses V) (g : Agent V)
      → line (run_one refuses g).2 (run_one refuses g).1.queue ≡ g.queue
  unfolding run_one
  line-run_one refuses g = elim (List-cases g.queue) [
    | inl e ↦ ground (arith, e)
    | inr (a, queue, e) ↦ elim (Result-cases (apply_action g a)) [
      | inr (x, f) ↦ ground (arith, e, f, line-handle_failure refuses queue x g)
      | inl (v, f) ↦ ground (arith, e, f, line-schedule_next refuses queue (record g { state = v }))
    ]
  ]

  line-handle_pre_start_failure :
      (refuses : Refuses V) (x : Error) (g : Agent V)
      → line (handle_pre_start_failure refuses x g).2 (handle_pre_start_failure refuses x g).1.queue
        ≡ g.queue
  unfolding handle_pre_start_failure
  line-handle_pre_start_failure refuses x g = elim (List-cases g.queue) [
    | inl e ↦ ground (arith, e)
    | inr (a, queue, e) ↦ ground (arith, e, line-handle_failure refuses queue x g)
  ]

  -- The agent and the events after one turn, and after some.
  abbrev pub take_turn : Turn V → Agent V → Outcome V
  take_turn (submits refuses a) g = submit refuses a g
  take_turn (restarts refuses state clear_actions) g = restart refuses state clear_actions g
  take_turn clears g = (none, clear_error g, [])
  take_turn (sets_mode mode) g = (none, record g { mode = mode }, [])
  take_turn (runs refuses) g = run_one refuses g
  take_turn (fails_to_start refuses e) g = handle_pre_start_failure refuses e g

  unfoldable pub take_turns : List (Turn V) → Agent V → Agent V × List (Event V)
  take_turns [] g = (g, [])
  take_turns (t ∷ turns) g =
      let now = take_turn t g in let rest = take_turns turns now.1 in (rest.0, now.2 ++ rest.1)

  -- The actions that a submission put into the queue: a failed agent takes none.
  abbrev pub added : Turn V → Agent V → List (Action V)
  added (submits refuses a) g = if is_failed g then [] else a ∷ []
  added _ g = []

  unfoldable pub accepted : List (Turn V) → Agent V → List (Action V)
  accepted [] g = []
  accepted (t ∷ turns) g = added t g ++ accepted turns (take_turn t g).1

  -- A turn that does not clear the queue.
  abbrev pub Keeps : Turn V → Type 0
  Keeps (restarts refuses state clear_actions) = clear_actions ≡ false
  Keeps _ = Unit

  line-take_turn :
      (t : Turn V) (g : Agent V)
      → Keeps t
      → line (take_turn t g).2 (take_turn t g).1.queue ≡ g.queue ++ added t g
  unfolding clear_error
  line-take_turn (submits refuses a) g h = line-submit refuses a g
  line-take_turn (restarts refuses state clear_actions) g h =
      rw h (line-restart refuses state g ∙ sym (append-nil g.queue))
  line-take_turn clears g h = sym (append-nil g.queue)
  line-take_turn (sets_mode mode) g h = sym (append-nil g.queue)
  line-take_turn (runs refuses) g h = line-run_one refuses g ∙ sym (append-nil g.queue)
  line-take_turn (fails_to_start refuses e) g h =
      line-handle_pre_start_failure refuses e g ∙ sym (append-nil g.queue)

  -- Whatever turns are taken, in whatever order, with actions, handlers, watches and executors that
  -- may fail, if no restart among them clears the queue: the actions that ran or were dropped, in the order of these events, followed by those
  -- that still wait, are the actions that waited at first followed by those that were accepted
  -- since, in the order of their submission. So no action is lost, runs twice, or overtakes another
  -- one.
  pub take_turns-in_order :
      (turns : List (Turn V)) (g : Agent V)
      → All Keeps turns
      → map action_of (take_turns turns g).1 ++ (take_turns turns g).0.queue
        ≡ g.queue ++ accepted turns g
  unfolding take_turns accepted
  take_turns-in_order [] g h = sym (append-nil g.queue)
  take_turns-in_order (t ∷ turns) g h =
      let now = take_turn t g in
      let rest = take_turns turns now.1 in
      ap (λ xs. xs ++ rest.0.queue) (map-append action_of now.2 rest.1)
      ∙ append_assoc (map action_of now.2) (map action_of rest.1) rest.0.queue
      ∙ ap (λ xs. map action_of now.2 ++ xs) (take_turns-in_order turns now.1 h.1)
      ∙ sym (append_assoc (map action_of now.2) now.1.queue (accepted turns now.1))
      ∙ ap (λ xs. xs ++ accepted turns now.1) (line-take_turn t g h.0)
      ∙ append_assoc g.queue (added t g) (accepted turns now.1)
