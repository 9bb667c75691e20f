-- ===== src/Session/Transition.antt =====
-- src/p8/orchestrator.py: `ExperimentSession.transition`, `_guard` and `_receipt_satisfied`.
use text.Mathlib.Text.{◌==◌ as str_eq}
use carla.Prelude.{
  Bool, false, ◌&&◌, ◌||◌, not, Option, none, some, is_some, List, [], ◌∷◌, String, any,
  if◌then◌else◌,
}
use carla.Float.{Float}
use carla.Exec.{pure, raise, gets, modify, when, ◌>>=◌, ◌>>◌}
use carla.Session.{
  Stage, training, eye_tracker_calibration, post_experiment, session_complete, aborted, Mode, Fault,
  other_error, p8_error, same_stage, is_rehearsal, successor, receipts_of, minimum,
}
use carla.Session.Record.{Approval, Policy, Environment}
use carla.Session.Effects.{
  is_caught, message, try_except, Action, on_world, is_bounded_rest, begin_record, activate_record,
  end_record, in_progress, save,
}
use carla.Session.Finalize.{abort, finalize}

-- `dict.get(name)` and `dict[name] = value`.
module _ {V : Type 0} where
  unfoldable pub lookup : String → List (String × V) → Option V
  lookup k [] = none
  lookup k ((j, v) ∷ r) = if str_eq j k then some v else lookup k r

  unfoldable pub insert : String → V → List (String × V) → List (String × V)
  insert k v [] = (k, v) ∷ []
  insert k v ((j, w) ∷ r) = if str_eq j k then (j, v) ∷ r else (j, w) ∷ insert k v r

-- `status in (…)`, for a status that may be missing.
unfoldable pub is_status : Option String → List String → Bool
is_status none names = false
is_status (some s) names = any (str_eq s) names

unfoldable pub receipt_satisfied : Mode → Stage → Option String → Bool
receipt_satisfied mode stage status =
    is_status status ("DEV_STUB" ∷ "OPERATOR_CONFIRMED" ∷ [])
    || (is_rehearsal mode
        && ((same_stage stage eye_tracker_calibration
              && is_status status ("EXTERNAL_OPERATOR_STEP" ∷ []))
            || (same_stage stage post_experiment
                && is_status status
                    ("NOT_IMPLEMENTED" ∷ "EXTERNAL_OPERATOR_STEP" ∷ "REFUSED" ∷ []))))

-- `any(not self._receipt_satisfied(item) for item in required)`.
unfoldable pub lacks_receipt : Mode → Stage → List (String × String) → Bool
lacks_receipt mode stage receipts =
    any (λ name. not (receipt_satisfied mode stage (lookup name receipts))) (receipts_of stage)

unfoldable pub is_successor : Option Stage → Stage → Bool
is_successor none target = false
is_successor (some s) target = same_stage s target

-- `"DEV_COMPLETED" if outcome is None else str(outcome["outcome"])` and the reason beside it.
unfoldable pub outcome_of : Option Approval → Option Policy → String × String
outcome_of (some a) p = (a.outcome, a.reason)
outcome_of none (some p) = (p.outcome, p.reason)
outcome_of none none = ("DEV_COMPLETED", "STAGE_CONTRACT_SATISFIED")

module _ {F J W : Type 0} ⦃fl : Float F⦄ (env : Environment F J W) where
  open env use {components}

  unfoldable pub raise_blocker : Option String → Action F J W Unit
  raise_blocker none = pure tt
  raise_blocker (some blocker) = raise (p8_error blocker)

  -- The components' blocker of a stage, which is raised.
  unfoldable pub check_blocker : Stage → Action F J W Unit
  check_blocker stage = do
    s ← gets (λ s. s)
    when (not s.has_components) (raise (p8_error "COMPONENTS_UNAVAILABLE"))
    blocker ← on_world (components.completion_blocker stage)
    raise_blocker blocker

  -- `elapsed - start < minimum`, which raises `TypeError` for a record that has not started.
  unfoldable pub check_elapsed : Stage → Bool → F → Option F → Action F J W Unit
  check_elapsed stage has elapsed none = raise (other_error "TypeError")
  check_elapsed stage has elapsed (some start) =
      when
        (fl.lt (fl.sub elapsed start)
          (if is_bounded_rest env stage has then fl.of_ℕ 0 else minimum env.profile stage))
        (raise (p8_error "STAGE_MINIMUM_DURATION_NOT_REACHED"))

  -- `_guard` of a record with neither an approval nor an outcome.
  unfoldable pub guard_contract : Action F J W Unit
  guard_contract = do
    s ← gets (λ s. s)
    when (lacks_receipt env.mode s.state s.receipts) (raise (p8_error "STAGE_RECEIPT_REQUIRED"))
    elapsed ← on_world env.elapsed
    check_elapsed s.state s.has_components elapsed s.current.start_session_s
    check_blocker s.state

  unfoldable pub guard : Action F J W Unit
  guard = do
    s ← gets (λ s. s)
    if is_some s.current.execution_policy_outcome
        then when (same_stage s.state training) (check_blocker training)
        else when (not (is_some s.current.dev_approval)) guard_contract

  -- The end of the body of the `try` of `transition`.
  unfoldable pub arrive : Stage → Action F J W Unit
  arrive target =
      if same_stage target session_complete
      then (do
        end_record env "DEV_COMPLETED" "DEV_SEQUENCE_ENDED_NOT_PARTICIPANT_COMPLETE"
        finalize env (
            if is_rehearsal env.mode
            then "DEV_REHEARSAL_PARTIAL_COMPLETE"
            else "DEV_FLOW_COMPLETE"))
      else save env "RUNNING" (in_progress env)

  -- The beginning: the components leave the stage, and its record ends.
  unfoldable pub depart : Action F J W Unit
  depart = do
    s ← gets (λ s. s)
    on_world (components.leave s.state)
    let outcome = outcome_of s.current.dev_approval s.current.execution_policy_outcome
    end_record env outcome.0 outcome.1

  -- The middle: the session is in the next stage, which the components enter.
  unfoldable pub enter_stage : Stage → Action F J W Unit
  enter_stage target = do
    modify (λ s. record s { state = target; services_stage = target; receipts = [] })
    begin_record env false
    on_world (components.enter target)
    activate_record env

  unfoldable pub move : Stage → Action F J W Unit
  move target = do depart; enter_stage target; arrive target

  -- What `transition` tests before it moves.
  unfoldable pub permit : Stage → Action F J W Unit
  permit target = do
    s ← gets (λ s. s)
    when (s.closed || same_stage s.state aborted || same_stage s.state session_complete)
        (raise (p8_error "TERMINAL_SESSION"))
    when (not (is_successor (successor s.state) target)) (raise (p8_error "STAGE_ORDER_VIOLATION"))
    guard
    when (not s.has_components) (raise (p8_error "COMPONENTS_UNAVAILABLE"))

  -- The `except` of `transition`.
  abbrev pub give_up_move : Fault → Action F J W Unit
  give_up_move e = do s ← gets (λ s. s); when (not s.closed) (abort env (message e) false); raise e

  unfoldable pub transition : Stage → Action F J W Unit
  transition target = do permit target; try_except is_caught (move target) give_up_move
