-- ===== src/Session/Outcomes.antt =====
-- src/p8/orchestrator.py: `ExperimentSession.acknowledge`, `approve_dev_outcome` and
-- `record_execution_policy_outcome`.
use text.Mathlib.Text.{◌==◌ as str_eq}
use carla.Prelude.{
  Bool, true, false, ◌&&◌, ◌||◌, not, Option, none, some, List, [], ◌∷◌, String, if◌then◌else◌,
}
use carla.Prelude.Strings.{has_text}
use carla.Float.{Float}
use carla.Exec.{pure, raise, gets, modify, when, ◌>>=◌, ◌>>◌}
use carla.Session.{
  Stage, session_created, consent_and_eligibility, training, module_1_running, rest,
  module_2_running, final_hazard, post_experiment, session_complete, aborted, p8_error, same_stage,
  is_participant, is_rehearsal, receipts_of, is_in,
}
use carla.Session.Record.{
  Approval, Policy, receipt_status, dev_stage_outcome_approval, execution_policy_stage_outcome,
  Environment,
}
use carla.Session.Effects.{Action, on_world, emit, in_progress, save}
use carla.Session.Transition.{insert, check_blocker}

unfoldable pub statuses : List String
statuses =
    "DEV_STUB" ∷ "OPERATOR_CONFIRMED" ∷ "NOT_IMPLEMENTED" ∷ "EXTERNAL_OPERATOR_STEP" ∷ "REFUSED"
    ∷ []

-- The policy of an outcome, with the facts that depend on the stage.
unfoldable pub policy : String → String → Bool → Option Bool → Option String → Option Bool → Policy
policy outcome reason external collected skill surt_connected = record {
  outcome = outcome;
  reason = reason;
  external_management = external;
  software_collection_performed = collected;
  skill_assessment = skill;
  p5_surt_connected = surt_connected;
}

module _ {F J W : Type 0} ⦃fl : Float F⦄ (env : Environment F J W) where
  open env use {components}

  -- The receipt in the session and in its current record.
  unfoldable pub write_receipt : String → String → J → Action F J W Unit
  write_receipt name status value = modify (λ s.
      let receipts = insert name status s.receipts in
      record s {
        receipts = receipts;
        current = record s.current {
          receipts = receipts;
          receipt_values = insert name value s.current.receipt_values;
        };
      })

  unfoldable pub acknowledge : String → String → J → Action F J W Unit
  acknowledge name status value = do
    s ← gets (λ s. s)
    when (s.closed || not (is_in name (receipts_of s.state)))
        (raise (p8_error "RECEIPT_NOT_ALLOWED_FOR_STAGE"))
    when (not (is_in status statuses)) (raise (p8_error "UNKNOWN_RECEIPT_STATUS"))
    when (str_eq status "DEV_STUB" && is_participant env.mode)
        (raise (p8_error "PARTICIPANT_CANNOT_USE_DEV_STUB"))
    write_receipt name status value
    emit env (receipt_status name status value)
    when s.has_components (on_world (components.record_receipt name status value))
    save env "RUNNING" (in_progress env)

  unfoldable pub write_approval : Approval → Action F J W Unit
  write_approval approval =
      modify (λ s. record s { current = record s.current { dev_approval = some approval } })

  -- `state in (SESSION_CREATED, REST, SESSION_COMPLETE, ABORTED)`.
  unfoldable pub needs_no_approval : Stage → Bool
  needs_no_approval stage =
      same_stage stage session_created
      || same_stage stage rest
      || same_stage stage session_complete
      || same_stage stage aborted

  unfoldable pub approve_dev_outcome : String → String → Action F J W Unit
  approve_dev_outcome outcome reason = do
    when (not (is_rehearsal env.mode))
        (raise (p8_error "DEV_OUTCOME_APPROVAL_REQUIRES_REHEARSAL_MODE"))
    s ← gets (λ s. s)
    when (needs_no_approval s.state) (raise (p8_error "DEV_OUTCOME_APPROVAL_NOT_ALLOWED_FOR_STAGE"))
    when (not (has_text reason)) (raise (p8_error "DEV_OUTCOME_REQUIRES_REASON"))
    if same_stage s.state final_hazard
        then when (not (str_eq outcome "BLOCKED"))
            (raise (p8_error "FINAL_HAZARD_OUTCOME_MUST_BE_BLOCKED"))
        else when (not (is_in outcome ("PARTIAL" ∷ "SKIPPED" ∷ [])))
            (raise (p8_error "DEV_OUTCOME_REQUIRES_PARTIAL_OR_SKIPPED_AND_REASON"))
    let approval : Approval = record { outcome = outcome; reason = reason }
    write_approval approval
    emit env (dev_stage_outcome_approval approval)
    save env "RUNNING" (in_progress env)

  -- An outcome that the stage does not allow.
  unfoldable pub expect_outcome : String → String → Action F J W Unit
  expect_outcome outcome expected =
      when (not (str_eq outcome expected))
        (raise (p8_error "EXECUTION_POLICY_OUTCOME_NOT_ALLOWED_FOR_STAGE"))

  -- The `match self.state` of `record_execution_policy_outcome`.
  unfoldable pub policy_of : Stage → String → String → Action F J W Policy
  policy_of consent_and_eligibility outcome reason = do
    expect_outcome outcome "SKIPPED"
    pure (policy outcome reason true (some false) none none)
  policy_of post_experiment outcome reason = do
    expect_outcome outcome "SKIPPED"
    pure (policy outcome reason true (some false) none none)
  policy_of training outcome reason = do
    expect_outcome outcome "PARTIAL"
    check_blocker env training
    pure (policy outcome reason true none (some "EXTERNAL_UNVERIFIED") (some false))
  policy_of module_1_running outcome reason = do
    expect_outcome outcome "PARTIAL"
    pure (policy outcome reason false none none none)
  policy_of module_2_running outcome reason = do
    expect_outcome outcome "PARTIAL"
    pure (policy outcome reason false none none none)
  policy_of final_hazard outcome reason = do
    expect_outcome outcome "BLOCKED"
    pure (policy outcome reason false none none none)
  policy_of _ outcome reason = raise (p8_error "EXECUTION_POLICY_OUTCOME_NOT_ALLOWED_FOR_STAGE")

  unfoldable pub write_policy : Policy → Action F J W Unit
  write_policy p =
      modify (λ s. record s { current = record s.current { execution_policy_outcome = some p } })

  unfoldable pub record_execution_policy_outcome : String → String → Action F J W Unit
  record_execution_policy_outcome outcome reason = do
    s ← gets (λ s. s)
    when (not (is_rehearsal env.mode && s.has_components && components.is_bounded_operator))
        (raise (p8_error "EXECUTION_POLICY_OUTCOME_REQUIRES_OPERATOR_REHEARSAL"))
    when (not (is_in outcome ("PARTIAL" ∷ "SKIPPED" ∷ "BLOCKED" ∷ []) && has_text reason))
        (raise (p8_error "EXECUTION_POLICY_OUTCOME_REQUIRES_REASON"))
    p ← policy_of s.state outcome reason
    write_policy p
    emit env (execution_policy_stage_outcome p)
    save env "RUNNING" (in_progress env)
