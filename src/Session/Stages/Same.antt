-- ===== src/Session/Stages/Same.antt =====
-- What src/p8/orchestrator.py does between the changes of the stage.
use carla.Prelude.{◌≡◌, refl, ◌∙◌, Bool, String}
use carla.Float.{Float}
use carla.Exec.Frame.{IsPreorder, Moves, Moves-modify}
use carla.Session.{Stage}
use carla.Session.Record.{Audit, Session, Environment, Approval, Policy}
use carla.Session.Effects.{is_caught, Action, begin_record, activate_record, end_record, save}
use carla.Session.Finalize.{close, wind_up, note}
use carla.Session.Transition.{depart}
use carla.Session.Outcomes.{
  write_receipt, acknowledge, write_approval, approve_dev_outcome, expect_outcome, policy_of,
  write_policy, record_execution_policy_outcome,
}
use carla.Session.Moves.{IsWorldly, Moves-try, quiet_rules}

pub record Same {F J W : Type 0} (s t : Session F J W) : Type 0 where
  pub state_eq : t.state ≡ s.state
  pub closed_eq : t.closed ≡ s.closed

instance pub Same-IsPreorder : {F J W : Type 0} → IsPreorder (Same {F = F} {J = J} {W = W})
Same-IsPreorder = record {
  refl_at = λ s. record { state_eq = refl; closed_eq = refl };
  trans_at = λ s t u p q. record {
    state_eq = q.state_eq ∙ p.state_eq;
    closed_eq = q.closed_eq ∙ p.closed_eq;
  };
}

instance pub Same-IsWorldly : {F J W : Type 0} → IsWorldly (Same {F = F} {J = J} {W = W})
Same-IsWorldly = record { world_at = λ s w. record { state_eq = refl; closed_eq = refl } }

pub ruleset same_rules = (quiet_rules, Moves-modify)

module _ {F J W : Type 0} ⦃fl : Float F⦄ (env : Environment F J W) where
  pub begin-Same : (b : Bool) → Moves Same (begin_record env b)
  unfolding begin_record
  begin-Same b = search same_rules depth 20

  pub activate-Same : Moves Same (activate_record env)
  unfolding activate_record
  activate-Same = search same_rules depth 20

  pub end-Same : (status reason : String) → Moves Same (end_record env status reason)
  unfolding end_record
  end-Same status reason = search same_rules depth 24

  pub save-Same : (status : String) (audit : Audit) → Moves Same (save env status audit)
  unfolding save
  save-Same status audit = search same_rules depth 20

  close-Same : Moves Same (close env)
  unfolding close
  close-Same = search same_rules depth 20

  pub wind_up-Same : Moves Same (wind_up env)
  unfolding wind_up
  wind_up-Same = search (same_rules, close-Same) depth 24

  pub note-Same :
      (label : String) (m : Action F J W Unit) → Moves Same m → Moves Same (note env label m)
  unfolding note
  note-Same label m k = Moves-try is_caught m _ k (λ e. search same_rules)

  pub depart-Same : Moves Same (depart env)
  unfolding depart
  depart-Same = search (same_rules, end-Same) depth 20

  write_receipt-Same :
      (name status : String) (value : J) → Moves Same (write_receipt env name status value)
  unfolding write_receipt
  write_receipt-Same name status value = search same_rules

  pub acknowledge-Same :
      (name status : String) (value : J) → Moves Same (acknowledge env name status value)
  unfolding acknowledge
  acknowledge-Same name status value = search (same_rules, write_receipt-Same, save-Same) depth 24

  write_approval-Same : (a : Approval) → Moves Same (write_approval env a)
  unfolding write_approval
  write_approval-Same a = search same_rules

  pub approve-Same : (outcome reason : String) → Moves Same (approve_dev_outcome env outcome reason)
  unfolding approve_dev_outcome
  approve-Same outcome reason = search (same_rules, write_approval-Same, save-Same) depth 24

  expect-Same : (a b : String) → Moves Same (expect_outcome env a b)
  unfolding expect_outcome
  expect-Same a b = search same_rules

  policy-Same : (s : Stage) (a b : String) → Moves Same (policy_of env s a b)
  unfolding policy_of
  policy-Same Stage.session_created a b = search same_rules
  policy-Same Stage.consent_and_eligibility a b = search (same_rules, expect-Same)
  policy-Same Stage.training a b = search (same_rules, expect-Same)
  policy-Same Stage.eye_tracker_calibration a b = search same_rules
  policy-Same Stage.module_1_prepare a b = search same_rules
  policy-Same Stage.module_1_running a b = search (same_rules, expect-Same)
  policy-Same Stage.module_1_complete a b = search same_rules
  policy-Same Stage.rest a b = search same_rules
  policy-Same Stage.module_2_prepare a b = search same_rules
  policy-Same Stage.module_2_running a b = search (same_rules, expect-Same)
  policy-Same Stage.final_hazard a b = search (same_rules, expect-Same)
  policy-Same Stage.post_experiment a b = search (same_rules, expect-Same)
  policy-Same Stage.session_complete a b = search same_rules
  policy-Same Stage.aborted a b = search same_rules

  write_policy-Same : (p : Policy) → Moves Same (write_policy env p)
  unfolding write_policy
  write_policy-Same p = search same_rules

  pub policy_outcome-Same :
      (outcome reason : String) → Moves Same (record_execution_policy_outcome env outcome reason)
  unfolding record_execution_policy_outcome
  policy_outcome-Same outcome reason =
      search (same_rules, policy-Same, write_policy-Same, save-Same) depth 24
