-- ===== src/Session/Segment.antt =====
-- src/experiment/context.py: the phases, the outcome families and the check of a `SegmentContext`;
-- src/p8/services.py: the segment of a stage. The identifiers are texts that the session was given.
pub mod Laws
use carla.Prelude.{Bool, true, false, ◌&&◌, Option, none, some, String, is_none, if◌then◌else◌}
use carla.Prelude.Strings.{has_text, text_append}
use carla.Context.{ExperimentModule, ExperimentCondition, no_surt, surt, noa_l2}
use carla.Session.{
  Stage, module_1_prepare, module_1_running, module_1_complete, module_2_prepare, module_2_running,
  Fault, value_error,
}
use carla.Exec.{Result, ok, err}

pub data ExperimentPhase : Type 0 where
  consent_and_eligibility : ExperimentPhase
  training : ExperimentPhase
  eye_tracker_calibration : ExperimentPhase
  module_1 : ExperimentPhase
  rest : ExperimentPhase
  module_2 : ExperimentPhase
  final_hazard_assessment : ExperimentPhase
  post_experiment : ExperimentPhase

pub data OutcomeFamily : Type 0 where
  automation_choice attention_allocation hazard_response : OutcomeFamily

pub record SegmentContext : Type 0 where
  pub segment_id : String
  pub study_run_id : String
  pub phase : ExperimentPhase
  pub module' : Option ExperimentModule
  pub condition : Option ExperimentCondition
  pub outcome_family : Option OutcomeFamily

-- The members of `StudyRunContext` that a segment takes.
pub record StudyRun : Type 0 where
  pub study_run_id : String
  pub module_1_condition : ExperimentCondition
  pub module_2_condition : ExperimentCondition

abbrev pub is_module_1_condition : ExperimentCondition → Bool
is_module_1_condition no_surt = true
is_module_1_condition surt = true
is_module_1_condition _ = false

abbrev pub is_module_2_condition : ExperimentCondition → Bool
is_module_2_condition ExperimentCondition.manual = true
is_module_2_condition noa_l2 = true
is_module_2_condition _ = false

in_module_1 : Option ExperimentModule → Option ExperimentCondition → Bool
in_module_1 (some ExperimentModule.module_1) (some c) = is_module_1_condition c
in_module_1 _ _ = false

in_module_2 : Option ExperimentModule → Option ExperimentCondition → Bool
in_module_2 (some ExperimentModule.module_2) (some c) = is_module_2_condition c
in_module_2 _ _ = false

measures : OutcomeFamily → Option OutcomeFamily → Bool
measures automation_choice (some automation_choice) = true
measures attention_allocation (some attention_allocation) = true
measures hazard_response (some hazard_response) = true
measures _ _ = false

-- The `match self.phase` of `SegmentContext.__post_init__`.
unfoldable pub phase_admits :
    ExperimentPhase
    → Option ExperimentModule
    → Option ExperimentCondition
    → Option OutcomeFamily
    → Bool
unfolding in_module_1 in_module_2 measures
phase_admits module_1 m c o = in_module_1 m c && measures automation_choice o
phase_admits module_2 m c o = in_module_2 m c && measures attention_allocation o
phase_admits final_hazard_assessment m c o = in_module_2 m c && measures hazard_response o
phase_admits _ m c o = is_none m && is_none c && is_none o

refusal : ExperimentPhase → String
refusal module_1 = "MODULE_1 requires its module 1 condition and AUTOMATION_CHOICE"
refusal module_2 = "MODULE_2 requires its module 2 condition and ATTENTION_ALLOCATION"
refusal final_hazard_assessment =
    "FINAL_HAZARD_ASSESSMENT requires MODULE_2, its assigned module 2 condition, and HAZARD_RESPONSE"
refusal consent_and_eligibility =
    "CONSENT_AND_ELIGIBILITY must not define module research conditions"
refusal training = "TRAINING must not define module research conditions"
refusal eye_tracker_calibration =
    "EYE_TRACKER_CALIBRATION must not define module research conditions"
refusal rest = "REST must not define module research conditions"
refusal post_experiment = "POST_EXPERIMENT must not define module research conditions"

-- `SegmentContext(…)`.
unfoldable pub checked : SegmentContext → Result Fault SegmentContext
unfolding phase_admits refusal
checked s =
    if has_text s.segment_id
    then (if has_text s.study_run_id
        then (if phase_admits s.phase s.module' s.condition s.outcome_family
            then ok s
            else err (value_error (refusal s.phase)))
        else err (value_error "study_run_id must not be blank"))
    else err (value_error "segment_id must not be blank")

-- `stage.value`.
unfoldable pub value : Stage → String
value Stage.session_created = "SESSION_CREATED"
value Stage.consent_and_eligibility = "CONSENT_AND_ELIGIBILITY"
value Stage.training = "TRAINING"
value Stage.eye_tracker_calibration = "EYE_TRACKER_CALIBRATION"
value module_1_prepare = "MODULE_1_PREPARE"
value module_1_running = "MODULE_1_RUNNING"
value module_1_complete = "MODULE_1_COMPLETE"
value Stage.rest = "REST"
value module_2_prepare = "MODULE_2_PREPARE"
value module_2_running = "MODULE_2_RUNNING"
value Stage.final_hazard = "FINAL_HAZARD"
value Stage.post_experiment = "POST_EXPERIMENT"
value Stage.session_complete = "SESSION_COMPLETE"
value Stage.aborted = "ABORTED"

unfoldable pub phase_of : Stage → ExperimentPhase
phase_of Stage.session_created = consent_and_eligibility
phase_of Stage.consent_and_eligibility = consent_and_eligibility
phase_of Stage.training = training
phase_of Stage.eye_tracker_calibration = eye_tracker_calibration
phase_of module_1_prepare = module_1
phase_of module_1_running = module_1
phase_of module_1_complete = module_1
phase_of Stage.rest = rest
phase_of module_2_prepare = module_2
phase_of module_2_running = module_2
phase_of Stage.final_hazard = final_hazard_assessment
phase_of Stage.post_experiment = post_experiment
phase_of Stage.session_complete = post_experiment
phase_of Stage.aborted = post_experiment

-- The module, the condition and the outcome family of a stage.
unfoldable pub conditions_of :
    StudyRun
    → ExperimentPhase
    → Option ExperimentModule × Option ExperimentCondition × Option OutcomeFamily
conditions_of run module_1 =
    (some ExperimentModule.module_1, some run.module_1_condition, some automation_choice)
conditions_of run module_2 =
    (some ExperimentModule.module_2, some run.module_2_condition, some attention_allocation)
conditions_of run final_hazard_assessment =
    (some ExperimentModule.module_2, some run.module_2_condition, some hazard_response)
conditions_of run _ = (none, none, none)

unfoldable pub segment : StudyRun → Stage → Result Fault SegmentContext
unfolding phase_of conditions_of value checked
segment run stage =
    let (m, c, o) = conditions_of run (phase_of stage) in
    checked (record {
      segment_id = text_append (text_append run.study_run_id ":") (value stage);
      study_run_id = run.study_run_id;
      phase = phase_of stage;
      module' = m;
      condition = c;
      outcome_family = o;
    })
