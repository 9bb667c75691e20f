-- ===== src/Session.antt =====
-- src/p8/model.py and src/p8/readiness.py: the stages of a session, its modes, the receipts that a
-- stage asks for and the least time that it takes; the readiness flags.
pub mod Segment
pub mod Record
pub mod Effects
pub mod Finalize
pub mod Transition
pub mod Outcomes
pub mod Moves
pub mod Stages
pub mod Contract
pub mod Closing
pub mod Participant
pub mod Completion
mod Tests
use text.Mathlib.Text.{◌==◌ as str_eq}
use carla.Prelude.{
  ℕ, zero, suc, Bool, true, false, Option, none, some, List, [], ◌∷◌, ◌++◌, String, ◌==◌, any,
  if◌then◌else◌,
}
use carla.Prelude.Strings.{text_append, join}
use carla.Float.{Float}
use carla.Exec.{Result, ok, err}

pub data Stage : Type 0 where
  session_created : Stage
  consent_and_eligibility : Stage
  training : Stage
  eye_tracker_calibration : Stage
  module_1_prepare : Stage
  module_1_running : Stage
  module_1_complete : Stage
  rest : Stage
  module_2_prepare : Stage
  module_2_running : Stage
  final_hazard : Stage
  post_experiment : Stage
  session_complete : Stage
  aborted : Stage

pub data Mode : Type 0 where
  dry accelerated dev_live_drive dev_rehearsal participant : Mode

-- What the code catches, by class, with `str(error)`; `other_error` is any other exception.
-- `P8Error` is a `RuntimeError`.
pub data Fault : Type 0 where
  runtime_error : String → Fault
  value_error : String → Fault
  os_error : String → Fault
  key_error : String → Fault
  other_error : String → Fault

pattern abbrev pub p8_error : String → Fault
p8_error s = runtime_error s

unfoldable pub sequence : List Stage
sequence =
    session_created ∷ consent_and_eligibility ∷ training ∷ eye_tracker_calibration
    ∷ module_1_prepare ∷ module_1_running ∷ module_1_complete ∷ rest ∷ module_2_prepare
    ∷ module_2_running ∷ final_hazard ∷ post_experiment ∷ session_complete ∷ []

-- The place of a member in `class Stage`.
abbrev pub ordinal : Stage → ℕ
ordinal session_created = 0
ordinal consent_and_eligibility = 1
ordinal training = 2
ordinal eye_tracker_calibration = 3
ordinal module_1_prepare = 4
ordinal module_1_running = 5
ordinal module_1_complete = 6
ordinal rest = 7
ordinal module_2_prepare = 8
ordinal module_2_running = 9
ordinal final_hazard = 10
ordinal post_experiment = 11
ordinal session_complete = 12
ordinal aborted = 13

-- `a is b` for two stages.
abbrev pub same_stage : Stage → Stage → Bool
same_stage a b = ordinal a == ordinal b

abbrev pub is_participant : Mode → Bool
is_participant participant = true
is_participant _ = false

abbrev pub is_rehearsal : Mode → Bool
is_rehearsal dev_rehearsal = true
is_rehearsal _ = false

-- The element after the first one that is `s`.
unfoldable pub following : Stage → List Stage → Option Stage
following s [] = none
following s (a ∷ []) = none
following s (a ∷ b ∷ r) =
    let later = following s (b ∷ r) in if same_stage a s then some b else later

-- `SEQUENCE[SEQUENCE.index(stage) + 1]`.
unfoldable pub successor : Stage → Option Stage
unfolding sequence following
successor s = following s sequence

unfoldable pub training_requirements : List String
training_requirements =
    "manual_driving" ∷ "noa_on_off" ∷ "brake_disengage_reactivate" ∷ "exit_confirm" ∷ "exit_reject"
    ∷ "surt" ∷ "operator_assessment" ∷ []

-- `RECEIPTS.get(stage, ())`.
unfoldable pub receipts_of : Stage → List String
unfolding training_requirements
receipts_of consent_and_eligibility = "consent" ∷ "eligibility" ∷ []
receipts_of training = training_requirements
receipts_of eye_tracker_calibration = "calibration_boundary" ∷ []
receipts_of post_experiment = "survey" ∷ "debrief" ∷ "data_use" ∷ []
receipts_of _ = []

-- `name in names`.
unfoldable pub is_in : String → List String → Bool
is_in name names = any (str_eq name) names

pub record TimingProfile (F : Type 0) : Type 0 where
  pub label : String
  pub module_1_s : F
  pub rest_s : F
  pub module_2_s : F

module _ {F : Type 0} ⦃fl : Float F⦄ where
  unfoldable pub production : TimingProfile F
  production = record {
    label = "V5_NOMINAL";
    module_1_s = fl.of_ℕ 600;
    rest_s = fl.of_ℕ 120;
    module_2_s = fl.of_ℕ 780;
  }

  timing : String → ℕ → ℕ → ℕ → TimingProfile F
  timing label m1 r m2 = record {
    label = label;
    module_1_s = fl.of_ℕ m1;
    rest_s = fl.of_ℕ r;
    module_2_s = fl.of_ℕ m2;
  }

  unfoldable pub development : Mode → Result Fault (TimingProfile F)
  unfolding production timing
  development participant = err (p8_error "PARTICIPANT_TIMING_IS_NOT_DEVELOPMENT")
  development accelerated = ok (timing "DEV_ACCELERATED" 4 2 4)
  development dev_live_drive = ok (timing "DEV_LIVE_PARTIAL" 0 0 0)
  development dev_rehearsal = ok production
  development dry = ok (timing "DEV_VIRTUAL_NOMINAL" 600 120 780)

  -- The profile that `SessionServices` chooses.
  unfoldable pub profile_of : Mode → Result Fault (TimingProfile F)
  unfolding production development
  profile_of participant = ok production
  profile_of m = development m

  unfoldable pub minimum : TimingProfile F → Stage → F
  minimum p module_1_running = p.module_1_s
  minimum p rest = p.rest_s
  minimum p module_2_running = p.module_2_s
  minimum p _ = fl.of_ℕ 0

pub record Readiness : Type 0 where
  pub eye_tracker_required : Bool
  pub eye_tracker_available : Bool
  pub eye_tracker_calibrated : Bool
  pub screen_aoi_ready : Bool
  pub tablet_ready : Bool
  pub tablet_aoi_ready : Bool
  pub clock_sync_ready : Bool
  pub p7_live_validated : Bool
  pub p1_p5_matrix_ready : Bool
  pub rescue_owner_ready : Bool
  pub final_parameters_ready : Bool
  pub final_video_ready : Bool

-- `asdict(self).items()`.
flags : Readiness → List (String × Bool)
flags r =
    ("eye_tracker_required", r.eye_tracker_required)
    ∷ ("eye_tracker_available", r.eye_tracker_available)
    ∷ ("eye_tracker_calibrated", r.eye_tracker_calibrated)
    ∷ ("screen_aoi_ready", r.screen_aoi_ready)
    ∷ ("tablet_ready", r.tablet_ready)
    ∷ ("tablet_aoi_ready", r.tablet_aoi_ready)
    ∷ ("clock_sync_ready", r.clock_sync_ready)
    ∷ ("p7_live_validated", r.p7_live_validated)
    ∷ ("p1_p5_matrix_ready", r.p1_p5_matrix_ready)
    ∷ ("rescue_owner_ready", r.rescue_owner_ready)
    ∷ ("final_parameters_ready", r.final_parameters_ready)
    ∷ ("final_video_ready", r.final_video_ready)
    ∷ []

not_ready : List (String × Bool) → List String
not_ready [] = []
not_ready ((name, ready) ∷ r) = if ready then not_ready r else name ∷ not_ready r

unfoldable pub blockers : Readiness → List String
unfolding flags not_ready
blockers r = not_ready (flags r)

-- `require_participant_ready(readiness, source_kind="REAL")`, which always raises.
unfoldable pub require_participant_ready : Readiness → Result Fault Unit
unfolding blockers
require_participant_ready r = err (
    p8_error (
      text_append "PARTICIPANT_BLOCKED:"
        (join "," (blockers r ++ "PARTICIPANT_RUNTIME_NOT_IMPLEMENTED" ∷ []))))
