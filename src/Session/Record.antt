-- ===== src/Session/Record.antt =====
-- The data of src/p8/orchestrator.py: a stage's record, the events that a session logs, the
-- manifest, the objects that the constructor is given, and the session. `J` is the type of a JSON
-- value, and `W` the world outside the session. The list `records` is `past` and its last element,
-- `current`: the constructor writes the first one.
use carla.Prelude.{Bool, Option, List, String}
use carla.Context.{ExperimentCondition}
use carla.Session.{Stage, Mode, Fault, TimingProfile, Readiness}
use carla.Session.Segment.{StudyRun, SegmentContext}
use carla.Exec.{Exec}

-- The `dev_approval` of a record.
pub record Approval : Type 0 where
  pub outcome : String
  pub reason : String

-- The `execution_policy_outcome` of a record. `scope` holds the two optional facts of training.
pub record Policy : Type 0 where
  pub outcome : String
  pub reason : String
  pub external_management : Bool
  pub software_collection_performed : Option Bool
  pub skill_assessment : Option String
  pub p5_surt_connected : Option Bool

pub record StageRecord (F J : Type 0) : Type 0 where
  pub stage : Stage
  pub status : String
  pub entry_attempt_session_s : F
  pub start_session_s : Option F
  pub end_session_s : Option F
  pub duration_s : Option F
  pub condition : Option ExperimentCondition
  pub minimum_s : F
  pub recommended_duration_s : Option F
  pub receipts : List (String × String)
  pub receipt_values : List (String × J)
  pub reason : Option String
  pub dev_approval : Option Approval
  pub execution_policy_outcome : Option Policy

pub data Event (F J : Type 0) : Type 0 where
  assignment : Event F J
  -- The name of the receipt, its status and its value.
  receipt_status : String → String → J → Event F J
  dev_stage_outcome_approval : Approval → Event F J
  execution_policy_stage_outcome : Policy → Event F J
  stage_start stage_start_attempt : Stage → Event F J
  stage_end stage_abort : StageRecord F J → Event F J
  p8_logs_flushed_before_cleanup p8_cleanup_end : List String → Event F J

pub data CleanupStep : Type 0 where
  logger_flush owned_resource_cleanup session_status_persist : CleanupStep

pub record CleanupReport : Type 0 where
  pub completed : Bool
  pub order : List CleanupStep
  pub errors : List String

-- The completeness of the outputs.
pub record Audit : Type 0 where
  pub software_artifacts_complete : Bool
  pub issues : List String

-- What the session itself writes into the manifest.
pub record Manifest (F J : Type 0) : Type 0 where
  pub state : Stage
  pub completion_status : String
  pub abort_reason : Option String
  pub past_stages : List (StageRecord F J)
  pub current_stage : StageRecord F J
  pub components : Option J
  pub initial_components : Option J
  pub cleanup : CleanupReport
  pub completeness : Audit

pub record Session (F J W : Type 0) : Type 0 where
  pub state : Stage
  -- `services.stage` and `services.closed`.
  pub services_stage : Stage
  pub services_closed : Bool
  -- Is there a `components`?
  pub has_components : Bool
  pub closed : Bool
  pub past : List (StageRecord F J)
  pub current : StageRecord F J
  pub receipts : List (String × String)
  pub abort_reason : Option String
  pub cleanup_report : CleanupReport
  pub initial_components : Option J
  pub result : Option (Manifest F J)
  pub lifecycle_errors : List String
  pub world : W

-- `SessionComponents`, which the factory makes.
pub record Components (J W : Type 0) : Type 0 where
  pub make : Exec Fault W Unit
  -- `kind == "ACTUAL_BOUNDED_OPERATOR"`.
  pub is_bounded_operator : Bool
  pub enter : Stage → Exec Fault W Unit
  pub leave : Stage → Exec Fault W Unit
  pub completion_blocker : Stage → Exec Fault W (Option String)
  pub record_receipt : String → String → J → Exec Fault W Unit
  pub flush : Exec Fault W Unit
  pub cleanup : Exec Fault W Unit
  pub snapshot : Exec Fault W J

pub record Environment (F J W : Type 0) : Type 0 where
  pub mode : Mode
  pub profile : TimingProfile F
  -- `services.provenance == "ACTUAL_BOUNDED_OPERATOR"`.
  pub operator_provenance : Bool
  pub readiness : Readiness
  pub run : StudyRun
  pub components : Components J W
  -- `services.elapsed`, which reads the clocks.
  pub elapsed : Exec Fault W F
  -- `logger.write_event` for an event of a segment, with the stamp of the moment.
  pub write_event : SegmentContext → Event F J → Exec Fault W Unit
  pub save_manifest : Manifest F J → Exec Fault W Unit
  pub close_logger : Exec Fault W Unit
  -- `inspect_outputs`, of `complete` and the snapshot of the components.
  pub inspect_outputs : Bool → Option J → Exec Fault W Audit
  -- `finalize_collection` and `export_operator_results`.
  pub finalize_collection : Exec Fault W Unit
  pub export_operator_results : Exec Fault W Unit
