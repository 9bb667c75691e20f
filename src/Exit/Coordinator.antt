-- ===== src/Exit/Coordinator.antt =====
-- src/experiment/exit_assistance.py: the state of `ExitAssistanceCoordinator`, the objects that it is
-- given, and the helpers that its methods share. The fields stand in two groups: those that decide
-- what happens next (`Core`), and those that record what happened (`Journal`).
pub mod Emit
pub mod Methods
pub mod Presentation
pub mod Signal
pub mod Observation
pub mod Update
pub mod Rules
pub mod Laws
mod Tests
use carla.Prelude.{ℕ, Bool, true, false, Option, none, some, String, List, []}
use carla.Prelude.Int.{ℤ}
use carla.Exec.{Exec}
use carla.Context.{Fault}
use carla.Automation.{DrivingControlMode}
use carla.Timestamp.{TimestampEnvelope, SessionClock}
use carla.Exit.{
  ExitAssistanceConfig, ExitAssistanceStatus, waiting, ExitTerminationReason, ExitPresentation,
  ExitObservation, Indicator, off,
}
use carla.Exit.Route.{ExitRoute, Segment}

-- The values of `_decision`.
pub data Decision : Type 0 where
  no_response confirm reject : Decision
  unavailable_driver_priority unavailable_movement_started unavailable_route : Decision
  manual_change_observed_proxy manual_nochange : Decision

pub data PathOutcome : Type 0 where
  exit missed : PathOutcome

pub data RouteChoice : Type 0 where
  exit through : RouteChoice

pub data EventType : Type 0 where
  lc_active_drive_started lc_finished lc_presented lc_presentation_timing_deviation : EventType
  lc_mode_change lc_decision lc_driver_steering_onset lc_route_cancelled : EventType
  lc_route_cancel_unverified lc_guidance_closed lc_late_indicator_ignored_for_exit : EventType
  lc_route_submission_unverified lc_exit_route_submitted lc_through_route_submitted : EventType
  lc_observation_gap lc_unpresented_path_observed lc_draft lc_navigation_unavailable : EventType
  lc_navigation_restored lc_lateral_reference_invalidated lc_lateral_reference_acquired : EventType
  lc_maneuver_start lc_indicator_onset lc_boundary_crossing lc_exit_entry_observed : EventType
  lc_completed lc_opportunity_retired : EventType

-- The values of `outcome` in an event.
pub data Outcome : Type 0 where
  path : PathOutcome → Outcome
  interrupted not_reached not_presented unverified exit_entry_observed : Outcome

pub data Reason : Type 0 where
  terminated : ExitTerminationReason → Reason
  eligibility_window_closed driver_priority_or_movement mode_changed_after_t0 : Reason
  assisted_execution_blocked assisted_submission_unverified driver_signal_priority : Reason
  exit_corridor_left : Reason
  -- `termination_reason or event_type`, where there is no reason.
  event_name : EventType → Reason

pub data WindowStatus : Type 0 where
  within_window outside_window_after_visible_frame : WindowStatus
  display_duration_elapsed eligibility_window_closed approach_ended driver_left_signal :
      WindowStatus

-- The keyword arguments of `_emit`.
pub record Details (F : Type 0) : Type 0 where
  pub outcome : Option Outcome
  pub termination_reason : Option Reason
  pub observed_proxy : Bool
  pub input_received : Bool
  pub observation : Option (ExitObservation F)
  pub input_timestamp : Option TimestampEnvelope
  pub observation_gap_previous_frame : Option ℕ
  pub presentation_window_status : Option WindowStatus
  pub highway_not_configured : Bool

pub record Core (F : Type 0) : Type 0 where
  pub status : ExitAssistanceStatus
  pub presentation : Option (ExitPresentation F)
  pub t0 : Option TimestampEnvelope
  pub frozen_mode : Option DrivingControlMode
  pub actual_mode : Option DrivingControlMode
  pub automated : Bool
  pub recommendation_presented : Bool
  pub finished : Bool
  pub decision : Option Decision
  pub input_timestamp : Option TimestampEnvelope
  pub decision_commit_timestamp : Option TimestampEnvelope
  pub observed_proxy_timestamp : Option TimestampEnvelope
  pub indicator_timestamp : Option TimestampEnvelope
  pub steering_timestamp : Option TimestampEnvelope
  pub lateral_timestamp : Option TimestampEnvelope
  pub crossing_timestamp : Option TimestampEnvelope
  pub input_was_held : Bool
  pub last_observation_frame : Option ℕ
  pub latest_observation : Option (ExitObservation F)
  pub baseline_lateral_m : Option F
  pub baseline_indicator : Indicator
  pub previous_indicator : Indicator
  pub previous_lateral_m : Option F
  pub maneuver_in_progress : Bool
  pub path_outcome : Option PathOutcome
  pub unpresented_path_identity : Option Segment
  pub route_was_armed : Bool
  pub active_drive_start : Option TimestampEnvelope
  pub active_drive_start_elapsed_s : Option F
  pub automatic_route_armed : Bool
  pub guidance_closed_timestamp : Option TimestampEnvelope
  pub guidance_hidden_timestamp : Option TimestampEnvelope
  pub route_choice : Option RouteChoice
  pub branch_failed : Bool
  pub outside_exit_since_ns : Option ℕ
  pub outside_exit_last_ns : Option ℕ
  pub automatic_route_cancel_unverified : Bool

-- `ExitEventData`: the payload of an event, before it is written as JSON. The state that `_emit`
-- reads is the core at that moment.
pub record ExitAssistanceEvent (F : Type 0) : Type 0 where
  pub event_type : EventType
  pub timestamp : TimestampEnvelope
  pub core : Core F
  pub details : Details F
  pub eligibility_elapsed_s : Option F

pub record Journal (F : Type 0) : Type 0 where
  pub events : List (ExitAssistanceEvent F)
  pub opportunity_end_timestamp : Option TimestampEnvelope
  pub opportunity_end_outcome : Option Outcome
  pub opportunity_end_reason : Option Reason
  pub logging_errors : List Fault

-- What the constructor is given. `W` is the world that the callbacks act on.
pub record Environment (F W : Type 0) : Type 0 where
  pub config : ExitAssistanceConfig F
  pub navigation_text : Bool → F → String
  pub arm : ExitRoute F → ℤ → Exec Fault W Unit
  pub cancel : Exec Fault W Unit
  pub event_sink : Option (ExitAssistanceEvent F → Exec Fault W Unit)
  pub session_clock : Option SessionClock
  pub assisted_submission : Option (Exec Fault W Bool)
  pub submission_clock : Option (Exec Fault W TimestampEnvelope)
  pub automatic_route_submission : Option (Exec Fault W Bool)
  pub automatic_route_cancellation : Option (Exec Fault W Bool)
  pub through_route_submission : Option (Exec Fault W Bool)

pub record Coordinator (F W : Type 0) : Type 0 where
  pub core : Core F
  pub journal : Journal F
  pub world : W

-- `__init__`.
unfoldable pub new : {F W : Type 0} → W → Coordinator F W
new world = record {
  core = record {
    status = waiting;
    presentation = none;
    t0 = none;
    frozen_mode = none;
    actual_mode = none;
    automated = false;
    recommendation_presented = false;
    finished = false;
    decision = none;
    input_timestamp = none;
    decision_commit_timestamp = none;
    observed_proxy_timestamp = none;
    indicator_timestamp = none;
    steering_timestamp = none;
    lateral_timestamp = none;
    crossing_timestamp = none;
    input_was_held = false;
    last_observation_frame = none;
    latest_observation = none;
    baseline_lateral_m = none;
    baseline_indicator = off;
    previous_indicator = off;
    previous_lateral_m = none;
    maneuver_in_progress = false;
    path_outcome = none;
    unpresented_path_identity = none;
    route_was_armed = false;
    active_drive_start = none;
    active_drive_start_elapsed_s = none;
    automatic_route_armed = false;
    guidance_closed_timestamp = none;
    guidance_hidden_timestamp = none;
    route_choice = none;
    branch_failed = false;
    outside_exit_since_ns = none;
    outside_exit_last_ns = none;
    automatic_route_cancel_unverified = false;
  };
  journal = record {
    events = [];
    opportunity_end_timestamp = none;
    opportunity_end_outcome = none;
    opportunity_end_reason = none;
    logging_errors = [];
  };
  world = world;
}

-- No keyword argument.
abbrev pub plain : {F : Type 0} → Details F
plain = record {
  outcome = none;
  termination_reason = none;
  observed_proxy = false;
  input_received = false;
  observation = none;
  input_timestamp = none;
  observation_gap_previous_frame = none;
  presentation_window_status = none;
  highway_not_configured = false;
}

abbrev pub seen : {F : Type 0} → ExitObservation F → Details F
seen observation = record plain { observation = some observation }

abbrev pub ended : {F : Type 0} → Outcome → Reason → Details F
ended outcome reason = record plain { outcome = some outcome; termination_reason = some reason }
