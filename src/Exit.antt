-- ===== src/Exit.antt =====
-- src/experiment/exit_assistance_types.py: one exit opportunity, its configuration, what is observed
-- and what is shown. `F` is the type of floats. The string constants of the code are constructors.
pub mod Route
pub mod Policy
pub mod Coordinator
use carla.Prelude.{ℕ, Bool, Option, String}
use carla.Prelude.Int.{ℤ}
use carla.Context.{ExperimentModule, ExperimentCondition}
use carla.Timestamp.{TimestampEnvelope}
use carla.Exit.Route.{ExitRoute}

pub data ExitContext : Type 0 where
  training drive_module : ExitContext

pub data ExitAssistanceStatus : Type 0 where
  waiting draft presented confirmed rejected noresponse completed interrupted not_presented :
      ExitAssistanceStatus

pub data ExitTerminationReason : Type 0 where
  normal user_exit time_cap error : ExitTerminationReason

pub record ExitAssistanceConfig (F : Type 0) : Type 0 where
  pub drive : ExperimentModule
  pub condition : ExperimentCondition
  pub context : ExitContext
  pub lc_event_id : String
  pub route : ExitRoute F
  pub navigation_trigger_distance_m : F
  pub response_timeout_s : F
  pub lateral_onset_threshold_m : F
  pub steering_onset_threshold : F
  pub assisted_execution_enabled : Bool
  pub eligibility_open_s : Option F
  pub eligibility_close_s : Option F
  pub signal_guided_exit : Bool

pub record ExitPresentation (F : Type 0) : Type 0 where
  pub lc_event_id : String
  pub navigation_text : String
  pub recommendation : Bool
  pub distance_to_exit_m : F
  pub observation_frame : Option ℕ
  pub route_point_index : ℤ
  pub signal_guided_exit : Bool

-- The indicator, of which the code compares only `right`.
pub data Indicator : Type 0 where
  off left right other : Indicator

pub record ExitObservation (F : Type 0) : Type 0 where
  pub timestamp : TimestampEnvelope
  pub route_distance_m : F
  pub lateral_offset_m : Option F
  pub road_id : Option ℤ
  pub section_id : Option ℤ
  pub lane_id : Option ℤ
  pub carla_frame : Option ℕ
  pub carla_simulation_seconds : Option F
  pub indicator : Indicator
  pub lane_width_m : F
  pub route_matched : Bool
  pub route_point_index : ℤ
  pub target_boundary_valid : Bool
  pub route_reference_distance_m : Option F
  pub route_reference_half_width_m : Option F
  pub right_lane_id : Option ℤ
