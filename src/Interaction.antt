-- ===== src/Interaction.antt =====
-- src/experiment/automation_interaction_types.py: what the driver does, the configuration, and the
-- events of the interaction. `F` is the type of floats.
pub mod Gate
pub mod Controller
use carla.Prelude.{Bool, true, false, Option, none, some, String}
use carla.Automation.{AutomationState, DrivingControlMode}

pub data ActivationFailureReason : Type 0 where
  unavailable geometry_unavailable invalid_geometry driver_brake_active : ActivationFailureReason
  not_centered heading_misaligned vehicle_straddling : ActivationFailureReason
  lane_change_in_progress : ActivationFailureReason

pub data DeactivationReason : Type 0 where
  driver_brake driver_steering driver_button availability_lost : DeactivationReason

pub data AutomationInteractionEventType : Type 0 where
  initial_state request transition failure availability disengagement :
      AutomationInteractionEventType

pub record AutomationInteractionEvent : Type 0 where
  pub event_type : AutomationInteractionEventType
  pub state : AutomationState
  pub requested_mode : Option DrivingControlMode
  pub failure_reason : Option ActivationFailureReason
  pub deactivation_reason : Option DeactivationReason
  pub stage : Option String

pub record AutomationInteractionConfig (F : Type 0) : Type 0 where
  pub center_tolerance_m : F
  pub heading_tolerance_rad : F
  pub driver_brake_threshold : F
  pub button_deactivation_enabled : Bool
  pub steering_deactivation_enabled : Bool
  pub require_centered_activation : Bool

pub data LaneChangeDirection : Type 0 where
  left right : LaneChangeDirection

pub record DriverInput (F : Type 0) : Type 0 where
  pub throttle : F
  pub brake : F
  pub steering : F
  pub steering_engaged : Bool
  pub hand_brake : Bool
  pub activation_requested : Bool
  pub deactivation_requested : Bool
  pub exit_confirm_requested : Bool
  pub exit_reject_requested : Bool
  pub lane_change_direction : Option LaneChangeDirection
  pub lane_change_in_progress : Bool
  pub stage : Option String
