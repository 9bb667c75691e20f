-- ===== src/Automation.antt =====
-- src/experiment/automation.py: the availability of the automation, who drives, and the pure
-- transitions between the states.
pub mod Laws
pub mod Runtime
use carla.Prelude.{Bool, true, false, ◌&&◌}
use carla.Exec.{Result, ok, err}

pub data AutomationAvailability : Type 0 where
  unavailable available : AutomationAvailability

pub data DrivingControlMode : Type 0 where
  manual noa_active : DrivingControlMode

-- `is` on the members of an enumeration.
abbrev pub same_availability : AutomationAvailability → AutomationAvailability → Bool
same_availability unavailable unavailable = true
same_availability available available = true
same_availability _ _ = false

abbrev pub same_mode : DrivingControlMode → DrivingControlMode → Bool
same_mode manual manual = true
same_mode noa_active noa_active = true
same_mode _ _ = false

pub record AutomationState : Type 0 where
  pub availability : AutomationAvailability
  pub control_mode : DrivingControlMode

pub record AutomationStateTransitionError : Type 0 where
  pub availability : AutomationAvailability
  pub control_mode : DrivingControlMode

-- The class's `__post_init__`: the state, or the error that the constructor raises.
unfoldable pub post_init :
    AutomationAvailability
    → DrivingControlMode
    → Result AutomationStateTransitionError AutomationState
post_init available mode = ok (record { availability = available; control_mode = mode })
post_init unavailable manual = ok (record { availability = unavailable; control_mode = manual })
post_init unavailable noa_active =
    err (record { availability = unavailable; control_mode = noa_active })

-- The `match` on the old and the new availability.
abbrev availability_case :
    AutomationState
    → AutomationAvailability
    → AutomationAvailability
    → Result AutomationStateTransitionError AutomationState
availability_case state unavailable unavailable = ok state
availability_case state available available = ok state
availability_case state unavailable available = post_init available manual
availability_case state available unavailable = post_init unavailable manual

unfoldable pub set_automation_availability :
    AutomationState → AutomationAvailability → Result AutomationStateTransitionError AutomationState
unfolding post_init
set_automation_availability state availability =
    availability_case state state.availability availability

abbrev mode_case :
    AutomationState
    → DrivingControlMode
    → DrivingControlMode
    → Result AutomationStateTransitionError AutomationState
mode_case state manual manual = ok state
mode_case state noa_active noa_active = ok state
mode_case state manual noa_active = post_init state.availability noa_active
mode_case state noa_active manual = post_init state.availability manual

unfoldable pub set_driving_control_mode :
    AutomationState → DrivingControlMode → Result AutomationStateTransitionError AutomationState
unfolding post_init
set_driving_control_mode state control_mode = mode_case state state.control_mode control_mode

-- `is` between a state and what a transition returned: the transitions return the same object where
-- nothing changes, and else one that differs in a field.
abbrev pub same_state : AutomationState → AutomationState → Bool
same_state s t =
    same_availability s.availability t.availability && same_mode s.control_mode t.control_mode
