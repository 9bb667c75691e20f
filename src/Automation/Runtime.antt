-- ===== src/Automation/Runtime.antt =====
-- src/experiment/automation_runtime.py: `AutomationRuntimeController`, which commits a state after
-- the backend has made the transition. `W` is the world that the backend acts on.
pub mod Laws
mod Tests
use carla.Prelude.{Bool, true, false, ◌≡◌, if◌then◌else◌, List, ◌∷◌}
use carla.Exec.{Result, ok, err, Exec, pure, raise, gets, lift, modify, ◌>>=◌, ◌>>◌, zoom}
use carla.Context.{Fault, state_transition}
use carla.Automation.{
  AutomationAvailability, DrivingControlMode, manual, noa_active, AutomationState,
  AutomationStateTransitionError, set_automation_availability, set_driving_control_mode, same_state,
}

-- `AutomationControlBackend`. Its methods may raise.
pub record AutomationControlBackend (W : Type 0) : Type 0 where
  pub enter_manual_control : Exec Fault W Unit
  pub enter_noa_control : Exec Fault W Unit

pub record Runtime (W : Type 0) : Type 0 where
  pub state : AutomationState
  pub world : W

abbrev or_fault :
    Result AutomationStateTransitionError AutomationState → Result Fault AutomationState
or_fault (ok s) = ok s
or_fault (err e) = err (state_transition e)

module _ {W : Type 0} (backend : AutomationControlBackend W) where
  abbrev on_world : Exec Fault W Unit → Exec Fault (Runtime W) Unit
  on_world = zoom (λ r. r.world) (λ r w. record r { world = w })

  -- The `match` of `_commit` on the old and the new mode.
  hand_over : DrivingControlMode → DrivingControlMode → Exec Fault (Runtime W) Unit
  unfolding ◌>>=◌ zoom
  hand_over manual manual = pure tt
  hand_over manual noa_active = on_world backend.enter_noa_control
  hand_over noa_active manual = on_world backend.enter_manual_control
  hand_over noa_active noa_active = pure tt

  commit : AutomationState → Exec Fault (Runtime W) AutomationState
  unfolding hand_over ◌>>=◌
  commit target_state = do
    state ← gets (λ r. r.state)
    if same_state target_state state then pure state else do
      hand_over state.control_mode target_state.control_mode
      modify (λ r. record r { state = target_state })
      pure target_state

  unfoldable pub request_control_mode : DrivingControlMode → Exec Fault (Runtime W) AutomationState
  unfolding commit
  request_control_mode control_mode = do
    state ← gets (λ r. r.state)
    target_state ← lift (or_fault (set_driving_control_mode state control_mode))
    commit target_state

  unfoldable pub set_availability : AutomationAvailability → Exec Fault (Runtime W) AutomationState
  unfolding commit
  set_availability availability = do
    state ← gets (λ r. r.state)
    target_state ← lift (or_fault (set_automation_availability state availability))
    commit target_state
