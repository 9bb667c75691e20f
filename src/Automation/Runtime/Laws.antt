-- ===== src/Automation/Runtime/Laws.antt =====
-- What a request to the runtime controller does, on every branch, the backend's failures included.
use carla.Prelude.{◌≡◌, arith}
use carla.Exec.{ok, err}
use carla.Context.{Fault, state_transition}
use carla.Automation.{
  AutomationAvailability, unavailable, DrivingControlMode, manual, noa_active, AutomationState,
  set_automation_availability, set_driving_control_mode,
}
use carla.Automation.Laws.{IsValid}
use carla.Automation.Runtime.{
  AutomationControlBackend, Runtime, request_control_mode, set_availability,
}

module _ {W : Type 0} (backend : AutomationControlBackend W) where
  -- A request for a mode that raises, itself or in the backend, leaves the committed state as it was.
  pub request_atomic :
      (mode : DrivingControlMode) (r : Runtime W) (e : Fault)
      → (request_control_mode backend mode r).0 ≡ err e
      → (request_control_mode backend mode r).1.state ≡ r.state
  unfolding request_control_mode set_driving_control_mode
  request_atomic mode r e h = ground arith

  -- A request for a mode that returns has committed the state that it returns, which has that mode
  -- and the availability from before.
  pub request_ok :
      (mode : DrivingControlMode) (r : Runtime W) (s : AutomationState)
      → (request_control_mode backend mode r).0 ≡ ok s
      → ((request_control_mode backend mode r).1.state ≡ s)
        × (s.control_mode ≡ mode)
        × (s.availability ≡ r.state.availability)
  unfolding request_control_mode set_driving_control_mode
  request_ok mode r s h = ground arith

  -- A request for a mode keeps the committed state valid, whether it returns or raises.
  pub request-IsValid :
      (mode : DrivingControlMode) (r : Runtime W)
      → IsValid r.state
      → IsValid (request_control_mode backend mode r).1.state
  unfolding request_control_mode set_driving_control_mode
  request-IsValid mode r h = ground arith

  -- So does a change of the availability.
  pub availability-IsValid :
      (a : AutomationAvailability) (r : Runtime W)
      → IsValid r.state
      → IsValid (set_availability backend a r).1.state
  unfolding set_availability set_automation_availability
  availability-IsValid a r h = ground arith

  -- From a valid state, a withdrawal of the automation that returns has committed the state that it
  -- returns, which is unavailable and manual.
  pub withdraw_manual :
      (r : Runtime W) (s : AutomationState)
      → IsValid r.state
      → (set_availability backend unavailable r).0 ≡ ok s
      → ((set_availability backend unavailable r).1.state ≡ s)
        × (s.control_mode ≡ manual)
        × (s.availability ≡ unavailable)
  unfolding set_availability set_automation_availability
  withdraw_manual r s v h = ground arith

  -- A change of the availability that raises leaves the committed state as it was.
  pub availability_atomic :
      (a : AutomationAvailability) (r : Runtime W) (e : Fault)
      → (set_availability backend a r).0 ≡ err e
      → (set_availability backend a r).1.state ≡ r.state
  unfolding set_availability set_automation_availability
  availability_atomic a r e h = ground arith

  -- A request for an automation that is not available raises, and neither the committed state nor the
  -- backend's world changes.
  pub request_refused :
      (r : Runtime W)
      → r.state.availability ≡ unavailable
      → r.state.control_mode ≡ manual
      → request_control_mode backend noa_active r ≡ (
        err (state_transition (record { availability = unavailable; control_mode = noa_active })),
        r,
      )
  unfolding request_control_mode set_driving_control_mode
  request_refused r a m = ground arith
