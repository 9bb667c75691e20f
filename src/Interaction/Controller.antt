-- ===== src/Interaction/Controller.antt =====
-- src/experiment/automation_interaction.py: `AutomationInteractionController`. The optional
-- diagnostics object is absent, as by default. `offered` is the list of events that were passed to
-- the event sink, the newest first: it is no field of the class, and nothing reads it.
pub mod Safety
pub mod Log
pub mod Trace
mod Tests
use carla.Prelude.{
  Bool, true, false, ◌&&◌, not, Option, none, some, if◌then◌else◌, List, [], ◌∷◌, String,
}
use carla.Float.{Float}
use carla.Exec.{Exec, pure, raise, gets, modify, when, ◌>>=◌, ◌>>◌, zoom}
use carla.Context.{
  Fault, interaction_condition, ExperimentModule, module_1, module_2, ExperimentCondition, no_surt,
  surt, noa_l2,
}
use carla.Automation.{
  AutomationAvailability, unavailable, available, DrivingControlMode, manual, noa_active,
  AutomationState, same_availability, same_mode,
}
use carla.Automation.Runtime.{
  AutomationControlBackend, Runtime, request_control_mode, set_availability,
}
use carla.Interaction.{
  ActivationFailureReason, DeactivationReason, driver_brake, driver_steering, driver_button,
  AutomationInteractionEventType, initial_state, request, transition, failure, availability,
  disengagement, AutomationInteractionEvent, AutomationInteractionConfig, DriverInput,
}
use carla.Interaction.Gate
use carla.Interaction.Gate.{Surroundings, GateState}
use carla.Interaction.Gate.Alignment.{BoundingBox}

-- The objects that the constructor is given.
pub record Environment (F W : Type 0) : Type 0 where
  pub backend : AutomationControlBackend W
  pub surroundings : Surroundings F W
  -- `SteeringOverrideTarget.set_driver_steering`, if there is a target.
  pub steering_target : Option (Option F → Exec Fault W Unit)
  pub event_sink : AutomationInteractionEvent → Exec Fault W Unit
  pub config : AutomationInteractionConfig F
  pub cache_static_bounds : Bool

pub record Controller (F W : Type 0) : Type 0 where
  pub state : AutomationState
  pub cached_bounds : Option (BoundingBox F)
  pub initialization_failure : Option ActivationFailureReason
  pub pending_driver_input : Option (DriverInput F)
  pub external_available : Bool
  pub world : W
  pub offered : List AutomationInteractionEvent

-- The keyword arguments of `_emit`, all of them optional.
abbrev pub event :
    AutomationInteractionEventType
    → Option DrivingControlMode
    → Option ActivationFailureReason
    → Option DeactivationReason
    → Option String
    → AutomationState
    → AutomationInteractionEvent
event kind mode reason deactivation stage state = record {
  event_type = kind;
  state = state;
  requested_mode = mode;
  failure_reason = reason;
  deactivation_reason = deactivation;
  stage = stage;
}

abbrev from_failure : Option ActivationFailureReason → AutomationAvailability
from_failure none = available
from_failure (some reason) = unavailable

module _ {F W : Type 0} ⦃fl : Float F⦄ (env : Environment F W) where
  open env use {config, cache_static_bounds}

  abbrev on_world : Exec Fault W Unit → Exec Fault (Controller F W) Unit
  on_world = zoom (λ c. c.world) (λ c w. record c { world = w })

  abbrev on_runtime : {A : Type 0} → Exec Fault (Runtime W) A → Exec Fault (Controller F W) A
  on_runtime =
      zoom (λ c. record { state = c.state; world = c.world })
        (λ c r. record c { state = r.state; world = r.world })

  abbrev on_gate : {A : Type 0} → Exec Fault (GateState F W) A → Exec Fault (Controller F W) A
  on_gate =
      zoom (λ c. record { cached_bounds = c.cached_bounds; world = c.world })
        (λ c g. record c { cached_bounds = g.cached_bounds; world = g.world })

  pub emit : (AutomationState → AutomationInteractionEvent) → Exec Fault (Controller F W) Unit
  unfolding ◌>>=◌ zoom
  emit of_state = do
    now ← gets (λ c. c.state)
    modify (λ c. record c { offered = of_state now ∷ c.offered })
    on_world (env.event_sink (of_state now))

  pub set_driver_steering : Option F → Exec Fault (Controller F W) Unit
  unfolding ◌>>=◌ zoom
  set_driver_steering steering = elim env.steering_target [
    | none ↦ pure tt
    | some target ↦ on_world (target steering)
  ]

  pub emit_disengagement : DeactivationReason → Option String → Exec Fault (Controller F W) Unit
  emit_disengagement reason stage = do
    emit (event transition (some manual) none (some reason) stage)
    emit (event disengagement (some manual) none (some reason) stage)

  pub disengage : DeactivationReason → Option String → Exec Fault (Controller F W) Unit
  disengage reason stage = do
    on_runtime (request_control_mode env.backend manual)
    set_driver_steering none
    emit_disengagement reason stage

  pub gate_failure :
      DriverInput F → Bool → Bool → Exec Fault (Controller F W) (Option ActivationFailureReason)
  gate_failure driver_input reuse true =
      on_gate (Gate.failure env.surroundings config cache_static_bounds driver_input reuse)
  gate_failure driver_input reuse false = pure (some ActivationFailureReason.unavailable)

  pub refresh_availability :
      DriverInput F → Bool → Exec Fault (Controller F W) (Option ActivationFailureReason)
  refresh_availability driver_input reuse_static_bounds = do
    external ← gets (λ c. c.external_available)
    reason ← gate_failure driver_input reuse_static_bounds external
    now ← gets (λ c. c.state)
    when (not (same_availability (from_failure reason) now.availability)) (do
      on_runtime (set_availability env.backend (from_failure reason))
      emit (event availability none reason none driver_input.stage))
    pure reason

  -- The end of `_request_activation_before_gate`.
  pub activate_unless :
      DriverInput F
      → Option ActivationFailureReason
      → Exec Fault (Controller F W) (Option ActivationFailureReason)
  activate_unless driver_input (some reason) = do
    emit (event failure (some noa_active) (some reason) none driver_input.stage)
    pure (some reason)
  activate_unless driver_input none = do
    on_runtime (request_control_mode env.backend noa_active)
    emit (event transition (some noa_active) none none driver_input.stage)
    pure none

  pub request_activation_before_gate :
      DriverInput F → Exec Fault (Controller F W) (Option ActivationFailureReason)
  request_activation_before_gate driver_input = do
    emit (event request (some noa_active) none none driver_input.stage)
    reason ← refresh_availability driver_input false
    activate_unless driver_input reason

  -- The override that `update` passes on at its end.
  pub override : DriverInput F → Exec Fault (Controller F W) Unit
  override driver_input = do
    now ← gets (λ c. c.state)
    set_driver_steering (
        if same_mode now.control_mode noa_active && driver_input.steering_engaged
        then some driver_input.steering
        else none)

  -- `update` in the mode `MANUAL`.
  pub update_manual : DriverInput F → Exec Fault (Controller F W) Unit
  update_manual driver_input = do
    when driver_input.activation_requested (do request_activation_before_gate driver_input; pure tt)
    now ← gets (λ c. c.state)
    if same_mode now.control_mode noa_active
          && driver_input.steering_engaged
          && config.steering_deactivation_enabled
        then disengage driver_steering driver_input.stage
        else override driver_input

  -- `update` in the mode `NOA_ACTIVE`.
  pub update_active : DriverInput F → Exec Fault (Controller F W) Unit
  update_active driver_input =
      if fl.le config.driver_brake_threshold driver_input.brake
      then disengage driver_brake driver_input.stage
      else if driver_input.steering_engaged && config.steering_deactivation_enabled
      then disengage driver_steering driver_input.stage
      else if driver_input.deactivation_requested && config.button_deactivation_enabled
      then (do
        emit (event request (some manual) none none driver_input.stage)
        disengage driver_button driver_input.stage)
      else override driver_input

  pub update : DriverInput F → Exec Fault (Controller F W) AutomationState
  update driver_input = do
    modify (λ c. record c { pending_driver_input = some driver_input })
    now ← gets (λ c. c.state)
    if same_mode now.control_mode manual
        then update_manual driver_input
        else update_active driver_input
    gets (λ c. c.state)

  -- `after_control_applied`, past the test for pending input.
  refresh_pending : Option (DriverInput F) → AutomationState → Exec Fault (Controller F W) Unit
  refresh_pending none now = pure tt
  refresh_pending (some driver_input) now =
      when (same_mode now.control_mode manual) (do refresh_availability driver_input true; pure tt)

  pub after_control_applied : Exec Fault (Controller F W) Unit
  after_control_applied = do
    driver_input ← gets (λ c. c.pending_driver_input)
    modify (λ c. record c { pending_driver_input = none })
    now ← gets (λ c. c.state)
    refresh_pending driver_input now

  -- The branch of `set_external_availability` that withdraws the automation.
  pub withdraw : DeactivationReason → Option String → Exec Fault (Controller F W) Unit
  withdraw reason stage = do
    modify (λ c. record c { external_available = false })
    previous ← gets (λ c. c.state)
    on_runtime (set_availability env.backend unavailable)
    when (same_availability previous.availability available)
        (emit (event availability none (some ActivationFailureReason.unavailable) none stage))
    when (same_mode previous.control_mode noa_active) (emit_disengagement reason stage)

  set_external :
      AutomationAvailability → DeactivationReason → Option String → Exec Fault (Controller F W) Unit
  set_external available reason stage = modify (λ c. record c { external_available = true })
  set_external unavailable reason stage = withdraw reason stage

  pub set_external_availability :
      AutomationAvailability
      → DeactivationReason
      → Option String
      → Exec Fault (Controller F W) AutomationState
  set_external_availability next reason stage = do
    set_external next reason stage
    gets (λ c. c.state)

  -- The `match` of `initialize`: is the automation activated at the start?
  activates : ExperimentModule → ExperimentCondition → Exec Fault (Controller F W) Bool
  activates module_1 no_surt = pure false
  activates module_1 surt = pure false
  activates module_2 ExperimentCondition.manual = pure false
  activates module_2 noa_l2 = pure true
  activates module' condition = raise (interaction_condition module' condition)

  -- `DriverInput(lane_change_in_progress=…, stage=…)`, the other fields at their defaults.
  initial_input : Bool → Option String → DriverInput F
  initial_input lane_change_in_progress stage = record {
    throttle = fl.of_ℕ 0;
    brake = fl.of_ℕ 0;
    steering = fl.of_ℕ 0;
    steering_engaged = false;
    hand_brake = false;
    activation_requested = false;
    deactivation_requested = false;
    exit_confirm_requested = false;
    exit_reject_requested = false;
    lane_change_direction = none;
    lane_change_in_progress = lane_change_in_progress;
    stage = stage;
  }

  pub initialize :
      ExperimentModule
      → ExperimentCondition
      → Bool
      → Option String
      → Exec Fault (Controller F W) AutomationState
  initialize module' condition in_progress stage = do
    activate ← activates module' condition
    reason ←
        if activate
        then request_activation_before_gate (initial_input in_progress stage)
        else refresh_availability (initial_input in_progress stage) false
    modify (λ c. record c { initialization_failure = if activate then reason else none })
    emit (event initial_state none none none stage)
    gets (λ c. c.state)

-- `__init__`: the fields of a new controller over the runtime's state.
pub new : {F W : Type 0} → AutomationState → W → Controller F W
new state world = record {
  state = state;
  cached_bounds = none;
  initialization_failure = none;
  pending_driver_input = none;
  external_available = same_availability state.availability available;
  world = world;
  offered = [];
}
