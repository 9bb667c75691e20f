-- ===== src/Interaction/Controller/Safety.antt =====
-- Runs of the methods of src/experiment/automation_interaction.py, whatever the collaborators do.
use carla.Prelude.{List, [], ◌∷◌, Bool, true, false, arith, Option, some, none, String}
use carla.Float.{Float}
use carla.Exec.{pure, modify, zoom}
use carla.Exec.Frame.{IsPreorder, Moves, Moves-modify, moves_rules}
use carla.Context.{Fault, ExperimentModule, ExperimentCondition, module_1, module_2}
use carla.Automation.{
  AutomationAvailability, unavailable, available, DrivingControlMode, AutomationState,
}
use carla.Automation.Laws.{IsValid}
use carla.Automation.Runtime.{request_control_mode, set_availability}
use carla.Automation.Runtime.Laws.{request-IsValid, availability-IsValid}
use carla.Interaction.{
  ActivationFailureReason, DeactivationReason, AutomationInteractionEvent, DriverInput,
}
use carla.Interaction.Controller.{
  Environment, Controller, on_runtime, emit, set_driver_steering, emit_disengagement, disengage,
  gate_failure, refresh_availability, activate_unless, request_activation_before_gate, override,
  update_manual, update_active, update, refresh_pending, after_control_applied, withdraw,
  set_external, set_external_availability, activates, initialize,
}

-- The state stays valid.
KeepsValid : {F W : Type 0} → Controller F W → Controller F W → Type 0
KeepsValid c c' = IsValid c.state → IsValid c'.state

instance KeepsValid-IsPreorder : {F W : Type 0} → IsPreorder (KeepsValid {F = F} {W = W})
unfolding KeepsValid
KeepsValid-IsPreorder = record { refl_at = λ s h. h; trans_at = λ s t u p q h. q (p h) }

module _ {F W : Type 0} ⦃fl : Float F⦄ (env : Environment F W) where
  emit-KeepsValid :
      (e : AutomationState → AutomationInteractionEvent) → Moves KeepsValid (emit env e)
  unfolding emit KeepsValid
  emit-KeepsValid e = record { at = λ s h. h }

  steering-KeepsValid : (v : Option F) → Moves KeepsValid (set_driver_steering env v)
  unfolding set_driver_steering KeepsValid
  steering-KeepsValid v = record { at = λ s h. ground arith }

  request-KeepsValid :
      (m : DrivingControlMode)
      → Moves KeepsValid (on_runtime env (request_control_mode env.backend m))
  unfolding zoom KeepsValid
  request-KeepsValid m = record { at = λ s h. request-IsValid env.backend m _ h }

  availability-KeepsValid :
      (a : AutomationAvailability)
      → Moves KeepsValid (on_runtime env (set_availability env.backend a))
  unfolding zoom KeepsValid
  availability-KeepsValid a = record { at = λ s h. availability-IsValid env.backend a _ h }

  gate-KeepsValid :
      (d : DriverInput F) (reuse external : Bool)
      → Moves KeepsValid (gate_failure env d reuse external)
  unfolding gate_failure zoom pure KeepsValid
  gate-KeepsValid d reuse true = record { at = λ s h. h }
  gate-KeepsValid d reuse false = record { at = λ s h. h }

  ruleset base = (
    moves_rules, emit-KeepsValid, steering-KeepsValid, request-KeepsValid, availability-KeepsValid,
    gate-KeepsValid,
  )

  refresh-KeepsValid :
      (d : DriverInput F) (reuse : Bool) → Moves KeepsValid (refresh_availability env d reuse)
  unfolding refresh_availability
  refresh-KeepsValid d reuse = search base depth 12

  activate-KeepsValid :
      (d : DriverInput F) (r : Option ActivationFailureReason)
      → Moves KeepsValid (activate_unless env d r)
  unfolding activate_unless
  activate-KeepsValid d (some r) = search base depth 12
  activate-KeepsValid d none = search base depth 12

  disengage-KeepsValid :
      (r : DeactivationReason) (stage : Option String) → Moves KeepsValid (disengage env r stage)
  unfolding disengage emit_disengagement
  disengage-KeepsValid r stage = search base depth 12

  activation-KeepsValid :
      (d : DriverInput F) → Moves KeepsValid (request_activation_before_gate env d)
  unfolding request_activation_before_gate
  activation-KeepsValid d = search (base, refresh-KeepsValid, activate-KeepsValid) depth 12

  override-KeepsValid : (d : DriverInput F) → Moves KeepsValid (override env d)
  unfolding override
  override-KeepsValid d = search base depth 12

  update_manual-KeepsValid : (d : DriverInput F) → Moves KeepsValid (update_manual env d)
  unfolding update_manual
  update_manual-KeepsValid d =
      search (base, activation-KeepsValid, override-KeepsValid, disengage-KeepsValid) depth 12

  update_active-KeepsValid : (d : DriverInput F) → Moves KeepsValid (update_active env d)
  unfolding update_active
  update_active-KeepsValid d = search (base, override-KeepsValid, disengage-KeepsValid) depth 12

  pending-KeepsValid :
      (d : Option (DriverInput F))
      → Moves KeepsValid
          (modify {E = Fault} (λ (c : Controller F W). record c { pending_driver_input = d }))
  unfolding KeepsValid
  pending-KeepsValid d = Moves-modify _ (λ s h. h)

  update-KeepsValid : (d : DriverInput F) → Moves KeepsValid (update env d)
  unfolding update
  update-KeepsValid d =
      search (base, pending-KeepsValid, update_manual-KeepsValid, update_active-KeepsValid) depth 12

  refresh_pending-KeepsValid :
      (d : Option (DriverInput F)) (s : AutomationState)
      → Moves KeepsValid (refresh_pending env d s)
  unfolding refresh_pending
  refresh_pending-KeepsValid none s = search base
  refresh_pending-KeepsValid (some d) s = search (base, refresh-KeepsValid) depth 12

  after-KeepsValid : Moves KeepsValid (after_control_applied env)
  unfolding after_control_applied
  after-KeepsValid = search (base, pending-KeepsValid, refresh_pending-KeepsValid) depth 12

  external-KeepsValid :
      (b : Bool)
      → Moves KeepsValid
          (modify {E = Fault} (λ (c : Controller F W). record c { external_available = b }))
  unfolding KeepsValid
  external-KeepsValid b = Moves-modify _ (λ s h. h)

  set_external-KeepsValid :
      (a : AutomationAvailability) (r : DeactivationReason) (stage : Option String)
      → Moves KeepsValid (set_external env a r stage)
  unfolding set_external withdraw emit_disengagement
  set_external-KeepsValid available r stage = external-KeepsValid true
  set_external-KeepsValid unavailable r stage = search (base, external-KeepsValid) depth 16

  availability_op-KeepsValid :
      (a : AutomationAvailability) (r : DeactivationReason) (stage : Option String)
      → Moves KeepsValid (set_external_availability env a r stage)
  unfolding set_external_availability
  availability_op-KeepsValid a r stage = search (base, set_external-KeepsValid) depth 12

  activates-KeepsValid :
      (m : ExperimentModule) (c : ExperimentCondition) → Moves KeepsValid (activates env m c)
  unfolding activates
  activates-KeepsValid module_1 ExperimentCondition.no_surt = search base
  activates-KeepsValid module_1 ExperimentCondition.surt = search base
  activates-KeepsValid module_1 ExperimentCondition.manual = search base
  activates-KeepsValid module_1 ExperimentCondition.noa_l2 = search base
  activates-KeepsValid module_2 ExperimentCondition.no_surt = search base
  activates-KeepsValid module_2 ExperimentCondition.surt = search base
  activates-KeepsValid module_2 ExperimentCondition.manual = search base
  activates-KeepsValid module_2 ExperimentCondition.noa_l2 = search base

  failure_field-KeepsValid :
      (r : Option ActivationFailureReason)
      → Moves KeepsValid
          (modify {E = Fault} (λ (c : Controller F W). record c { initialization_failure = r }))
  unfolding KeepsValid
  failure_field-KeepsValid r = Moves-modify _ (λ s h. h)

  initialize-KeepsValid :
      (m : ExperimentModule) (c : ExperimentCondition) (b : Bool) (stage : Option String)
      → Moves KeepsValid (initialize env m c b stage)
  unfolding initialize
  initialize-KeepsValid m c b stage =
      search
        (
          base, activates-KeepsValid, failure_field-KeepsValid, activation-KeepsValid,
          refresh-KeepsValid,
        )
        depth 14

-- What the program may do with a controller: its public methods, returned or raised.
pub data Operation (F : Type 0) : Type 0 where
  initialize_with : ExperimentModule → ExperimentCondition → Bool → Option String → Operation F
  update_with : DriverInput F → Operation F
  control_applied : Operation F
  external_availability : AutomationAvailability → DeactivationReason → Option String → Operation F

module _ {F W : Type 0} ⦃fl : Float F⦄ (env : Environment F W) where
  unfoldable pub after : Operation F → Controller F W → Controller F W
  after (initialize_with m c b stage) s = (initialize env m c b stage s).1
  after (update_with d) s = (update env d s).1
  after control_applied s = (after_control_applied env s).1
  after (external_availability a r stage) s = (set_external_availability env a r stage s).1

  unfoldable pub after_all : List (Operation F) → Controller F W → Controller F W
  after_all [] s = s
  after_all (o ∷ os) s = after_all os (after o s)

  pub after-IsValid :
      (o : Operation F) (s : Controller F W) → IsValid s.state → IsValid (after o s).state
  unfolding after KeepsValid
  after-IsValid (initialize_with m c b stage) s = (initialize-KeepsValid env m c b stage).at s
  after-IsValid (update_with d) s = (update-KeepsValid env d).at s
  after-IsValid control_applied s = (after-KeepsValid env).at s
  after-IsValid (external_availability a r stage) s =
      (availability_op-KeepsValid env a r stage).at s

  -- After any methods, in any order and whatever raised on the way, only an available automation
  -- drives.
  pub after_all-IsValid :
      (os : List (Operation F)) (s : Controller F W)
      → IsValid s.state
      → IsValid (after_all os s).state
  unfolding after_all
  after_all-IsValid [] s h = h
  after_all-IsValid (o ∷ os) s h = after_all-IsValid os (after o s) (after-IsValid o s h)
