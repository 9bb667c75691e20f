-- ===== src/Interaction/Controller/Trace.antt =====
-- The log of src/experiment/automation_interaction.py against the state, over collaborators that
-- raise nothing.
use carla.Prelude.{
  All, List, [], ◌∷◌, Bool, true, false, ◌≡◌, refl, ap, ◌∙◌, if◌then◌else◌, arith, Option, some,
  none, String, ◌&&◌,
}
use carla.Float.{Float}
use carla.Exec.{Result, ok, err, continue, ◌>>=◌, zoom}
use carla.Context.{Fault}
use carla.Automation.{
  AutomationAvailability, unavailable, available, DrivingControlMode, manual, noa_active,
  AutomationState, same_mode, set_driving_control_mode, set_automation_availability,
}
use carla.Automation.Runtime.{request_control_mode, set_availability}
use carla.Interaction.{
  ActivationFailureReason, DeactivationReason, AutomationInteractionEvent, DriverInput,
  driver_brake, driver_steering, driver_button, request, transition, availability,
  AutomationInteractionEventType,
}
use carla.Interaction.Controller.{
  Environment, Controller, event, emit, emit_disengagement, disengage, gate_failure,
  refresh_availability, activate_unless, request_activation_before_gate, override, update_manual,
  update_active, update, refresh_pending, after_control_applied, withdraw, set_external,
  set_external_availability,
}
use carla.Automation.Laws.{IsValid}
use carla.Interaction.Controller.Safety.{
  Operation, initialize_with, update_with, control_applied, external_availability, after, after_all,
  after-IsValid,
}
use carla.Interaction.Controller.Log.{IsQuiet, steering_frame, disengage_quiet, refresh_passes}

abbrev is_transition : AutomationInteractionEventType → Bool
is_transition transition = true
is_transition _ = false

abbrev mode_or_manual : Option DrivingControlMode → DrivingControlMode
mode_or_manual none = manual
mode_or_manual (some m) = m

-- The mode that a reader of the log believes in: that of the last transition.
unfoldable pub logged_mode : List AutomationInteractionEvent → DrivingControlMode
logged_mode [] = manual
logged_mode (e ∷ es) =
    let rest = logged_mode es in
    if is_transition e.event_type then mode_or_manual e.requested_mode else rest

-- The log tells the mode, and a withdrawn automation does not drive.
pub record IsFaithful {F W : Type 0} (c : Controller F W) : Type 0 where
  pub log_agrees : logged_mode c.offered ≡ c.state.control_mode
  pub withdrawn_manual : c.external_available ≡ false → c.state.control_mode ≡ manual

-- `initialize` is called once, before the drive.
abbrev pub InDrive : {F : Type 0} → Operation F → Type 0
InDrive (initialize_with m c b stage) = ⊥
InDrive _ = Unit

module _ {F W : Type 0} ⦃fl : Float F⦄ (env : Environment F W) (q : IsQuiet env) where
  refresh-IsFaithful :
      (d : DriverInput F) (reuse : Bool) (c : Controller F W)
      → c.state.control_mode ≡ manual
      → IsFaithful c
      → let c' = (refresh_availability env d reuse c).1 in
        IsFaithful c'
        × (c'.state.control_mode ≡ manual)
        × (c'.external_available ≡ c.external_available)
  unfolding refresh_availability gate_failure emit zoom ◌>>=◌ set_availability
      set_automation_availability logged_mode
  refresh-IsFaithful d reuse c m h = ground arith

  emit-IsFaithful :
      (e : AutomationState → AutomationInteractionEvent) (c : Controller F W)
      → is_transition (e c.state).event_type ≡ false
      → IsFaithful c
      → IsFaithful (emit env e c).1
        × ((emit env e c).0 ≡ ok tt)
        × ((emit env e c).1.state ≡ c.state)
        × ((emit env e c).1.external_available ≡ c.external_available)
  unfolding emit zoom ◌>>=◌ logged_mode
  emit-IsFaithful e c k h = ground (arith, q.sink_ok (e c.state) c.world)

  activate-IsFaithful :
      (d : DriverInput F) (r : Option ActivationFailureReason) (c : Controller F W)
      → c.state.control_mode ≡ manual
      → IsFaithful c
      → (r ≡ none → c.external_available ≡ true)
      → IsFaithful (activate_unless env d r c).1
  unfolding activate_unless emit zoom ◌>>=◌ request_control_mode set_driving_control_mode
      logged_mode
  activate-IsFaithful d (some r) c m h e = ground arith
  activate-IsFaithful d none c m h e = ground (arith, q.noa_ok c.world)

  after_refresh :
      (d : DriverInput F) (r : Result Fault (Option ActivationFailureReason)) (c : Controller F W)
      → c.state.control_mode ≡ manual
      → IsFaithful c
      → (r ≡ ok none → c.external_available ≡ true)
      → IsFaithful (continue r (activate_unless env d) c).1
  after_refresh d (err e) c m h a = h
  after_refresh d (ok r) c m h a = activate-IsFaithful d r c m h (λ e. a (ap ok e))

  activation-IsFaithful :
      (d : DriverInput F) (c : Controller F W)
      → c.state.control_mode ≡ manual
      → IsFaithful c
      → IsFaithful (request_activation_before_gate env d c).1
  unfolding request_activation_before_gate ◌>>=◌
  activation-IsFaithful d c m h =
      let e = event request (some noa_active) none none d.stage in
      let c1 : Controller F W = (emit env e c).1 in
      let (h1, ok1, s1, x1) = emit-IsFaithful e c refl h in
      let m1 : c1.state.control_mode ≡ manual = ground arith in
      let (h2, m2, x2) = refresh-IsFaithful d false c1 m1 h1 in
      let (r, c2) = refresh_availability env d false c1 in
      let done = after_refresh d r c2 m2 h2 (λ p. x2 ∙ (refresh_passes env d false c1 p).allowed) in
      rw ok1 done

  override-IsFaithful :
      (d : DriverInput F) (c : Controller F W) → IsFaithful c → IsFaithful (override env d c).1
  unfolding override ◌>>=◌
  override-IsFaithful d c h =
      ground (arith, steering_frame env none c, steering_frame env (some d.steering) c)

  disengage-IsFaithful :
      (r : DeactivationReason) (stage : Option String) (c : Controller F W)
      → c.state.control_mode ≡ noa_active
      → IsFaithful (disengage env r stage c).1
  unfolding logged_mode
  disengage-IsFaithful r stage c h = ground (arith, disengage_quiet env q r stage c h)

  -- What `update_manual` does once the request, if any, is dealt with.
  settle :
      (d : DriverInput F) (c : Controller F W)
      → IsFaithful c
      → IsFaithful
          ((if same_mode c.state.control_mode noa_active
                && d.steering_engaged
                && env.config.steering_deactivation_enabled
              then disengage env driver_steering d.stage
              else override env d)
            c).1
  settle d c h =
      ground (arith, disengage-IsFaithful driver_steering d.stage c, override-IsFaithful d c h)

  update_manual-IsFaithful :
      (d : DriverInput F) (c : Controller F W)
      → c.state.control_mode ≡ manual
      → IsFaithful c
      → IsFaithful (update_manual env d c).1
  unfolding update_manual ◌>>=◌
  update_manual-IsFaithful d c m h =
      let (r, c1) = request_activation_before_gate env d c in
      ground (arith, activation-IsFaithful d c m h, settle d c h, settle d c1)

  update_active-IsFaithful :
      (d : DriverInput F) (c : Controller F W)
      → c.state.control_mode ≡ noa_active
      → IsFaithful c
      → IsFaithful (update_active env d c).1
  unfolding update_active ◌>>=◌
  update_active-IsFaithful d c m h =
      let e = event request (some manual) none none d.stage in
      let (h1, ok1, s1, x1) = emit-IsFaithful e c refl h in
      let c1 : Controller F W = (emit env e c).1 in
      let m1 : c1.state.control_mode ≡ noa_active = ground arith in
      ground (
        arith,
        disengage-IsFaithful driver_brake d.stage c m,
        disengage-IsFaithful driver_steering d.stage c m,
        disengage-IsFaithful driver_button d.stage c1 m1,
        override-IsFaithful d c h,
      )

  update-IsFaithful :
      (d : DriverInput F) (c : Controller F W) → IsFaithful c → IsFaithful (update env d c).1
  unfolding update ◌>>=◌
  update-IsFaithful d c h =
      let c' : Controller F W = record c { pending_driver_input = some d } in
      ground (arith, update_manual-IsFaithful d c', update_active-IsFaithful d c')

  pending-IsFaithful :
      (d : Option (DriverInput F)) (c : Controller F W)
      → IsFaithful c
      → IsFaithful (refresh_pending env d c.state c).1
  unfolding refresh_pending ◌>>=◌
  pending-IsFaithful none c h = h
  pending-IsFaithful (some d) c h = ground (arith, refresh-IsFaithful d true c)

  after-IsFaithful :
      (c : Controller F W) → IsFaithful c → IsFaithful (after_control_applied env c).1
  unfolding after_control_applied ◌>>=◌
  after-IsFaithful c h =
      let c' : Controller F W = record c { pending_driver_input = none } in
      pending-IsFaithful c.pending_driver_input c' (ground arith)

  withdraw-IsFaithful :
      (r : DeactivationReason) (stage : Option String) (c : Controller F W)
      → IsValid c.state
      → IsFaithful c
      → IsFaithful (withdraw env r stage c).1
  unfolding withdraw emit_disengagement emit zoom ◌>>=◌ set_availability set_automation_availability
      logged_mode
  withdraw-IsFaithful r stage c v h =
      let state : AutomationState = record { availability = unavailable; control_mode = manual } in
      let lost =
        event availability none (some ActivationFailureReason.unavailable) none stage state in
      let w1 : W = (env.backend.enter_manual_control c.world).1 in
      let back = event transition (some manual) none (some r) stage state in
      ground (
        arith,
        q.manual_ok c.world,
        q.sink_ok lost c.world,
        q.sink_ok lost w1,
        q.sink_ok back w1,
        q.sink_ok back (env.event_sink lost w1).1,
      )

  external-IsFaithful :
      (a : AutomationAvailability) (r : DeactivationReason) (stage : Option String)
      (c : Controller F W)
      → IsValid c.state
      → IsFaithful c
      → IsFaithful (set_external_availability env a r stage c).1
  unfolding set_external_availability set_external ◌>>=◌
  external-IsFaithful available r stage c v h = ground arith
  external-IsFaithful unavailable r stage c v h = ground (arith, withdraw-IsFaithful r stage c v h)

  operation-IsFaithful :
      (o : Operation F) (c : Controller F W)
      → InDrive o
      → IsValid c.state
      → IsFaithful c
      → IsFaithful (after env o c)
  unfolding after
  operation-IsFaithful (initialize_with m k b stage) c i v h = absurd i
  operation-IsFaithful (update_with d) c i v h = update-IsFaithful d c h
  operation-IsFaithful control_applied c i v h = after-IsFaithful c h
  operation-IsFaithful (external_availability a r stage) c i v h =
      external-IsFaithful a r stage c v h

  -- With collaborators that raise nothing, the last transition in the log stays the mode, and a
  -- withdrawn automation stays off, through any methods but `initialize`, in any order.
  pub log-IsFaithful :
      (os : List (Operation F)) (c : Controller F W)
      → All InDrive os
      → IsValid c.state
      → IsFaithful c
      → IsFaithful (after_all env os c)
  unfolding after_all
  log-IsFaithful [] c i v h = h
  log-IsFaithful (o ∷ os) c i v h =
      log-IsFaithful os (after env o c) i.1 (after-IsValid env o c v)
        (operation-IsFaithful o c i.0 v h)
