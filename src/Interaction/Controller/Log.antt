-- ===== src/Interaction/Controller/Log.antt =====
-- Activation and disengagement in src/experiment/automation_interaction.py, and their events.
use carla.Prelude.{◌∷◌, Bool, true, false, ◌≡◌, arith, Option, some, none, String}
use carla.Float.{Float}
use carla.Exec.{ok, ◌>>=◌, zoom}
use carla.Automation.{
  manual, noa_active, AutomationState, set_driving_control_mode, set_automation_availability,
}
use carla.Automation.Runtime.{request_control_mode, set_availability}
use carla.Interaction.{
  DeactivationReason, AutomationInteractionEvent, AutomationInteractionConfig, DriverInput,
  driver_brake, request, transition, disengagement,
}
use carla.Interaction.Gate
use carla.Interaction.Gate.{Surroundings, GateState}
use carla.Interaction.Controller.{
  Environment, Controller, event, emit, set_driver_steering, emit_disengagement, disengage,
  gate_failure, refresh_availability, activate_unless, request_activation_before_gate, override,
  update_manual, update_active, update,
}

-- The gate lets nothing pass while the driver brakes or the vehicle changes lanes.
gate_passes :
    {F W : Type 0} ⦃fl : Float F⦄ (s : Surroundings F W) (config : AutomationInteractionConfig F)
    (cache : Bool) (d : DriverInput F) (reuse : Bool) (g : GateState F W)
    → (Gate.failure s config cache d reuse g).0 ≡ ok none
    → (fl.le config.driver_brake_threshold d.brake ≡ false) × (d.lane_change_in_progress ≡ false)
unfolding Gate.failure
gate_passes s config cache d reuse g h = ground arith

module _ {F W : Type 0} ⦃fl : Float F⦄ (env : Environment F W) where
  open env use {config, cache_static_bounds}

  pub record MayActivate (d : DriverInput F) (c : Controller F W) : Type 0 where
    pub brake_released : fl.le config.driver_brake_threshold d.brake ≡ false
    pub in_lane : d.lane_change_in_progress ≡ false
    pub allowed : c.external_available ≡ true

  pub refresh_passes :
      (d : DriverInput F) (reuse : Bool) (c : Controller F W)
      → (refresh_availability env d reuse c).0 ≡ ok none
      → MayActivate d c
  unfolding refresh_availability gate_failure zoom ◌>>=◌
  refresh_passes d reuse c h = ground (
    arith,
    gate_passes env.surroundings config cache_static_bounds d reuse
        (record { cached_bounds = c.cached_bounds; world = c.world }),
  )

  -- Refreshing the availability never hands the vehicle to the automation.
  refresh_manual :
      (d : DriverInput F) (reuse : Bool) (c : Controller F W)
      → c.state.control_mode ≡ manual
      → (refresh_availability env d reuse c).1.state.control_mode ≡ manual
  unfolding refresh_availability gate_failure emit zoom ◌>>=◌ set_availability
      set_automation_availability
  refresh_manual d reuse c h = ground arith

  activation_facts :
      (d : DriverInput F) (c : Controller F W)
      → c.state.control_mode ≡ manual
      → (request_activation_before_gate env d c).1.state.control_mode ≡ noa_active
      → MayActivate d c
  unfolding request_activation_before_gate activate_unless emit zoom ◌>>=◌ request_control_mode
      set_driving_control_mode
  activation_facts d c h k =
      let c' : Controller F W =
        (emit env (event request (some noa_active) none none d.stage) c).1 in
      ground (arith, refresh_passes d false c', refresh_manual d false c')

  -- An update that leaves the driver's control had the driver's request, with the brake released, the
  -- vehicle in its lane and the automation not withdrawn, whatever the collaborators did.
  pub update_activates :
      (d : DriverInput F) (c : Controller F W)
      → c.state.control_mode ≡ manual
      → (update env d c).1.state.control_mode ≡ noa_active
      → (d.activation_requested ≡ true)
        × (fl.le env.config.driver_brake_threshold d.brake ≡ false)
        × (d.lane_change_in_progress ≡ false)
        × (c.external_available ≡ true)
  unfolding update update_manual override disengage emit_disengagement set_driver_steering emit zoom
      ◌>>=◌ request_control_mode set_driving_control_mode
  update_activates d c h k =
      let c' : Controller F W = record c { pending_driver_input = some d } in
      ground (arith, activation_facts d c')

  -- Collaborators that raise nothing.
  pub record IsQuiet : Type 0 where
    pub manual_ok : (w : W) → (env.backend.enter_manual_control w).0 ≡ ok tt
    pub noa_ok : (w : W) → (env.backend.enter_noa_control w).0 ≡ ok tt
    pub sink_ok : (e : AutomationInteractionEvent) (w : W) → (env.event_sink e w).0 ≡ ok tt
    pub steering_ok : (v : Option F) (c : Controller F W) → (set_driver_steering env v c).0 ≡ ok tt

  -- `set_driver_steering` touches the world alone.
  pub steering_frame :
      (v : Option F) (c : Controller F W)
      → ((set_driver_steering env v c).1.state ≡ c.state)
        × ((set_driver_steering env v c).1.offered ≡ c.offered)
        × ((set_driver_steering env v c).1.external_available ≡ c.external_available)
  unfolding set_driver_steering zoom
  steering_frame v c = ground arith

  abbrev pub given_back : AutomationState → AutomationState
  given_back s = record s { control_mode = manual }

  pub disengage_quiet :
      (q : IsQuiet) (r : DeactivationReason) (stage : Option String) (c : Controller F W)
      → c.state.control_mode ≡ noa_active
      → let (result, c') = disengage env r stage c in
        (result ≡ ok tt)
        × (c'.state ≡ given_back c.state)
        × (c'.offered
            ≡ event disengagement (some manual) none (some r) stage (given_back c.state)
              ∷ event transition (some manual) none (some r) stage (given_back c.state)
              ∷ c.offered)
        × (c'.external_available ≡ c.external_available)
  unfolding disengage emit_disengagement emit zoom ◌>>=◌ request_control_mode
      set_driving_control_mode
  disengage_quiet q r stage c h =
      let w1 : W = (env.backend.enter_manual_control c.world).1 in
      let c1 : Controller F W = record c { state = given_back c.state; world = w1 } in
      let c2 : Controller F W = (set_driver_steering env none c1).1 in
      let e1 = event transition (some manual) none (some r) stage c2.state in
      let e2 = event disengagement (some manual) none (some r) stage c2.state in
      ground (
        arith,
        q.manual_ok c.world,
        q.steering_ok none c1,
        steering_frame none c1,
        q.sink_ok e1 c2.world,
        q.sink_ok e2 (env.event_sink e1 c2.world).1,
      )

  -- The events and the state that a disengagement for the reason `r` leaves.
  pub record IsDisengaged (r : DeactivationReason) (stage : Option String) (c c' : Controller F W)
      : Type 0 where
    pub mode : c'.state.control_mode ≡ manual
    pub kept : c'.state.availability ≡ c.state.availability
    pub logged :
        c'.offered
        ≡ event disengagement (some manual) none (some r) stage c'.state
          ∷ event transition (some manual) none (some r) stage c'.state
          ∷ c.offered

  -- While the automation drives, a brake at the threshold takes the vehicle back in that same update,
  -- whatever else the driver does, and logs just that.
  pub brake_disengages :
      (q : IsQuiet) (d : DriverInput F) (c : Controller F W)
      → c.state.control_mode ≡ noa_active
      → fl.le env.config.driver_brake_threshold d.brake ≡ true
      → ((update env d c).0 ≡ ok (update env d c).1.state)
        × IsDisengaged driver_brake d.stage c (update env d c).1
  unfolding update update_active ◌>>=◌
  brake_disengages q d c h b =
      let c' : Controller F W = record c { pending_driver_input = some d } in
      ground (arith, disengage_quiet q driver_brake d.stage c' h)
