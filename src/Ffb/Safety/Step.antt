-- ===== src/Ffb/Safety/Step.antt =====
-- `step` of src/p8/ffb_safety.py, from its end to its start: each definition is what follows one of the
-- early returns.
use carla.Prelude.{true, false, ◌&&◌, ◌||◌, not, Option, none, some, is_none, String, if◌then◌else◌}
use carla.Prelude.Strings.{has_text}
use carla.Float.{Float}
use carla.Ffb.{
  manual, FfbObservation, FfbParameters, zero_parameters, min, max, is_unit, wheel_in_range,
  speed_in_range,
}
use carla.Ffb.Safety.{
  evaluating, disabled, FfbRequest, FfbLimits, FfbCommand, FfbSafety, is_disabled, is_evaluating,
  is_fault, is_closed, is_enable, is_disable, is_acknowledge, same_mode, is_known, left_context,
  left_mode, before, or_zero, since, first_of, command, fail, switch_off, stamp_problem,
}

module _ {F : Type 0} ⦃fl : Float F⦄ (limits : FfbLimits F) where
  -- `_validate_observation`.
  unfoldable pub validate_observation : FfbObservation F → F → Option String
  unfolding stamp_problem
  validate_observation sample now =
      let c = sample.context in
      if not (
        has_text c.session_id
        && has_text c.stage_id
        && has_text c.actor_id
        && has_text c.device_generation)
      then some "INVALID_CONTEXT"
      else if not sample.connected
      then some "DEVICE_DISCONNECTED"
      else if not (is_known sample.mode)
      then some "INVALID_MODE"
      else if not (wheel_in_range sample.wheel_position)
      then some "INVALID_WHEEL"
      else if not (speed_in_range sample.speed_kmh)
      then some "INVALID_SPEED"
      else first_of
          (stamp_problem now limits.wheel_max_age_s sample.wheel_observed_at
            "WHEEL_TIMESTAMP_INVALID" "WHEEL_TIMESTAMP_FUTURE" "WHEEL_STALE")
          (stamp_problem now limits.vehicle_max_age_s sample.vehicle_observed_at
            "VEHICLE_TIMESTAMP_INVALID" "VEHICLE_TIMESTAMP_FUTURE" "VEHICLE_STALE")

  unfoldable pub slew : F → F → F → F
  slew current desired dt =
      if fl.lt current desired
      then min desired (fl.add current (fl.mul limits.rise_per_second dt))
      else max desired (fl.sub current (fl.mul limits.fall_per_second dt))

  unfoldable pub slewed : FfbSafety F → FfbParameters F → F → FfbSafety F
  unfolding slew
  slewed s desired dt = record s {
    limited = record {
      spring = slew s.limited.spring desired.spring dt;
      damper = slew s.limited.damper desired.damper dt;
      center = fl.of_ℕ 0;
    };
  }

  -- The deadline of the command, and the command.
  unfoldable pub deliver : FfbSafety F → FfbObservation F → F → FfbCommand F × FfbSafety F
  unfolding command fail
  deliver s o now =
      let gap = fl.add now limits.max_update_gap_s in
      let wheel = fl.add (or_zero o.wheel_observed_at) limits.wheel_max_age_s in
      let vehicle = fl.add (or_zero o.vehicle_observed_at) limits.vehicle_max_age_s in
      let valid_until = min (min gap wheel) vehicle in
      if not (fl.is_finite valid_until)
      then fail s "INVALID_DEADLINE" now
      else command s now (some valid_until)

  -- The strength that is aimed at, and the steps towards it.
  unfoldable pub approach :
      FfbSafety F → FfbObservation F → FfbParameters F → F → F → FfbCommand F × FfbSafety F
  unfolding slewed deliver
  approach s o target now dt =
      let desired =
        if is_evaluating s.state
        then record {
          spring = min target.spring limits.max_spring;
          damper = min target.damper limits.max_damper;
          center = fl.of_ℕ 0;
        }
        else zero_parameters in
      deliver (slewed s desired dt) o now

  unfoldable pub evaluate :
      FfbSafety F
      → FfbObservation F
      → FfbParameters F
      → F
      → F
      → FfbRequest
      → FfbCommand F × FfbSafety F
  unfolding fail switch_off approach
  evaluate s o target now dt request =
      if not (
        fl.is_finite target.spring
        && is_unit target.spring
        && fl.is_finite target.damper
        && is_unit target.damper
        && fl.is_finite target.center
        && fl.eq target.center (fl.of_ℕ 0))
      then fail s "INVALID_TARGET" now
      else if is_disable request
      then approach (switch_off s "USER_DISABLED" false) o target now dt
      else if is_enable request && is_disabled s.state
      then approach
          (record s { state = evaluating; reason = "OFFLINE_ONLY"; limited = zero_parameters }) o
          target now (fl.of_ℕ 0)
      else approach s o target now dt

  unfoldable pub with_target :
      FfbSafety F
      → FfbObservation F
      → Option (FfbParameters F)
      → F
      → F
      → FfbRequest
      → FfbCommand F × FfbSafety F
  unfolding evaluate
  with_target s o none now dt request = command (switch_off s "TARGET_MISSING" true) now none
  with_target s o (some target) now dt request = evaluate s o target now dt request

  -- From the boundary on, where the state is no fault.
  unfoldable pub gate :
      FfbSafety F
      → FfbObservation F
      → Option (FfbParameters F)
      → F
      → F
      → FfbRequest
      → Option String
      → FfbCommand F × FfbSafety F
  unfolding with_target switch_off
  gate s o target now dt request (some boundary) = command (switch_off s boundary true) now none
  gate s o target now dt request none =
      if not o.session_active
      then command (switch_off s "SESSION_INACTIVE" true) now none
      else if not o.stage_active
      then command (switch_off s "STAGE_INACTIVE" true) now none
      else if not (same_mode o.mode manual)
      then command (switch_off s "NOA_POLICY_UNAPPROVED" true) now none
      else with_target s o target now dt request

  -- The fields that a valid observation leaves.
  unfoldable pub remember : FfbSafety F → FfbObservation F → FfbSafety F
  remember s o = record s {
    context = some o.context;
    mode = some o.mode;
    wheel_at = o.wheel_observed_at;
    vehicle_at = o.vehicle_observed_at;
  }

  unfoldable pub remembered :
      FfbSafety F
      → FfbObservation F
      → Option (FfbParameters F)
      → F
      → F
      → FfbRequest
      → Option String
      → FfbCommand F × FfbSafety F
  unfolding gate
  remembered s o target now dt request boundary =
      if is_fault s.state
      then (if is_acknowledge request && o.session_active && o.stage_active
          then command (record s { state = disabled; reason = "FAULT_ACKNOWLEDGED" }) now none
          else command s now none)
      else gate s o target now dt request boundary

  unfoldable pub boundary_of : FfbSafety F → FfbObservation F → Option String
  boundary_of s o =
      if left_context s.context o.context
      then some "CONTEXT_CHANGED"
      else if left_mode s.mode o.mode
      then some "MODE_CHANGED"
      else none

  unfoldable pub with_observation :
      FfbSafety F
      → FfbObservation F
      → Option (FfbParameters F)
      → F
      → F
      → FfbRequest
      → Option String
      → FfbCommand F × FfbSafety F
  unfolding fail remember remembered boundary_of
  with_observation s o target now dt request (some problem) = fail s problem now
  with_observation s o target now dt request none =
      if is_none (boundary_of s o)
        && (before o.wheel_observed_at s.wheel_at || before o.vehicle_observed_at s.vehicle_at)
      then fail s "OBSERVATION_REGRESSION" now
      else remembered (remember s o) o target now dt request (boundary_of s o)

  unfoldable pub observe :
      FfbSafety F
      → Option (FfbObservation F)
      → Option (FfbParameters F)
      → F
      → F
      → FfbRequest
      → FfbCommand F × FfbSafety F
  unfolding with_observation switch_off
  observe s none target now dt request = command (switch_off s "INPUT_MISSING" true) now none
  observe s (some o) target now dt request =
      with_observation s o target now dt request (validate_observation o now)

  unfoldable pub step :
      FfbSafety F
      → Option (FfbObservation F)
      → Option (FfbParameters F)
      → F
      → FfbRequest
      → FfbCommand F × FfbSafety F
  unfolding fail observe
  step s observation target now request =
      if is_closed s.state
      then command s (or_zero s.last_at) none
      else if not (fl.is_finite now) || fl.lt now (fl.of_ℕ 0)
      then fail s "INVALID_CLOCK" now
      else if before (some now) s.last_at
      then fail s "CLOCK_REGRESSION" now
      else (let dt = since s.last_at now in
          let s' = record s { last_at = some now } in
          if is_evaluating s.state && fl.lt limits.max_update_gap_s dt
          then fail s' "UPDATE_GAP" now
          else observe s' observation target now dt request)
