-- ===== src/Exit/Coordinator/Update.antt =====
-- `update` of src/experiment/exit_assistance.py: the driver's confirmation or rejection.
use carla.Prelude.{
  Bool, true, false, ◌&&◌, ◌||◌, not, Option, none, some, is_none, is_some, if◌then◌else◌,
}
use carla.Float.{Float}
use carla.Exec.{Exec, pure, raise, when, ◌>>=◌, ◌>>◌}
use carla.Context.{Fault, exit_presentation}
use carla.Automation.{AutomationState, DrivingControlMode, same_mode}
use carla.Interaction.{DriverInput}
use carla.Timestamp.{TimestampEnvelope}
use carla.Exit.{
  ExitAssistanceStatus, presented, confirmed, rejected, noresponse, completed, interrupted,
  ExitObservation,
}
use carla.Exit.Policy.{has_timed_out, is_confirmation_observation}
use carla.Exit.Coordinator.{
  Decision, no_response, confirm, reject, unavailable_driver_priority, unavailable_movement_started,
  unavailable_route, lc_mode_change, lc_decision, lc_driver_steering_onset, lc_finished,
  driver_priority_or_movement, mode_changed_after_t0, assisted_execution_blocked, Outcome, plain,
  ended, Core, Environment, Coordinator,
}
use carla.Exit.Coordinator.Emit.{core, set, on_world, emit}
use carla.Exit.Coordinator.Methods.{interrupt, fail_assisted_submission}
use carla.Exit.Coordinator.Signal.{update_signal_exit}

abbrev pub is_presented : ExitAssistanceStatus → Bool
is_presented presented = true
is_presented _ = false

abbrev pub awaits_maneuver : ExitAssistanceStatus → Bool
awaits_maneuver confirmed = true
awaits_maneuver _ = false

abbrev pub is_completed : ExitAssistanceStatus → Bool
is_completed completed = true
is_completed _ = false

-- `mode is other` for a mode that may be missing.
abbrev pub is_mode : DrivingControlMode → Option DrivingControlMode → Bool
is_mode mode none = false
is_mode mode (some other) = same_mode mode other

-- A decision, with its status and its two timestamps.
unfoldable pub decided :
    {F : Type 0}
    → ExitAssistanceStatus
    → Decision
    → TimestampEnvelope
    → TimestampEnvelope
    → Core F
    → Core F
decided status decision receipt commit c = record c {
  status = status;
  decision = some decision;
  input_timestamp = some receipt;
  decision_commit_timestamp = some commit;
}

module _ {F W : Type 0} ⦃fl : Float F⦄ (env : Environment F W) where
  open env use {config}

  unfoldable pub emit_answer :
      TimestampEnvelope → TimestampEnvelope → Exec Fault (Coordinator F W) Unit
  emit_answer receipt commit =
      emit env lc_decision commit
        (record plain { input_received = true; input_timestamp = some receipt })

  unfoldable pub refused_submission :
      Option (Exec Fault W TimestampEnvelope) → Exec Fault (Coordinator F W) Unit
  refused_submission none = raise (exit_presentation "TM submission clock is unavailable")
  refused_submission (some clock) = do
    timestamp ← on_world clock
    fail_assisted_submission env timestamp

  -- The confirmed change is handed to the route reference, or to the executor that was given.
  unfoldable pub hand_over :
      Option (Exec Fault W Bool) → ExitObservation F → Exec Fault (Coordinator F W) Unit
  unfolding refused_submission
  hand_over none observation = do
    on_world (env.arm config.route observation.route_point_index)
    set (λ c. record c { route_was_armed = true })
  hand_over (some submission) observation = do
    accepted ← on_world submission
    when (not accepted) (refused_submission env.submission_clock)

  unfoldable pub execute : TimestampEnvelope → ExitObservation F → Exec Fault (Coordinator F W) Unit
  unfolding hand_over
  execute commit observation =
      if not config.assisted_execution_enabled
      then (do
        set (λ c. record c { status = interrupted })
        emit env lc_finished commit (ended Outcome.unverified assisted_execution_blocked))
      else hand_over env.assisted_submission observation

  unfoldable pub in_confirmation : Option (ExitObservation F) → Bool
  in_confirmation none = false
  in_confirmation (some observation) = is_confirmation_observation config observation

  unfoldable pub accept :
      Option (ExitObservation F)
      → TimestampEnvelope
      → TimestampEnvelope
      → Exec Fault (Coordinator F W) Unit
  unfolding execute in_confirmation emit_answer
  accept none receipt commit = do
    set (decided interrupted unavailable_route receipt commit)
    emit_answer receipt commit
  accept (some observation) receipt commit =
      if not (is_confirmation_observation config observation)
      then (do
        set (decided interrupted unavailable_route receipt commit)
        emit_answer receipt commit)
      else (do
        set (decided confirmed confirm receipt commit)
        emit_answer receipt commit
        execute commit observation)

  -- The request to change lanes with a confirmation still to be given.
  unfoldable pub answer :
      DriverInput F → TimestampEnvelope → TimestampEnvelope → Exec Fault (Coordinator F W) Unit
  unfolding accept
  answer driver receipt commit = do
    c ← core
    if driver.exit_reject_requested
        then (do set (decided rejected reject receipt commit); emit_answer receipt commit)
        else if is_some c.lateral_timestamp
        then (do
          set (decided interrupted unavailable_movement_started receipt commit)
          emit_answer receipt commit)
        else accept c.latest_observation receipt commit

  -- Does the driver take part: the brake, the wheel, or a lane change under way?
  unfoldable pub driver_acts : DriverInput F → Bool
  driver_acts driver =
      fl.lt (fl.of_ℕ 0) driver.brake || driver.steering_engaged || driver.lane_change_in_progress

  unfoldable pub respond :
      DriverInput F
      → AutomationState
      → TimestampEnvelope
      → TimestampEnvelope
      → Bool
      → Exec Fault (Coordinator F W) Unit
  unfolding answer driver_acts
  respond driver state receipt commit fresh_request = do
    c ← core
    if is_presented c.status && driver.activation_requested && driver.steering_engaged
        then interrupt env commit driver_priority_or_movement
        else if is_presented c.status && fresh_request && driver_acts driver
        then (do
          set (decided interrupted unavailable_driver_priority receipt commit)
          emit env lc_decision commit plain)
        else if not (is_mode state.control_mode c.frozen_mode)
        then interrupt env commit mode_changed_after_t0
        else if awaits_maneuver c.status && driver_acts driver
        then interrupt env commit driver_priority_or_movement
        else when
            (fresh_request && is_presented c.status && c.recommendation_presented && c.automated)
            (answer driver receipt commit)

  -- `update` past its bookkeeping, where the exit is not signal-guided.
  unfoldable pub update_confirmation :
      DriverInput F
      → AutomationState
      → TimestampEnvelope
      → TimestampEnvelope
      → Bool
      → Exec Fault (Coordinator F W) Unit
  unfolding respond
  update_confirmation driver state receipt commit fresh_request = do
    c ← core
    if not (is_presented c.status || awaits_maneuver c.status)
        then pure tt
        else if is_presented c.status
            && c.automated
            && c.recommendation_presented
            && has_timed_out c.t0 commit config.response_timeout_s
        then (do
          set (λ c. record c {
            status = noresponse;
            decision = some no_response;
            decision_commit_timestamp = some commit;
          })
          emit env lc_decision commit plain)
        else (do
          when (driver.steering_engaged && is_none c.steering_timestamp) (do
            set (λ c. record c { steering_timestamp = some receipt })
            emit env lc_driver_steering_onset receipt plain)
          respond driver state receipt commit fresh_request)

  unfoldable pub update :
      DriverInput F
      → AutomationState
      → TimestampEnvelope
      → Option TimestampEnvelope
      → Bool
      → Exec Fault (Coordinator F W) Unit
  unfolding update_confirmation
  update driver state receipt commit_timestamp busy = do
    let commit : TimestampEnvelope = elim commit_timestamp [ none ↦ receipt | some t ↦ t ]
    let requested = driver.exit_confirm_requested || driver.exit_reject_requested
    c ← core
    when (not c.finished) (do
      set (λ c. record c { actual_mode = some state.control_mode; input_was_held = requested })
      when (is_some c.t0 && is_some c.actual_mode && not (is_mode state.control_mode c.actual_mode))
          (emit env lc_mode_change commit plain)
      if config.signal_guided_exit
          then when (is_some c.t0 && not (is_completed c.status))
              (update_signal_exit env driver state receipt commit busy)
          else update_confirmation driver state receipt commit (requested && not c.input_was_held))
