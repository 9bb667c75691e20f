-- ===== src/Exit/Coordinator/Signal.antt =====
-- src/experiment/exit_signal.py: the guidance of the signal-guided exit, the driver's signal, and the
-- one-shot selection of a branch; and src/experiment/exit_opportunity_lifecycle.py.
use carla.Prelude.{
  ℕ, ◌+◌, ◌-◌, Bool, true, false, ◌&&◌, ◌||◌, not, Option, none, some, is_none, is_some,
  if◌then◌else◌, ltb, leb, any, find?,
}
use carla.Prelude.Int.{ℤ, eqb_ℤ}
use carla.Float.{Float}
use carla.Exec.{Exec, pure, raise, when, ◌>>=◌, ◌>>◌}
use carla.Context.{Fault, external}
use carla.Automation.{AutomationState, DrivingControlMode, noa_active, same_mode}
use carla.Interaction.{DriverInput, LaneChangeDirection}
use carla.Timestamp.{TimestampEnvelope}
use carla.Exit.{noresponse, confirmed, ExitObservation}
use carla.Exit.Route.{RoutePoint}
use carla.Exit.Policy.{is_navigation_observation, has_timed_out, is_int}
use carla.Exit.Coordinator.{
  Decision, no_response, confirm, PathOutcome, RouteChoice, through, lc_decision,
  lc_guidance_closed, lc_late_indicator_ignored_for_exit, lc_route_submission_unverified,
  lc_exit_route_submitted, lc_through_route_submitted, lc_opportunity_retired,
  mode_changed_after_t0, driver_signal_priority, exit_corridor_left, WindowStatus,
  display_duration_elapsed, approach_ended, driver_left_signal, plain, Core, Environment,
  Coordinator,
}
use carla.Exit.Coordinator.Emit.{core, set, emit, is_time_closed}
use carla.Exit.Coordinator.Methods.{attempt, cancel_automatic_route, interrupt}

abbrev pub is_confirm : Option Decision → Bool
is_confirm (some confirm) = true
is_confirm _ = false

abbrev pub is_no_response : Option Decision → Bool
is_no_response (some no_response) = true
is_no_response _ = false

abbrev pub drives : Option DrivingControlMode → Bool
drives (some noa_active) = true
drives _ = false

abbrev pub is_right : Option LaneChangeDirection → Bool
is_right (some LaneChangeDirection.right) = true
is_right _ = false

abbrev pub is_left : Option LaneChangeDirection → Bool
is_left (some LaneChangeDirection.left) = true
is_left _ = false

abbrev pub took_exit : Option PathOutcome → Bool
took_exit (some PathOutcome.exit) = true
took_exit _ = false

module _ {F W : Type 0} ⦃fl : Float F⦄ (env : Environment F W) where
  open env use {config}

  -- An automation that got no answer is recorded as such.
  unfoldable pub answer_missing : TimestampEnvelope → Exec Fault (Coordinator F W) Unit
  answer_missing now = do
    c ← core
    when (is_none c.decision && drives c.actual_mode) (do
      set (λ c. record c {
        status = noresponse;
        decision = some no_response;
        decision_commit_timestamp = some now;
      })
      emit env lc_decision now plain)

  unfoldable pub close_guidance :
      TimestampEnvelope → WindowStatus → Exec Fault (Coordinator F W) Unit
  unfolding answer_missing
  close_guidance now reason = do
    c ← core
    when (is_none c.guidance_closed_timestamp) (do
      set (λ c. record c { guidance_closed_timestamp = some now; presentation = none })
      answer_missing now
      emit env lc_guidance_closed now (record plain { presentation_window_status = some reason }))

  unfoldable pub left_approach : Option (ExitObservation F) → Bool
  left_approach none = false
  left_approach (some observation) = not (is_navigation_observation config observation)

  unfoldable pub refresh_guidance : TimestampEnvelope → Exec Fault (Coordinator F W) Unit
  unfolding left_approach
  refresh_guidance now = do
    c ← core
    when (is_some c.t0 && is_none c.guidance_closed_timestamp) (
        if has_timed_out c.t0 now config.response_timeout_s
        then close_guidance now display_duration_elapsed
        else do
          closed ← is_time_closed env now
          if closed
              then close_guidance now WindowStatus.eligibility_window_closed
              else when (left_approach c.latest_observation) (close_guidance now approach_ended))

  -- `choice`, and the callback that takes it.
  unfoldable pub submit :
      RouteChoice
      → Option (Exec Fault W Bool)
      → TimestampEnvelope
      → Exec Fault (Coordinator F W) Unit
  submit choice callback now = do
    set (λ c. record c { automatic_route_armed = true; route_choice = some choice })
    accepted ← attempt callback
    if not accepted
        then (do
          set (λ c. record c { branch_failed = true })
          cancel_automatic_route env now
          emit env lc_route_submission_unverified now plain)
        else emit env
            (elim choice [
              | RouteChoice.exit ↦ lc_exit_route_submitted
              | through ↦ lc_through_route_submitted
            ])
            now plain

  -- Is the vehicle matched to the route, before the fork, on the section of the final approach?
  unfoldable pub at_branch : RoutePoint F → ExitObservation F → Bool
  at_branch point observation =
      observation.route_matched
      && not (fl.lt config.route.fork_distance_m observation.route_distance_m)
      && is_int observation.road_id point.road_id
      && is_int observation.section_id point.section_id

  unfoldable pub final_approach : Option (RoutePoint F)
  final_approach = find? (λ p. eqb_ℤ p.lane_id config.route.target_lane_id) config.route.points

  -- `next(…)` raises where the route has no such point, which the constructor of a route refuses.
  unfoldable pub branch :
      Option (RoutePoint F)
      → Core F
      → Option (ExitObservation F)
      → TimestampEnvelope
      → Exec Fault (Coordinator F W) Unit
  unfolding submit at_branch
  branch none c seen now = raise (external "StopIteration")
  branch (some point) c none now = pure tt
  branch (some point) c (some observation) now =
      if c.automatic_route_armed
        || c.branch_failed
        || took_exit c.path_outcome
        || not (at_branch point observation)
      then pure tt
      else if is_confirm c.decision && is_int observation.lane_id config.route.target_lane_id
      then submit RouteChoice.exit env.automatic_route_submission now
      else if is_no_response c.decision
      then submit through env.through_route_submission now
      else pure tt

  unfoldable pub submit_branch : TimestampEnvelope → Exec Fault (Coordinator F W) Unit
  unfolding branch final_approach
  submit_branch now = do c ← core; branch final_approach c c.latest_observation now

  -- The confirmation by the driver's right signal while the guidance is visible.
  unfoldable pub confirm_signal :
      DriverInput F → TimestampEnvelope → TimestampEnvelope → Exec Fault (Coordinator F W) Unit
  confirm_signal driver receipt now = do
    c ← core
    when
        (is_none c.decision
          && is_none c.guidance_closed_timestamp
          && driver.exit_confirm_requested
          && is_right driver.lane_change_direction)
        (do
          set (λ c. record c {
            status = confirmed;
            automated = true;
            decision = some confirm;
            input_timestamp = some receipt;
            decision_commit_timestamp = some now;
          })
          emit env lc_decision now
              (record plain { input_received = true; input_timestamp = some receipt }))

  unfoldable pub ignore_late : DriverInput F → TimestampEnvelope → Exec Fault (Coordinator F W) Unit
  ignore_late driver receipt = do
    c ← core
    when
        (is_right driver.lane_change_direction
          && is_some c.guidance_closed_timestamp
          && not (is_confirm c.decision))
        (emit env lc_late_indicator_ignored_for_exit receipt
          (record plain { input_timestamp = some receipt }))

  -- What follows a driver who leaves the controls to the automation.
  unfoldable pub follow_signal :
      DriverInput F
      → TimestampEnvelope
      → TimestampEnvelope
      → Bool
      → Exec Fault (Coordinator F W) Unit
  unfolding ignore_late confirm_signal
  follow_signal driver receipt now busy = do
    ignore_late driver receipt
    confirm_signal driver receipt now
    c ← core
    if is_confirm c.decision && is_left driver.lane_change_direction
        then (do close_guidance now driver_left_signal; interrupt env now driver_signal_priority)
        else when (not (busy || driver.lane_change_in_progress)) (submit_branch now)

  unfoldable pub update_signal_exit :
      DriverInput F
      → AutomationState
      → TimestampEnvelope
      → TimestampEnvelope
      → Bool
      → Exec Fault (Coordinator F W) Unit
  unfolding follow_signal
  update_signal_exit driver state receipt now busy = do
    refresh_guidance receipt
    if not (same_mode state.control_mode noa_active)
        then (do
          cancel_automatic_route env now
          c ← core
          when (is_confirm c.decision) (interrupt env now mode_changed_after_t0))
        else when
            (not (
              driver.activation_requested || driver.deactivation_requested
              || driver.steering_engaged))
            (follow_signal driver receipt now busy)

  -- `_exit_corridor_road_sections`: is the road and section one of the route's?
  unfoldable pub on_corridor : Option ℤ → Option ℤ → Bool
  on_corridor road section =
      any (λ p. is_int road p.road_id && is_int section p.section_id) config.route.points
      || any (λ s. is_int road s.road && is_int section s.section) config.route.exit_segments
      || any (λ s. is_int road s.road && is_int section s.section) config.route.through_segments

  unfoldable pub outside_corridor : Core F → ExitObservation F → Bool
  unfolding on_corridor
  outside_corridor c observation =
      is_some c.guidance_closed_timestamp
      && is_some observation.road_id
      && is_some observation.section_id
      && is_some observation.lane_id
      && not observation.route_matched
      && not (on_corridor observation.road_id observation.section_id)

  -- `outside_corridor_max_gap_s` is a second: does the new reading follow the last within it?
  unfoldable pub within_gap : Option ℕ → ℕ → Bool
  within_gap none now = false
  within_gap (some previous) now = leb previous now && leb (now - previous) 1_000_000_000

  -- `outside_corridor_hold_s` is two seconds.
  unfoldable pub held_long : Option ℕ → ℕ → Bool
  held_long none now = false
  held_long (some since) now = not (ltb now (since + 2_000_000_000))

  unfoldable pub retire : Core F → ExitObservation F → ℕ → Exec Fault (Coordinator F W) Unit
  unfolding outside_corridor within_gap held_long
  retire c observation now =
      if not (outside_corridor c observation)
      then set (λ c. record c { outside_exit_since_ns = none })
      else if is_none c.outside_exit_since_ns || not (within_gap c.outside_exit_last_ns now)
      then set (λ c. record c { outside_exit_since_ns = some now })
      else when (held_long c.outside_exit_since_ns now) (do
        emit env lc_opportunity_retired observation.timestamp (record plain {
          observation = some observation;
          termination_reason = some exit_corridor_left;
        })
        set (λ c. record c { maneuver_in_progress = false })
        interrupt env observation.timestamp exit_corridor_left)

  unfoldable pub retire_abandoned_exit : ExitObservation F → Exec Fault (Coordinator F W) Unit
  unfolding retire
  retire_abandoned_exit observation = do
    c ← core
    when (config.signal_guided_exit && not c.finished) (do
      set (λ c. record c { outside_exit_last_ns = some observation.timestamp.host.monotonic_ns })
      retire c observation observation.timestamp.host.monotonic_ns)
