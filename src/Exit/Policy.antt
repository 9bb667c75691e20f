-- ===== src/Exit/Policy.antt =====
-- src/experiment/exit_assistance_policy.py: the pure tests of the exit assistance.
use carla.Prelude.{
  ℕ, Bool, true, false, ◌&&◌, ◌||◌, not, Option, none, some, is_some, String, List, if◌then◌else◌,
  get_elem?,
}
use carla.Prelude.Int.{ℤ, pos, negsuc, eqb_ℤ, leb_ℤ, ltb_ℤ, sub_ℕ}
use carla.Float.{Float}
use carla.Automation.{DrivingControlMode, noa_active, same_mode}
use carla.Context.{ExperimentModule, module_1, module_2, ExperimentCondition, noa_l2}
use carla.Timestamp.{TimestampEnvelope}
use carla.Exit.{
  ExitAssistanceConfig, ExitObservation, ExitPresentation, ExitAssistanceStatus, presented,
  confirmed, rejected, noresponse,
}
use carla.Exit.Route.{
  RoutePoint, navigation_start, navigation_end, confirmation_start, confirmation_end,
}

-- `x == n` for a value that may be missing.
abbrev pub is_int : Option ℤ → ℤ → Bool
is_int none n = false
is_int (some m) n = eqb_ℤ m n

-- `points[index]`, where `0 <= index < len(points)`.
abbrev point_at : {F : Type 0} → ℤ → List (RoutePoint F) → Option (RoutePoint F)
point_at (pos i) points = get_elem? points i
point_at (negsuc i) points = none

module _ {F : Type 0} ⦃fl : Float F⦄ (config : ExitAssistanceConfig F) where
  unfoldable pub navigation_distance_m : ExitObservation F → Option F
  navigation_distance_m observation =
      let station = observation.route_distance_m in
      if not observation.route_matched
        || not (fl.is_finite station)
        || not (fl.le (fl.of_ℕ 0) station && fl.le station config.route.fork_distance_m)
      then none
      else some (fl.sub config.route.fork_distance_m station)

  -- `route.target_lane_id <= observation.lane_id < 0` on the section of the point.
  on_approach : Option (RoutePoint F) → Option ℤ → ExitObservation F → Bool
  on_approach (some point) (some lane_id) observation =
      is_int observation.road_id point.road_id
      && is_int observation.section_id point.section_id
      && leb_ℤ config.route.target_lane_id lane_id
      && ltb_ℤ lane_id (pos 0)
  on_approach _ _ observation = false

  unfoldable pub guidance_approach_lane : ExitObservation F → Bool
  unfolding on_approach
  guidance_approach_lane observation =
      on_approach (point_at observation.route_point_index config.route.points) observation.lane_id
        observation

  unfoldable pub is_navigation_observation : ExitObservation F → Bool
  is_navigation_observation observation =
      is_some (navigation_distance_m observation)
      && (if config.signal_guided_exit
          then guidance_approach_lane observation
          else is_int observation.lane_id config.route.source_lane_id)
      && fl.le (navigation_start config.route) observation.route_distance_m
      && fl.le observation.route_distance_m (navigation_end config.route)

  unfoldable pub is_confirmation_observation : ExitObservation F → Bool
  is_confirmation_observation observation =
      is_navigation_observation observation
      && fl.le (confirmation_start config.route) observation.route_distance_m
      && fl.le observation.route_distance_m (confirmation_end config.route)

  module_branch : ExperimentModule → ExperimentCondition → DrivingControlMode → Bool
  module_branch module_1 condition mode = same_mode mode noa_active
  module_branch module_2 noa_l2 mode = same_mode mode noa_active
  module_branch module_2 _ mode = false

  unfoldable pub is_automated_branch : DrivingControlMode → Bool
  unfolding module_branch
  is_automated_branch mode =
      if config.signal_guided_exit
      then same_mode mode noa_active
      else module_branch config.drive config.condition mode

  -- `text` formats the distance in kilometres, for the signal-guided exit or the other.
  unfoldable pub draft_presentation :
      (Bool → F → String) → F → Bool → Option ℕ → ℤ → ExitPresentation F
  draft_presentation text remaining_m recommendation observation_frame route_point_index =
      let distance_m = if fl.lt remaining_m (fl.of_ℕ 0) then fl.of_ℕ 0 else remaining_m in
      record {
        lc_event_id = config.lc_event_id;
        navigation_text = text config.signal_guided_exit (fl.div distance_m (fl.of_ℕ 1000));
        recommendation = recommendation;
        distance_to_exit_m = distance_m;
        observation_frame = observation_frame;
        route_point_index = route_point_index;
        signal_guided_exit = config.signal_guided_exit;
      }

unfoldable pub has_timed_out :
    {F : Type 0} ⦃fl : Float F⦄ → Option TimestampEnvelope → TimestampEnvelope → F → Bool
has_timed_out none timestamp timeout_s = false
has_timed_out ⦃fl⦄ (some t0) timestamp timeout_s =
    fl.le_ℤ (fl.mul timeout_s (fl.of_ℕ 1_000_000_000))
      (sub_ℕ timestamp.host.monotonic_ns t0.host.monotonic_ns)

unfoldable pub lane_change_is_in_progress : ExitAssistanceStatus → Bool → Bool
lane_change_is_in_progress confirmed maneuver_in_progress = true
lane_change_is_in_progress presented maneuver_in_progress = maneuver_in_progress
lane_change_is_in_progress rejected maneuver_in_progress = maneuver_in_progress
lane_change_is_in_progress noresponse maneuver_in_progress = maneuver_in_progress
lane_change_is_in_progress _ maneuver_in_progress = false
