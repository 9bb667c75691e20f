-- ===== src/Exit/Coordinator/Observation/Evidence.antt =====
-- The second half of `observe_exit` of src/experiment/exit_assistance_observation.py: the maneuver,
-- the path taken, and the completion of a presented opportunity.
use carla.Prelude.{
  Bool, true, false, ◌&&◌, ◌||◌, not, Option, none, some, is_none, is_some, if◌then◌else◌, any,
  last?, List,
}
use carla.Prelude.Int.{ℤ, eqb_ℤ}
use carla.Float.{Float}
use carla.Exec.{Exec, when, ◌>>=◌, ◌>>◌}
use carla.Context.{Fault}
use carla.Exit.{ExitAssistanceConfig, completed, ExitObservation, Indicator}
use carla.Exit.Route.{ExitRoute, Segment}
use carla.Exit.Policy.{is_int}
use carla.Exit.Coordinator.{
  manual_change_observed_proxy, manual_nochange, PathOutcome, path, exit_entry_observed,
  lc_lateral_reference_invalidated, lc_lateral_reference_acquired, lc_maneuver_start,
  lc_indicator_onset, lc_boundary_crossing, lc_exit_entry_observed, lc_completed, plain, seen, Core,
  Environment, Coordinator,
}
use carla.Exit.Coordinator.Emit.{core, set, emit}
use carla.Exit.Coordinator.Methods.{cancel_automatic_route, disarm, is_waiting}
use carla.Exit.Coordinator.Presentation.{is_draft}
use carla.Exit.Coordinator.Signal.{retire_abandoned_exit, took_exit}
use carla.Exit.Coordinator.Update.{is_completed}

abbrev pub is_right_indicator : Indicator → Bool
is_right_indicator Indicator.right = true
is_right_indicator _ = false

abbrev pub missed_path : Option PathOutcome → Bool
missed_path (some PathOutcome.missed) = true
missed_path _ = false

abbrev pub same_option : Option ℤ → Option ℤ → Bool
same_option none none = true
same_option (some a) (some b) = eqb_ℤ a b
same_option _ _ = false

unfoldable pub same_segment : Segment → Segment → Bool
same_segment s t = eqb_ℤ s.road t.road && eqb_ℤ s.section t.section && eqb_ℤ s.lane t.lane

-- `==` on optional identities.
unfoldable pub same_place : Option Segment → Option Segment → Bool
unfolding same_segment
same_place none none = true
same_place (some s) (some t) = same_segment s t
same_place _ _ = false

-- The identity of the observed lane; a part that is missing is in no segment list.
unfoldable pub place_of : Option ℤ → Option ℤ → Option ℤ → Option Segment
place_of (some road) (some section) (some lane) =
    some (record { road = road; section = section; lane = lane })
place_of _ _ _ = none

unfoldable pub within : Option Segment → List Segment → Bool
unfolding same_place
within s segments = any (λ t. same_place s (some t)) segments

module _ {F : Type 0} ⦃fl : Float F⦄ where
  unfoldable pub place : ExitObservation F → Option Segment
  unfolding place_of
  place o = place_of o.road_id o.section_id o.lane_id

  unfoldable pub beyond : Option F → Option F → Bool
  beyond (some distance) (some half_width) = fl.lt half_width distance
  beyond _ _ = false

  -- On a through segment, and off the reference by more than half its width.
  unfoldable pub separated_through : ExitAssistanceConfig F → ExitObservation F → Bool
  unfolding within place beyond
  separated_through config o =
      within (place o) config.route.through_segments
      && beyond o.route_reference_distance_m o.route_reference_half_width_m

  unfoldable pub physical_identity : ExitAssistanceConfig F → ExitObservation F → Option Segment
  unfolding separated_through
  physical_identity config o =
      if within (place o) config.route.exit_segments || separated_through config o
      then place o
      else none

  unfoldable pub reference_changed : Option (ExitObservation F) → ExitObservation F → Bool
  reference_changed none o = false
  reference_changed (some p) o =
      not (same_option o.road_id p.road_id)
      || not (same_option o.section_id p.section_id)
      || not (fl.eq o.lane_width_m p.lane_width_m)

  unfoldable pub geometry_valid : ExitObservation F → Bool
  geometry_valid o = o.target_boundary_valid && is_some o.lateral_offset_m

  -- `lateral - baseline >= threshold`, where both are known.
  unfoldable pub moved_by : F → Option F → Option F → Bool
  moved_by threshold (some lateral) (some baseline) = fl.le threshold (fl.sub lateral baseline)
  moved_by threshold _ _ = false

  -- `previous < boundary <= lateral`, where both are known.
  unfoldable pub crosses : F → Option F → Option F → Bool
  crosses boundary (some previous) (some lateral) =
      fl.lt previous boundary && fl.le boundary lateral
  crosses boundary _ _ = false

  -- `route.points[-1].distance_m`, if no completion distance is given.
  unfoldable pub completion_distance : ExitRoute F → Option F
  completion_distance route = elim route.completion_distance_m [
    | some d ↦ some d
    | none ↦ elim (last? route.points) [ none ↦ none | some p ↦ some p.distance_m ]
  ]

  unfoldable pub passed : Option F → ExitObservation F → Bool
  passed none o = false
  passed (some completion) o =
      o.route_matched && fl.is_finite o.route_distance_m && fl.le completion o.route_distance_m

  unfoldable pub terminal_exit : ExitRoute F → ExitObservation F → Bool
  terminal_exit route o =
      is_some (last? route.exit_segments) && same_place (place o) (last? route.exit_segments)

-- The fields at the start of a maneuver; the driver's own is the decision.
unfoldable pub begin_maneuver : {F : Type 0} → ExitObservation F → Core F → Core F
begin_maneuver o c =
    if c.automated
    then record c { lateral_timestamp = some o.timestamp; maneuver_in_progress = true }
    else record c {
      lateral_timestamp = some o.timestamp;
      maneuver_in_progress = true;
      decision = some manual_change_observed_proxy;
      observed_proxy_timestamp = some o.timestamp;
    }

module _ {F W : Type 0} ⦃fl : Float F⦄ (env : Environment F W) where
  open env use {config}

  unfoldable pub observe_reference :
      Option (ExitObservation F) → ExitObservation F → Exec Fault (Coordinator F W) Unit
  observe_reference previous o = do
    c ← core
    when (not (geometry_valid o) || reference_changed previous o) (do
      when (is_some c.baseline_lateral_m)
          (emit env lc_lateral_reference_invalidated o.timestamp (seen o))
      set (λ c. record c { baseline_lateral_m = none; previous_lateral_m = none }))
    c' ← core
    when (geometry_valid o && is_none c'.baseline_lateral_m) (do
      set (λ c. record c {
        baseline_lateral_m = o.lateral_offset_m;
        previous_lateral_m = o.lateral_offset_m;
      })
      emit env lc_lateral_reference_acquired o.timestamp (seen o))

  unfoldable pub observe_start : ExitObservation F → Exec Fault (Coordinator F W) Unit
  unfolding moved_by
  observe_start o = do
    c ← core
    when
        (is_none c.lateral_timestamp
          && geometry_valid o
          && moved_by config.lateral_onset_threshold_m o.lateral_offset_m c.baseline_lateral_m)
        (do
          set (begin_maneuver o)
          emit env lc_maneuver_start o.timestamp
              (record plain { observed_proxy = not c.automated; observation = some o }))

  unfoldable pub observe_indicator : ExitObservation F → Exec Fault (Coordinator F W) Unit
  observe_indicator o = do
    c ← core
    when
        (is_none c.indicator_timestamp
          && not (is_waiting c.status || is_draft c.status)
          && not (is_right_indicator c.previous_indicator)
          && is_right_indicator o.indicator)
        (do
          set (λ c. record c { indicator_timestamp = some o.timestamp })
          emit env lc_indicator_onset o.timestamp (seen o))
    set (λ c. record c { previous_indicator = o.indicator })

  unfoldable pub observe_crossing : ExitObservation F → Exec Fault (Coordinator F W) Unit
  unfolding crosses
  observe_crossing o = do
    c ← core
    when
        (is_none c.crossing_timestamp
          && geometry_valid o
          && crosses (fl.div (fl.neg o.lane_width_m) (fl.of_ℕ 2)) c.previous_lateral_m
              o.lateral_offset_m)
        (do
          set (λ c. record c { crossing_timestamp = some o.timestamp })
          emit env lc_boundary_crossing o.timestamp (seen o))

  unfoldable pub on_exit : ExitObservation F → Bool
  on_exit o = within (place o) config.route.exit_segments

  -- The outcome of the path, which only an exit replaces by an exit.
  unfoldable pub observe_path : ExitObservation F → Exec Fault (Coordinator F W) Unit
  unfolding on_exit
  observe_path o = do
    c ← core
    if on_exit o
        then set (λ c. record c { path_outcome = some PathOutcome.exit })
        else when (separated_through config o)
            (set (λ c. record c { path_outcome = some PathOutcome.missed }))
    when (on_exit o && not (took_exit c.path_outcome)) (
        emit env lc_exit_entry_observed o.timestamp (record plain {
          outcome = some exit_entry_observed;
          observation = some o;
          highway_not_configured = true;
        }))

  unfoldable pub observe_end : ExitObservation F → Exec Fault (Coordinator F W) Unit
  unfolding on_exit
  observe_end o = do
    c ← core
    when
        (c.maneuver_in_progress
          && (is_int o.lane_id config.route.target_lane_id
              || on_exit o
              || within (place o) config.route.through_segments))
        (set (λ c. record c { maneuver_in_progress = false }))
    set (λ c. record c {
      previous_lateral_m = if geometry_valid o then o.lateral_offset_m else none;
    })

  -- `lc_completed`, with the outcome of the path.
  unfoldable pub complete : ExitObservation F → PathOutcome → Exec Fault (Coordinator F W) Unit
  complete o outcome = do
    c ← core
    when
        (not c.automated
          && missed_path (some outcome)
          && is_none c.lateral_timestamp
          && is_none c.decision)
        (set (λ c. record c { decision = some manual_nochange }))
    set (λ c. record c { status = completed })
    cancel_automatic_route env o.timestamp
    set (λ c. record c { presentation = none })
    emit env lc_completed o.timestamp (record plain {
      outcome = some (path outcome);
      observation = some o;
      highway_not_configured = took_exit (some outcome);
    })
    disarm env

  -- Is this where the route ends, or leaves the corridor?
  unfoldable pub at_end : ExitObservation F → Bool
  unfolding completion_distance passed terminal_exit
  at_end o =
      terminal_exit config.route o
      || separated_through config o
      || passed (completion_distance config.route) o

  unfoldable pub finish_path :
      Core F → ExitObservation F → Option PathOutcome → Exec Fault (Coordinator F W) Unit
  unfolding at_end complete
  finish_path c o none = when config.signal_guided_exit (retire_abandoned_exit env o)
  finish_path c o (some outcome) =
      if not (at_end o)
      then when config.signal_guided_exit (retire_abandoned_exit env o)
      else when (not (is_completed c.status)) (complete o outcome)

  unfoldable pub observe_maneuver :
      Option (ExitObservation F) → ExitObservation F → Exec Fault (Coordinator F W) Unit
  unfolding observe_reference observe_start observe_indicator observe_crossing observe_path
      observe_end finish_path
  observe_maneuver previous o = do
    observe_reference previous o
    observe_start o
    observe_indicator o
    observe_crossing o
    observe_path o
    observe_end o
    c ← core
    finish_path c o c.path_outcome
