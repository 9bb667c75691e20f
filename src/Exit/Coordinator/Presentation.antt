-- ===== src/Exit/Coordinator/Presentation.antt =====
-- `prepare_presentation` and `mark_presented` of src/experiment/exit_assistance.py.
use text.Mathlib.Text.{◌==◌ as str_eq}
use carla.Prelude.{
  ℕ, Bool, true, false, ◌&&◌, ◌||◌, not, Option, none, some, is_none, if◌then◌else◌, ◌==◌,
}
use carla.Prelude.Int.{eqb_ℤ}
use carla.Float.{Float}
use carla.Exec.{Exec, pure, raise, when, ◌>>=◌, ◌>>◌}
use carla.Context.{Fault, exit_presentation}
use carla.Automation.{AutomationState, noa_active, same_mode}
use carla.Timestamp.{TimestampEnvelope}
use carla.Exit.{ExitAssistanceStatus, draft, presented, ExitPresentation, ExitObservation}
use carla.Exit.Policy.{
  is_navigation_observation, is_confirmation_observation, is_automated_branch, draft_presentation,
}
use carla.Exit.Coordinator.{
  lc_presented, lc_presentation_timing_deviation, within_window, outside_window_after_visible_frame,
  plain, Core, Environment, Coordinator,
}
use carla.Exit.Coordinator.Emit.{core, set, emit, is_time_eligible}

abbrev pub is_draft : ExitAssistanceStatus → Bool
is_draft draft = true
is_draft _ = false

-- `==` on optional frames.
abbrev pub same_frame : Option ℕ → Option ℕ → Bool
same_frame none none = true
same_frame (some a) (some b) = a == b
same_frame _ _ = false

module _ {F : Type 0} ⦃fl : Float F⦄ where
  -- The generated `__eq__` of `ExitPresentation`.
  unfoldable pub same_presentation : ExitPresentation F → ExitPresentation F → Bool
  same_presentation a b =
      str_eq a.lc_event_id b.lc_event_id
      && str_eq a.navigation_text b.navigation_text
      && (if a.recommendation then b.recommendation else not b.recommendation)
      && fl.eq a.distance_to_exit_m b.distance_to_exit_m
      && same_frame a.observation_frame b.observation_frame
      && eqb_ℤ a.route_point_index b.route_point_index
      && (if a.signal_guided_exit then b.signal_guided_exit else not b.signal_guided_exit)

  unfoldable pub is_shown : ExitPresentation F → Option (ExitPresentation F) → Bool
  unfolding same_presentation
  is_shown rendered none = false
  is_shown rendered (some p) = same_presentation rendered p

module _ {F W : Type 0} ⦃fl : Float F⦄ (env : Environment F W) where
  open env use {config}

  -- The envelope in which a recommendation may be shown.
  unfoldable pub recommendable : ExitObservation F → Bool
  recommendable observation =
      if config.signal_guided_exit
      then is_navigation_observation config observation
      else is_confirmation_observation config observation

  -- The presentation past the draft: it is handed out, and not stored.
  unfoldable pub shown_again :
      Core F → ExitObservation F → ExitPresentation F → AutomationState → ExitPresentation F
  shown_again c observation p state = record p {
    recommendation =
        if config.signal_guided_exit
        then is_none c.guidance_closed_timestamp
          && same_mode state.control_mode noa_active
          && is_navigation_observation config observation
        else p.recommendation
          && is_none c.lateral_timestamp
          && is_confirmation_observation config observation;
  }

  unfoldable pub prepare :
      Core F
      → AutomationState
      → Option (ExitObservation F)
      → Option (ExitPresentation F)
      → Exec Fault (Coordinator F W) (ExitPresentation F)
  unfolding shown_again
  prepare c state (some observation) (some p) =
      if not (is_draft c.status) then pure (shown_again c observation p state) else do
        let next =
            draft_presentation config env.navigation_text
              (fl.sub config.route.fork_distance_m observation.route_distance_m)
              (is_automated_branch config state.control_mode && recommendable observation)
              observation.carla_frame observation.route_point_index
        set (λ c. record c { presentation = some next })
        pure next
  prepare c state _ _ = raise (exit_presentation "exit presentation is not ready")

  unfoldable pub prepare_presentation :
      AutomationState → Exec Fault (Coordinator F W) (ExitPresentation F)
  unfolding prepare
  prepare_presentation state = do c ← core; prepare c state c.latest_observation c.presentation

  -- The fields that `mark_presented` sets.
  unfoldable pub begin_presented :
      ExitPresentation F → AutomationState → TimestampEnvelope → ExitObservation F → Core F → Core F
  begin_presented rendered state timestamp observation c =
      let baseline =
        if observation.target_boundary_valid then observation.lateral_offset_m else none in
      record c {
        status = presented;
        t0 = some timestamp;
        frozen_mode = some state.control_mode;
        actual_mode = some state.control_mode;
        automated = is_automated_branch config state.control_mode;
        recommendation_presented = rendered.recommendation;
        baseline_lateral_m = baseline;
        baseline_indicator = observation.indicator;
        previous_indicator = observation.indicator;
        previous_lateral_m = baseline;
        presentation = some rendered;
      }

  unfoldable pub mark :
      Core F
      → ExitPresentation F
      → AutomationState
      → TimestampEnvelope
      → Bool
      → Option (ExitObservation F)
      → Exec Fault (Coordinator F W) Unit
  unfolding is_shown
  mark c rendered state timestamp eligible none =
      raise (exit_presentation "rendered exit presentation is stale")
  mark c rendered state timestamp eligible (some observation) =
      if not (is_draft c.status)
        || not (is_shown rendered c.presentation)
        || not (same_frame rendered.observation_frame observation.carla_frame)
        || not (eqb_ℤ rendered.route_point_index observation.route_point_index)
      then raise (exit_presentation "rendered exit presentation is stale")
      else if not (is_navigation_observation config observation)
          || (rendered.recommendation && not (recommendable observation))
      then raise (exit_presentation "vehicle is outside exit presentation envelope")
      else do
        let window = if eligible then within_window else outside_window_after_visible_frame
        set (begin_presented rendered state timestamp observation)
        emit env lc_presented timestamp (record plain {
          observation = some observation;
          presentation_window_status = some window;
        })
        when (not eligible) (
            emit env lc_presentation_timing_deviation timestamp
              (record plain { presentation_window_status = some window }))

  unfoldable pub mark_presented :
      ExitPresentation F → AutomationState → TimestampEnvelope → Exec Fault (Coordinator F W) Unit
  unfolding mark
  mark_presented rendered state timestamp = do
    eligible ← is_time_eligible env timestamp
    c ← core
    mark c rendered state timestamp eligible c.latest_observation
