-- ===== src/Exit/Coordinator/Observation.antt =====
-- src/experiment/exit_assistance_observation.py: `observe_exit`, step by step.
pub mod Evidence
use carla.Prelude.{
  ℕ, ◌+◌, Bool, true, false, ◌&&◌, ◌||◌, not, Option, none, some, is_none, is_some, if◌then◌else◌,
  ltb, leb,
}
use carla.Float.{Float}
use carla.Exec.{Exec, pure, when, ◌>>=◌, ◌>>◌}
use carla.Context.{Fault}
use carla.Timestamp.{TimestampEnvelope}
use carla.Exit.{
  ExitAssistanceStatus, waiting, draft, not_presented, ExitObservation, ExitPresentation,
}
use carla.Exit.Route.{Segment}
use carla.Exit.Policy.{
  navigation_distance_m, is_navigation_observation, is_confirmation_observation, draft_presentation,
}
use carla.Exit.Coordinator.{
  lc_observation_gap, lc_unpresented_path_observed, lc_draft, lc_navigation_unavailable,
  lc_navigation_restored, Details, plain, seen, Core, Environment, Coordinator,
}
use carla.Exit.Coordinator.Emit.{core, set, emit, is_time_closed, is_time_eligible}
use carla.Exit.Coordinator.Methods.{is_waiting, mark_not_presented}
use carla.Exit.Coordinator.Presentation.{is_draft}
use carla.Exit.Coordinator.Signal.{refresh_guidance}
use carla.Exit.Coordinator.Update.{is_presented, is_completed}
use carla.Exit.Coordinator.Observation.Evidence.{physical_identity, same_place, observe_maneuver}

abbrev pub is_not_presented : ExitAssistanceStatus → Bool
is_not_presented not_presented = true
is_not_presented _ = false

-- `frame <= previous_frame`, and `frame > previous_frame + 1`, where both are known.
abbrev pub goes_back : Option ℕ → Option ℕ → Bool
goes_back (some frame) (some previous) = leb frame previous
goes_back _ _ = false

abbrev pub skips : Option ℕ → Option ℕ → Bool
skips (some frame) (some previous) = ltb (previous + 1) frame
skips _ _ = false

module _ {F W : Type 0} ⦃fl : Float F⦄ (env : Environment F W) where
  open env use {config}

  unfoldable pub emit_gap : ExitObservation F → Option ℕ → Exec Fault (Coordinator F W) Unit
  emit_gap observation previous_frame =
      emit env lc_observation_gap observation.timestamp (record plain {
        observation = some observation;
        observation_gap_previous_frame = previous_frame;
      })

  -- Evidence of a path on an opportunity that was never presented.
  unfoldable pub observe_unpresented : ExitObservation F → Exec Fault (Coordinator F W) Unit
  observe_unpresented observation = do
    c ← core
    when (is_none c.t0) (do
      when
          (is_some (physical_identity config observation)
            && not (same_place (physical_identity config observation) c.unpresented_path_identity))
          (emit env lc_unpresented_path_observed observation.timestamp (seen observation))
      set (λ c. record c { unpresented_path_identity = physical_identity config observation }))

  unfoldable pub drafted : ExitObservation F → F → Bool → ExitPresentation F
  drafted observation remaining recommendation =
      draft_presentation config env.navigation_text remaining recommendation observation.carla_frame
        observation.route_point_index

  -- The presentation of a presented opportunity, if the guidance is still open.
  unfoldable pub current : Core F → ExitObservation F → Option F → Option (ExitPresentation F)
  unfolding drafted
  current c observation none = none
  current c observation (some remaining) =
      if config.signal_guided_exit && is_some c.guidance_closed_timestamp
      then none
      else some (
          drafted observation remaining (
            is_presented c.status
            && c.automated
            && c.recommendation_presented
            && is_confirmation_observation config observation))

  -- The branch for an opportunity past its draft.
  unfoldable pub refresh_navigation : Core F → ExitObservation F → Exec Fault (Coordinator F W) Unit
  unfolding current
  refresh_navigation c observation = do
    let next = current c observation (navigation_distance_m config observation)
    set (λ c. record c { presentation = next })
    when (not (if is_some c.presentation then is_some next else is_none next)) (
        emit env (if is_none next then lc_navigation_unavailable else lc_navigation_restored)
          observation.timestamp (seen observation))

  -- `remaining is not None and remaining <= navigation_trigger_distance_m`, or without the bound.
  unfoldable pub near : Option F → Bool
  near none = false
  near (some remaining) = fl.le remaining config.navigation_trigger_distance_m

  unfoldable pub begin_draft : ExitObservation F → Option F → Exec Fault (Coordinator F W) Unit
  unfolding drafted
  begin_draft observation none = pure tt
  begin_draft observation (some remaining) = do
    set (λ c. record c {
      status = draft;
      presentation = some (drafted observation remaining false);
    })
    emit env lc_draft observation.timestamp (seen observation)

  unfoldable pub redraft : ExitObservation F → Option F → Exec Fault (Coordinator F W) Unit
  unfolding drafted
  redraft observation none = pure tt
  redraft observation (some remaining) =
      set (λ c. record c { presentation = some (drafted observation remaining false) })

  unfoldable pub observe_draft : ExitObservation F → Exec Fault (Coordinator F W) Unit
  unfolding refresh_navigation near begin_draft redraft
  observe_draft observation = do
    let remaining = navigation_distance_m config observation
    let on_route = is_navigation_observation config observation
    c ← core
    eligible ←
        if is_waiting c.status then is_time_eligible env observation.timestamp else pure false
    if is_waiting c.status && eligible && on_route && near remaining
        then begin_draft observation remaining
        else if is_draft c.status && on_route && is_some remaining
        then redraft observation remaining
        else if is_draft c.status
        then set (λ c. record c { status = waiting; presentation = none })
        else when (is_some c.t0 && not (is_completed c.status)) (refresh_navigation c observation)

  -- From the draft on: the rest reads a presented opportunity alone.
  unfoldable pub observe_presented :
      Option (ExitObservation F) → ExitObservation F → Exec Fault (Coordinator F W) Unit
  unfolding observe_draft
  observe_presented previous observation = do
    observe_draft observation
    c ← core
    when (is_some c.t0) (observe_maneuver env previous observation)

  -- The eligibility window of an opportunity that is not yet presented.
  unfoldable pub observe_window :
      Option (ExitObservation F) → ExitObservation F → Exec Fault (Coordinator F W) Unit
  unfolding observe_presented
  observe_window previous observation = do
    c ← core
    when (not (is_not_presented c.status)) (do
      closed ←
          if is_waiting c.status || is_draft c.status
          then is_time_closed env observation.timestamp
          else pure false
      if closed then mark_not_presented env observation.timestamp else do
        eligible ←
            if is_waiting c.status then is_time_eligible env observation.timestamp else pure true
        when eligible (observe_presented previous observation))

  unfoldable pub observe : ExitObservation F → Exec Fault (Coordinator F W) Unit
  unfolding observe_unpresented observe_window
  observe observation = do
    c ← core
    if is_completed c.status || c.finished
        then set (λ c. record c {
          latest_observation = some observation;
          last_observation_frame = observation.carla_frame;
        })
        else if goes_back observation.carla_frame c.last_observation_frame
        then emit_gap observation c.last_observation_frame
        else (do
          when (skips observation.carla_frame c.last_observation_frame)
              (emit_gap observation c.last_observation_frame)
          set (λ c. record c {
            latest_observation = some observation;
            last_observation_frame = observation.carla_frame;
          })
          when config.signal_guided_exit (refresh_guidance env observation.timestamp)
          observe_unpresented observation
          observe_window c.latest_observation observation)
