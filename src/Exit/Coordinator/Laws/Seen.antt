-- ===== src/Exit/Coordinator/Laws/Seen.antt =====
-- Observations (src/experiment/exit_assistance_observation.py) and presentations, for the consent.
use carla.Prelude.{ℕ, Bool, Option, none, some, arith}
use carla.Float.{Float}
use carla.Automation.{AutomationState}
use carla.Timestamp.{TimestampEnvelope}
use carla.Exit.{ExitObservation, ExitPresentation}
use carla.Exit.Coordinator.{Core, Environment, PathOutcome}
use carla.Exit.Coordinator.Presentation.{
  prepare, prepare_presentation, begin_presented, mark, mark_presented,
}
use carla.Exit.Coordinator.Observation.{
  emit_gap, observe_unpresented, refresh_navigation, begin_draft, redraft, observe_draft,
  observe_presented, observe_window, observe,
}
use carla.Exit.Coordinator.Observation.Evidence.{
  begin_maneuver, observe_reference, observe_start, observe_indicator, observe_crossing,
  observe_path, observe_end, complete, finish_path, observe_maneuver,
}
use carla.Exit.Coordinator.Rules.{Along}
use carla.Exit.Coordinator.Laws.Consent.{
  StaysUnasked, StaysUnasked-IsPreorder, unasked_rules, cancel-StaysUnasked, disarm-StaysUnasked,
  mark_not-StaysUnasked, refresh-StaysUnasked, retire-StaysUnasked,
}

maneuver_unasked :
    {F : Type 0} (c : Core F) (o : ExitObservation F) → StaysUnasked c (begin_maneuver o c)
unfolding StaysUnasked begin_maneuver
maneuver_unasked c o s = ground arith

module _ {F W : Type 0} ⦃fl : Float F⦄ (env : Environment F W) where
  reference-StaysUnasked :
      (p : Option (ExitObservation F)) (o : ExitObservation F)
      → Along StaysUnasked (observe_reference env p o)
  unfolding observe_reference
  reference-StaysUnasked p o = search unasked_rules depth 24

  start_seen-StaysUnasked : (o : ExitObservation F) → Along StaysUnasked (observe_start env o)
  unfolding observe_start
  start_seen-StaysUnasked o = search (unasked_rules, maneuver_unasked) depth 24

  indicator-StaysUnasked : (o : ExitObservation F) → Along StaysUnasked (observe_indicator env o)
  unfolding observe_indicator
  indicator-StaysUnasked o = search unasked_rules depth 24

  crossing-StaysUnasked : (o : ExitObservation F) → Along StaysUnasked (observe_crossing env o)
  unfolding observe_crossing
  crossing-StaysUnasked o = search unasked_rules depth 24

  path-StaysUnasked : (o : ExitObservation F) → Along StaysUnasked (observe_path env o)
  unfolding observe_path
  path-StaysUnasked o = search unasked_rules depth 24

  end-StaysUnasked : (o : ExitObservation F) → Along StaysUnasked (observe_end env o)
  unfolding observe_end
  end-StaysUnasked o = search unasked_rules depth 24

  complete-StaysUnasked :
      (o : ExitObservation F) (k : PathOutcome) → Along StaysUnasked (complete env o k)
  unfolding complete
  complete-StaysUnasked o k =
      search (unasked_rules, cancel-StaysUnasked, disarm-StaysUnasked) depth 24

  finish_path-StaysUnasked :
      (c : Core F) (o : ExitObservation F) (k : Option PathOutcome)
      → Along StaysUnasked (finish_path env c o k)
  unfolding finish_path
  finish_path-StaysUnasked c o none = search (unasked_rules, retire-StaysUnasked) depth 24
  finish_path-StaysUnasked c o (some k) =
      search (unasked_rules, retire-StaysUnasked, complete-StaysUnasked) depth 24

  maneuver-StaysUnasked :
      (p : Option (ExitObservation F)) (o : ExitObservation F)
      → Along StaysUnasked (observe_maneuver env p o)
  unfolding observe_maneuver
  maneuver-StaysUnasked p o =
      search
        (
          unasked_rules, reference-StaysUnasked, start_seen-StaysUnasked, indicator-StaysUnasked,
          crossing-StaysUnasked, path-StaysUnasked, end-StaysUnasked, finish_path-StaysUnasked,
        )
        depth 24

  gap-StaysUnasked : (o : ExitObservation F) (p : Option ℕ) → Along StaysUnasked (emit_gap env o p)
  unfolding emit_gap
  gap-StaysUnasked o p = search unasked_rules

  unpresented-StaysUnasked :
      (o : ExitObservation F) → Along StaysUnasked (observe_unpresented env o)
  unfolding observe_unpresented
  unpresented-StaysUnasked o = search unasked_rules depth 16

  navigation-StaysUnasked :
      (c : Core F) (o : ExitObservation F) → Along StaysUnasked (refresh_navigation env c o)
  unfolding refresh_navigation
  navigation-StaysUnasked c o = search unasked_rules depth 16

  begin-StaysUnasked :
      (o : ExitObservation F) (r : Option F) → Along StaysUnasked (begin_draft env o r)
  unfolding begin_draft
  begin-StaysUnasked o none = search unasked_rules depth 16
  begin-StaysUnasked o (some r) = search unasked_rules depth 16

  redraft-StaysUnasked :
      (o : ExitObservation F) (r : Option F) → Along StaysUnasked (redraft env o r)
  unfolding redraft
  redraft-StaysUnasked o none = search unasked_rules depth 16
  redraft-StaysUnasked o (some r) = search unasked_rules depth 16

  presented-StaysUnasked :
      (p : Option (ExitObservation F)) (o : ExitObservation F)
      → Along StaysUnasked (observe_presented env p o)
  unfolding observe_presented observe_draft
  presented-StaysUnasked p o =
      search
        (
          unasked_rules, begin-StaysUnasked, redraft-StaysUnasked, navigation-StaysUnasked,
          maneuver-StaysUnasked,
        )
        depth 24

  window-StaysUnasked :
      (p : Option (ExitObservation F)) (o : ExitObservation F)
      → Along StaysUnasked (observe_window env p o)
  unfolding observe_window
  window-StaysUnasked p o =
      search (unasked_rules, presented-StaysUnasked, mark_not-StaysUnasked) depth 24

  pub observe-StaysUnasked : (o : ExitObservation F) → Along StaysUnasked (observe env o)
  unfolding observe
  observe-StaysUnasked o =
      search
        (
          unasked_rules, gap-StaysUnasked, refresh-StaysUnasked, unpresented-StaysUnasked,
          window-StaysUnasked,
        )
        depth 24

  prepare_step-StaysUnasked :
      (c : Core F) (state : AutomationState) (o : Option (ExitObservation F))
      (p : Option (ExitPresentation F))
      → Along StaysUnasked (prepare env c state o p)
  unfolding prepare
  prepare_step-StaysUnasked c state none none = search unasked_rules
  prepare_step-StaysUnasked c state none (some p) = search unasked_rules
  prepare_step-StaysUnasked c state (some o) none = search unasked_rules
  prepare_step-StaysUnasked c state (some o) (some p) = search unasked_rules depth 16

  pub prepare-StaysUnasked :
      (state : AutomationState) → Along StaysUnasked (prepare_presentation env state)
  unfolding prepare_presentation
  prepare-StaysUnasked state = search (unasked_rules, prepare_step-StaysUnasked) depth 16

  mark_step-StaysUnasked :
      (c : Core F) (p : ExitPresentation F) (state : AutomationState) (t : TimestampEnvelope)
      (eligible : Bool) (o : Option (ExitObservation F))
      → Along StaysUnasked (mark env c p state t eligible o)
  unfolding mark begin_presented
  mark_step-StaysUnasked c p state t eligible none = search unasked_rules
  mark_step-StaysUnasked c p state t eligible (some o) = search unasked_rules depth 16

  pub mark-StaysUnasked :
      (p : ExitPresentation F) (state : AutomationState) (t : TimestampEnvelope)
      → Along StaysUnasked (mark_presented env p state t)
  unfolding mark_presented
  mark-StaysUnasked p state t = search (unasked_rules, mark_step-StaysUnasked) depth 16
