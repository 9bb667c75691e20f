-- ===== src/Exit/Coordinator/Laws/Observed.antt =====
-- The invariant of the core along src/experiment/exit_assistance_observation.py. What follows the presentation is about a core with
-- a presentation time.
use carla.Prelude.{
  ◌≡◌, ℕ, refl, sym, subst, ◌∙◌, ap, Bool, true, false, ◌||◌, ◌&&◌, not, Option, none, some,
  is_none, is_some, arith,
}
use carla.Float.{Float}
use carla.Exec.{Exec}
use carla.Exec.Frame.{IsPreorder}
use carla.Context.{Fault}
use carla.Timestamp.{TimestampEnvelope}
use carla.Exit.{waiting, draft, ExitObservation, ExitPresentation}
use carla.Exit.Coordinator.{Core, Environment, Coordinator, PathOutcome, manual_nochange}
use carla.Exit.Coordinator.Methods.{is_waiting, cancel_automatic_route, disarm}
use carla.Exit.Coordinator.Signal.{retire_abandoned_exit}
use carla.Exit.Coordinator.Update.{is_presented}
use carla.Exit.Coordinator.Presentation.{is_draft}
use carla.Exit.Coordinator.Observation.{
  emit_gap, observe_unpresented, refresh_navigation, begin_draft, redraft, observe_draft,
  observe_presented, observe_window, observe,
}
use carla.Exit.Coordinator.Observation.Evidence.{
  begin_maneuver, observe_reference, observe_start, observe_indicator, observe_crossing,
  observe_path, observe_end, complete, finish_path, observe_maneuver,
}
use carla.Exit.Coordinator.Rules.{Along, From, along_rules}
use carla.Exit.Coordinator.Laws.{
  IsSound, Kept, Kept-refl, Kept-trans, Preserves, Preserves-IsPreorder, kept_rules,
  cancel-Preserves, disarm-Preserves, mark_not-Preserves,
}
use carla.Exit.Coordinator.Laws.Signalled.{refresh-Preserves, retire-Preserves}

After : {F : Type 0} → Core F → Core F → Type 0
After c c' = is_some c.t0 ≡ true → IsSound c → Kept c c'

instance After-IsPreorder : {F : Type 0} → IsPreorder (After {F = F})
unfolding After
After-IsPreorder = record {
  refl_at = λ c t s. Kept-refl c s;
  trans_at = λ c d e h k t s.
      let first = h t s in
      Kept-trans c d e first (k (ap is_some (first.t0_kept t) ∙ t) first.sound);
}

module _ {F : Type 0} (c c' : Core F) where
  after_same :
      c'.status ≡ c.status
      → c'.t0 ≡ c.t0
      → c'.decision ≡ c.decision
      → c'.automated ≡ c.automated
      → After c c'
  unfolding After
  after_same a b d e t s = ground arith

  after_status :
      (is_waiting c'.status || is_draft c'.status || is_presented c'.status) ≡ false
      → c'.t0 ≡ c.t0
      → c'.decision ≡ c.decision
      → c'.automated ≡ c.automated
      → After c c'
  unfolding After
  after_status x b d e t s = ground arith

module _ {F : Type 0} (c : Core F) where
  maneuver_write : (o : ExitObservation F) → After c (begin_maneuver o c)
  unfolding After begin_maneuver
  maneuver_write o t s = ground arith

  nochange_write :
      (missed late : Bool)
      → (not c.automated && missed && is_none c.lateral_timestamp && is_none c.decision) ≡ true
      → After c (record c { decision = some manual_nochange })
  unfolding After
  nochange_write missed late g t s = ground arith

  draft_write :
      (shown : Option (ExitPresentation F))
      → is_waiting c.status ≡ true
      → Preserves c (record c { status = draft; presentation = shown })
  unfolding Preserves
  draft_write shown g s = ground arith

  waiting_write :
      is_draft c.status ≡ true → Preserves c (record c { status = waiting; presentation = none })
  unfolding Preserves
  waiting_write g s = ground arith

weaken : {F W A : Type 0} (m : Exec Fault (Coordinator F W) A) → Along Preserves m → Along After m
unfolding Preserves After
weaken m h = record { at = λ s t. h.at s }

ruleset after_rules = (along_rules, after_same, after_status, maneuver_write, nochange_write, refl)

module _ {F W : Type 0} ⦃fl : Float F⦄ (env : Environment F W) where
  cancel-After : (t : TimestampEnvelope) → Along After (cancel_automatic_route env t)
  cancel-After t = weaken _ (cancel-Preserves env t)

  disarm-After : Along After (disarm env)
  disarm-After = weaken _ (disarm-Preserves env)

  retire-After : (o : ExitObservation F) → Along After (retire_abandoned_exit env o)
  retire-After o = weaken _ (retire-Preserves env o)

  reference-After :
      (p : Option (ExitObservation F)) (o : ExitObservation F)
      → Along After (observe_reference env p o)
  unfolding observe_reference
  reference-After p o = search after_rules depth 24

  start-After : (o : ExitObservation F) → Along After (observe_start env o)
  unfolding observe_start
  start-After o = search after_rules depth 24

  indicator-After : (o : ExitObservation F) → Along After (observe_indicator env o)
  unfolding observe_indicator
  indicator-After o = search after_rules depth 24

  crossing-After : (o : ExitObservation F) → Along After (observe_crossing env o)
  unfolding observe_crossing
  crossing-After o = search after_rules depth 24

  path-After : (o : ExitObservation F) → Along After (observe_path env o)
  unfolding observe_path
  path-After o = search after_rules depth 24

  end-After : (o : ExitObservation F) → Along After (observe_end env o)
  unfolding observe_end
  end-After o = search after_rules depth 24

  complete-After : (o : ExitObservation F) (k : PathOutcome) → Along After (complete env o k)
  unfolding complete
  complete-After o k = search (after_rules, cancel-After, disarm-After) depth 24

  finish-After :
      (c : Core F) (o : ExitObservation F) (k : Option PathOutcome)
      → Along After (finish_path env c o k)
  unfolding finish_path
  finish-After c o none = search (after_rules, retire-After) depth 24
  finish-After c o (some k) = search (after_rules, retire-After, complete-After) depth 24

  maneuver-After :
      (p : Option (ExitObservation F)) (o : ExitObservation F)
      → Along After (observe_maneuver env p o)
  unfolding observe_maneuver
  maneuver-After p o =
      search
        (
          after_rules, reference-After, start-After, indicator-After, crossing-After, path-After,
          end-After, finish-After,
        )
        depth 24

  -- An action that runs where there is a presentation time.
  From-after :
      (c : Core F) (m : Exec Fault (Coordinator F W) Unit)
      → is_some c.t0 ≡ true
      → Along After m
      → From Preserves c m
  unfolding Preserves After
  From-after c m g h = record {
    at = λ s e k.
        let moved = h.at s (ap (λ (d : Core F). is_some d.t0) e ∙ g) in
        subst (λ d. Kept d (m s).1.core) e (moved (subst IsSound (sym e) k));
  }

  gap-Preserves : (o : ExitObservation F) (p : Option ℕ) → Along Preserves (emit_gap env o p)
  unfolding emit_gap
  gap-Preserves o p = search kept_rules

  unpresented-Preserves : (o : ExitObservation F) → Along Preserves (observe_unpresented env o)
  unfolding observe_unpresented
  unpresented-Preserves o = search kept_rules depth 16

  navigation-Preserves :
      (c : Core F) (o : ExitObservation F) → Along Preserves (refresh_navigation env c o)
  unfolding refresh_navigation
  navigation-Preserves c o = search kept_rules depth 16

  begin-Preserves :
      (c : Core F) (o : ExitObservation F) (r : Option F)
      → is_waiting c.status ≡ true
      → From Preserves c (begin_draft env o r)
  unfolding begin_draft
  begin-Preserves c o none g = search kept_rules depth 16
  begin-Preserves c o (some r) g = search (kept_rules, draft_write) depth 16

  guarded_begin :
      (c : Core F) (o : ExitObservation F) (r : Option F) (eligible on_route close : Bool)
      → (is_waiting c.status && eligible && on_route && close) ≡ true
      → From Preserves c (begin_draft env o r)
  guarded_begin c o r eligible on_route close g = begin-Preserves c o r (ground arith)

  redraft-Preserves : (o : ExitObservation F) (r : Option F) → Along Preserves (redraft env o r)
  unfolding redraft
  redraft-Preserves o none = search kept_rules depth 16
  redraft-Preserves o (some r) = search kept_rules depth 16

  draft-Preserves : (o : ExitObservation F) → Along Preserves (observe_draft env o)
  unfolding observe_draft
  draft-Preserves o =
      search (kept_rules, guarded_begin, redraft-Preserves, navigation-Preserves, waiting_write)
        depth 24

  presented-Preserves :
      (p : Option (ExitObservation F)) (o : ExitObservation F)
      → Along Preserves (observe_presented env p o)
  unfolding observe_presented
  presented-Preserves p o =
      search (kept_rules, draft-Preserves, From-after, maneuver-After) depth 24

  window-Preserves :
      (p : Option (ExitObservation F)) (o : ExitObservation F)
      → Along Preserves (observe_window env p o)
  unfolding observe_window
  window-Preserves p o = search (kept_rules, presented-Preserves, mark_not-Preserves) depth 24

  pub observe-Preserves : (o : ExitObservation F) → Along Preserves (observe env o)
  unfolding observe
  observe-Preserves o =
      search (kept_rules, gap-Preserves, refresh-Preserves, unpresented-Preserves, window-Preserves)
        depth 24
