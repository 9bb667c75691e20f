-- ===== src/Exit/Coordinator/Laws/Runs.antt =====
-- Runs of the methods of src/experiment/exit_assistance.py: the presentation time, the confirmation
-- and the driver's consent.
use carla.Prelude.{
  ◌≡◌, Bool, true, false, ◌||◌, not, Option, none, some, is_some, arith, List, [], ◌∷◌, All,
}
use carla.Float.{Float}
use carla.Automation.{AutomationState}
use carla.Interaction.{DriverInput}
use carla.Timestamp.{TimestampEnvelope}
use carla.Exit.{ExitTerminationReason, ExitObservation, ExitPresentation}
use carla.Exit.Coordinator.{Core, Environment, Coordinator, new}
use carla.Exit.Coordinator.Methods.{
  start_active_drive, mark_not_presented, cancel_automatic_route, fail_assisted_submission, finish,
}
use carla.Exit.Coordinator.Presentation.{
  is_draft, prepare, prepare_presentation, begin_presented, mark, mark_presented,
}
use carla.Exit.Coordinator.Update.{update}
use carla.Exit.Coordinator.Observation.{observe}
use carla.Exit.Coordinator.Signal.{is_confirm}
use carla.Exit.Coordinator.Rules.{Along, From}
use carla.Exit.Coordinator.Laws.{
  IsSound, Kept, Kept-refl, Kept-trans, Preserves, Preserves-IsPreorder, kept_rules,
  cancel-Preserves, start-Preserves, mark_not-Preserves, fail-Preserves, finish-Preserves,
}
use carla.Exit.Coordinator.Laws.Confirmed.{update-Preserves}
use carla.Exit.Coordinator.Laws.Consent.{
  IsUnasked, StaysUnasked, cancel-StaysUnasked, start-StaysUnasked, mark_not-StaysUnasked,
  fail-StaysUnasked, finish-StaysUnasked, update-StaysUnasked,
}
use carla.Exit.Coordinator.Laws.Seen.{observe-StaysUnasked, prepare-StaysUnasked, mark-StaysUnasked}
use carla.Exit.Coordinator.Laws.Observed.{observe-Preserves}

module _ {F W : Type 0} ⦃fl : Float F⦄ (env : Environment F W) where
  prepare_step-Preserves :
      (c : Core F) (state : AutomationState) (o : Option (ExitObservation F))
      (p : Option (ExitPresentation F))
      → Along Preserves (prepare env c state o p)
  unfolding prepare
  prepare_step-Preserves c state none none = search kept_rules
  prepare_step-Preserves c state none (some p) = search kept_rules
  prepare_step-Preserves c state (some o) none = search kept_rules
  prepare_step-Preserves c state (some o) (some p) = search kept_rules depth 16

  prepare-Preserves : (state : AutomationState) → Along Preserves (prepare_presentation env state)
  unfolding prepare_presentation
  prepare-Preserves state = search (kept_rules, prepare_step-Preserves) depth 16

  presented_write :
      (c : Core F) (p : ExitPresentation F) (state : AutomationState) (t : TimestampEnvelope)
      (o : ExitObservation F) (x y z : Bool)
      → (not (is_draft c.status) || x || y || z) ≡ false
      → Preserves c (begin_presented env p state t o c)
  unfolding Preserves begin_presented
  presented_write c p state t o x y z g s = ground arith

  mark_step-Preserves :
      (c : Core F) (p : ExitPresentation F) (state : AutomationState) (t : TimestampEnvelope)
      (eligible : Bool) (o : Option (ExitObservation F))
      → From Preserves c (mark env c p state t eligible o)
  unfolding mark
  mark_step-Preserves c p state t eligible none = search kept_rules
  mark_step-Preserves c p state t eligible (some o) = search (kept_rules, presented_write) depth 16

  mark-Preserves :
      (p : ExitPresentation F) (state : AutomationState) (t : TimestampEnvelope)
      → Along Preserves (mark_presented env p state t)
  unfolding mark_presented
  mark-Preserves p state t = search (kept_rules, mark_step-Preserves) depth 16

-- The public methods, and `cancel_automatic_route`, which the exit runtime calls too.
pub data Operation (F : Type 0) : Type 0 where
  start : TimestampEnvelope → Operation F
  close_window : TimestampEnvelope → Operation F
  see : ExitObservation F → Operation F
  draw : AutomationState → Operation F
  show : ExitPresentation F → AutomationState → TimestampEnvelope → Operation F
  drive :
      DriverInput F
      → AutomationState
      → TimestampEnvelope
      → Option TimestampEnvelope
      → Bool
      → Operation F
  fail : TimestampEnvelope → Operation F
  end : ExitTerminationReason → TimestampEnvelope → Operation F
  cancel_route : TimestampEnvelope → Operation F

module _ {F W : Type 0} ⦃fl : Float F⦄ (env : Environment F W) where
  -- The state after a method, whether it returned or raised.
  unfoldable pub after : Operation F → Coordinator F W → Coordinator F W
  after (start t) s = (start_active_drive env t s).1
  after (close_window t) s = (mark_not_presented env t s).1
  after (see o) s = (observe env o s).1
  after (draw state) s = (prepare_presentation env state s).1
  after (show p state t) s = (mark_presented env p state t s).1
  after (drive d state t u busy) s = (update env d state t u busy s).1
  after (fail t) s = (fail_assisted_submission env t s).1
  after (end r t) s = (finish env r t s).1
  after (cancel_route t) s = (cancel_automatic_route env t s).1

  unfoldable pub after_all : List (Operation F) → Coordinator F W → Coordinator F W
  after_all [] s = s
  after_all (o ∷ os) s = after_all os (after o s)

  after-Kept :
      (o : Operation F) (s : Coordinator F W) → IsSound s.core → Kept s.core (after o s).core
  unfolding after Preserves
  after-Kept (start t) s = (start-Preserves env t).at s
  after-Kept (close_window t) s = (mark_not-Preserves env t).at s
  after-Kept (see o) s = (observe-Preserves env o).at s
  after-Kept (draw state) s = (prepare-Preserves env state).at s
  after-Kept (show p state t) s = (mark-Preserves env p state t).at s
  after-Kept (drive d state t u busy) s = (update-Preserves env d state t u busy).at s
  after-Kept (fail t) s = (fail-Preserves env t).at s
  after-Kept (end r t) s = (finish-Preserves env r t).at s
  after-Kept (cancel_route t) s = (cancel-Preserves env t).at s

  after_all-Kept :
      (os : List (Operation F)) (s : Coordinator F W)
      → IsSound s.core
      → Kept s.core (after_all os s).core
  unfolding after_all
  after_all-Kept [] s h = Kept-refl s.core h
  after_all-Kept (o ∷ os) s h =
      let first = after-Kept o s h in
      Kept-trans s.core (after o s).core (after_all os (after o s)).core first
        (after_all-Kept os (after o s) first.sound)

  -- From a sound core, through any methods in any order, returned or raised, the core stays sound.
  pub after_all-IsSound :
      (os : List (Operation F)) (s : Coordinator F W)
      → IsSound s.core
      → IsSound (after_all os s).core
  after_all-IsSound os s h = (after_all-Kept os s h).sound

  -- From a sound core, a presentation time that was written is never written again, whatever methods
  -- follow, returned or raised.
  pub presentation_once :
      (os : List (Operation F)) (s : Coordinator F W)
      → IsSound s.core
      → is_some s.core.t0 ≡ true
      → (after_all os s).core.t0 ≡ s.core.t0
  presentation_once os s h = (after_all-Kept os s h).t0_kept

  -- From a sound core, a confirmation stays the decision, whatever methods follow, returned or raised.
  pub confirmation_final :
      (os : List (Operation F)) (s : Coordinator F W)
      → IsSound s.core
      → is_confirm s.core.decision ≡ true
      → is_confirm (after_all os s).core.decision ≡ true
  confirmation_final os s h = (after_all-Kept os s h).confirm_kept

  -- An operation in which the driver does not ask for the exit.
  abbrev pub Unasking : Operation F → Type 0
  Unasking (drive d state t u busy) = d.exit_confirm_requested ≡ false
  Unasking _ = Unit

  after-StaysUnasked :
      (o : Operation F) (s : Coordinator F W) → Unasking o → StaysUnasked s.core (after o s).core
  unfolding after
  after-StaysUnasked (start t) s u = (start-StaysUnasked env t).at s
  after-StaysUnasked (close_window t) s u = (mark_not-StaysUnasked env t).at s
  after-StaysUnasked (see o) s u = (observe-StaysUnasked env o).at s
  after-StaysUnasked (draw state) s u = (prepare-StaysUnasked env state).at s
  after-StaysUnasked (show p state t) s u = (mark-StaysUnasked env p state t).at s
  after-StaysUnasked (drive d state t v busy) s u =
      (update-StaysUnasked env d u state t v busy).at s
  after-StaysUnasked (fail t) s u = (fail-StaysUnasked env t).at s
  after-StaysUnasked (end r t) s u = (finish-StaysUnasked env r t).at s
  after-StaysUnasked (cancel_route t) s u = (cancel-StaysUnasked env t).at s

  -- As long as no update carries the driver's request for the exit, there is no confirmation, no lane
  -- change is armed, and the exit is not the branch that was chosen, whatever methods run and
  -- whatever they raise.
  pub no_exit-IsUnasked :
      (os : List (Operation F)) (s : Coordinator F W)
      → All Unasking os
      → IsUnasked s.core
      → IsUnasked (after_all os s).core
  unfolding after_all StaysUnasked
  no_exit-IsUnasked [] s a h = h
  no_exit-IsUnasked (o ∷ os) s a h =
      no_exit-IsUnasked os (after o s) a.1 (after-StaysUnasked o s a.0 h)

-- A new coordinator is sound and unasked.
pub new-IsSound : {F W : Type 0} (world : W) → IsSound (new {F = F} world).core
unfolding new
new-IsSound world = ground arith

pub new-IsUnasked : {F W : Type 0} (world : W) → IsUnasked (new {F = F} world).core
unfolding new
new-IsUnasked world = ground arith
