-- ===== src/Exit/Coordinator/Laws.antt =====
-- The invariant of the core of src/experiment/exit_assistance.py's coordinator.
pub mod Signalled
pub mod Confirmed
pub mod Observed
pub mod Consent
pub mod Seen
pub mod Arming
pub mod Runs
use carla.Prelude.{
  ◌≡◌, refl, Bool, true, false, ◌||◌, ◌&&◌, not, Option, none, some, is_none, is_some, arith,
}
use carla.Float.{Float}
use carla.Exec.{◌>>=◌}
use carla.Exec.Frame.{IsPreorder}
use carla.Timestamp.{TimestampEnvelope}
use carla.Exit.{ExitTerminationReason}
use carla.Exit.Coordinator.{Core, Environment, Coordinator, Reason}
use carla.Exit.Coordinator.Methods.{
  is_waiting, start_active_drive, mark_not_presented, cancel_automatic_route, disarm, interrupt,
  fail_assisted_submission, finish,
}
use carla.Exit.Coordinator.Presentation.{is_draft}
use carla.Exit.Coordinator.Signal.{is_confirm}
use carla.Exit.Coordinator.Update.{is_presented}
use carla.Exit.Coordinator.Rules.{Along, along_rules}

-- Before its presentation an opportunity has neither a presentation time nor a decision, and a
-- confirmation was given to the automation and has been dealt with.
pub record IsSound {F : Type 0} (c : Core F) : Type 0 where
  pub fresh :
      (is_waiting c.status || is_draft c.status) ≡ true
      → (is_none c.t0 ≡ true) × (is_none c.decision ≡ true)
  pub consent : is_confirm c.decision ≡ true → c.automated ≡ true
  pub settled : is_confirm c.decision ≡ true → is_presented c.status ≡ false

-- The invariant holds again, the presentation time is as it was, and a confirmation stays.
pub record Kept {F : Type 0} (c c' : Core F) : Type 0 where
  pub sound : IsSound c'
  pub t0_kept : is_some c.t0 ≡ true → c'.t0 ≡ c.t0
  pub confirm_kept : is_confirm c.decision ≡ true → is_confirm c'.decision ≡ true

pub Preserves : {F : Type 0} → Core F → Core F → Type 0
Preserves c c' = IsSound c → Kept c c'

pub Kept-refl : {F : Type 0} (c : Core F) → IsSound c → Kept c c
Kept-refl c h = ground arith

pub Kept-trans : {F : Type 0} (c d e : Core F) → Kept c d → Kept d e → Kept c e
Kept-trans c d e h k = ground arith

instance pub Preserves-IsPreorder : {F : Type 0} → IsPreorder (Preserves {F = F})
unfolding Preserves
Preserves-IsPreorder = record {
  refl_at = Kept-refl;
  trans_at = λ c d e h k s. let first = h s in Kept-trans c d e first (k first.sound);
}

module _ {F : Type 0} (c c' : Core F) where
  -- What leaves the status, the time, the decision and the automation alone.
  pub preserves_same :
      c'.status ≡ c.status
      → c'.t0 ≡ c.t0
      → c'.decision ≡ c.decision
      → c'.automated ≡ c.automated
      → Preserves c c'
  unfolding Preserves
  preserves_same a b d e s = ground arith

  -- What sets a status past the draft.
  pub preserves_status :
      (is_waiting c'.status || is_draft c'.status || is_presented c'.status) ≡ false
      → c'.t0 ≡ c.t0
      → c'.decision ≡ c.decision
      → c'.automated ≡ c.automated
      → Preserves c c'
  unfolding Preserves
  preserves_status x b d e s = ground arith

pub ruleset kept_rules = (along_rules, preserves_same, preserves_status, refl)

module _ {F W : Type 0} ⦃fl : Float F⦄ (env : Environment F W) where
  pub cancel-Preserves : (t : TimestampEnvelope) → Along Preserves (cancel_automatic_route env t)
  unfolding cancel_automatic_route
  cancel-Preserves t = search kept_rules depth 16

  pub disarm-Preserves : Along Preserves (disarm env)
  unfolding disarm
  disarm-Preserves = search kept_rules depth 16

  pub interrupt-Preserves :
      (t : TimestampEnvelope) (r : Reason) → Along Preserves (interrupt env t r)
  unfolding interrupt
  interrupt-Preserves t r = search (kept_rules, cancel-Preserves, disarm-Preserves) depth 16

  pub start-Preserves : (t : TimestampEnvelope) → Along Preserves (start_active_drive env t)
  unfolding start_active_drive
  start-Preserves t = search kept_rules depth 16

  pub mark_not-Preserves : (t : TimestampEnvelope) → Along Preserves (mark_not_presented env t)
  unfolding mark_not_presented
  mark_not-Preserves t = search kept_rules depth 16

  pub fail-Preserves : (t : TimestampEnvelope) → Along Preserves (fail_assisted_submission env t)
  unfolding fail_assisted_submission
  fail-Preserves t = search (kept_rules, interrupt-Preserves) depth 16

  pub finish-Preserves :
      (r : ExitTerminationReason) (t : TimestampEnvelope) → Along Preserves (finish env r t)
  unfolding finish
  finish-Preserves r t = search (kept_rules, cancel-Preserves, disarm-Preserves) depth 18
