-- ===== src/Exit/Coordinator/Laws/Signalled.antt =====
-- The invariant of the core along src/experiment/exit_signal.py.
use carla.Prelude.{◌≡◌, Bool, true, ◌&&◌, Option, none, some, is_none, arith}
use carla.Float.{Float}
use carla.Exec.{Exec}
use carla.Context.{Fault}
use carla.Automation.{AutomationState}
use carla.Interaction.{DriverInput}
use carla.Timestamp.{TimestampEnvelope}
use carla.Exit.{noresponse, confirmed, ExitObservation}
use carla.Exit.Route.{RoutePoint}
use carla.Exit.Coordinator.{Core, Environment, WindowStatus, RouteChoice, no_response, confirm}
use carla.Exit.Coordinator.Signal.{
  drives, answer_missing, close_guidance, refresh_guidance, submit, branch, submit_branch,
  confirm_signal, ignore_late, follow_signal, update_signal_exit, retire, retire_abandoned_exit,
}
use carla.Exit.Coordinator.Rules.{Along}
use carla.Exit.Coordinator.Laws.{
  Preserves, Preserves-IsPreorder, kept_rules, cancel-Preserves, interrupt-Preserves,
}

module _ {F : Type 0} (c : Core F) where
  -- The answer that is missing is written over no decision.
  no_response_write :
      (now : Option TimestampEnvelope)
      → (is_none c.decision && drives c.actual_mode) ≡ true
      → Preserves c (record c {
        status = noresponse;
        decision = some no_response;
        decision_commit_timestamp = now;
      })
  unfolding Preserves
  no_response_write now g s = ground arith

  confirm_write :
      (receipt now : Option TimestampEnvelope)
      → Preserves c (record c {
        status = confirmed;
        automated = true;
        decision = some confirm;
        input_timestamp = receipt;
        decision_commit_timestamp = now;
      })
  unfolding Preserves
  confirm_write receipt now s = ground arith

module _ {F W : Type 0} ⦃fl : Float F⦄ (env : Environment F W) where
  answer-Preserves : (now : TimestampEnvelope) → Along Preserves (answer_missing env now)
  unfolding answer_missing
  answer-Preserves now = search (kept_rules, no_response_write) depth 16

  close-Preserves :
      (now : TimestampEnvelope) (r : WindowStatus) → Along Preserves (close_guidance env now r)
  unfolding close_guidance answer_missing
  close-Preserves now r = search (kept_rules, no_response_write) depth 24

  pub refresh-Preserves : (now : TimestampEnvelope) → Along Preserves (refresh_guidance env now)
  unfolding refresh_guidance
  refresh-Preserves now = search (kept_rules, close-Preserves) depth 24

  submit-Preserves :
      (k : RouteChoice) (m : Option (Exec Fault W Bool)) (now : TimestampEnvelope)
      → Along Preserves (submit env k m now)
  unfolding submit
  submit-Preserves k m now = search (kept_rules, cancel-Preserves) depth 24

  branch-Preserves :
      (p : Option (RoutePoint F)) (c : Core F) (o : Option (ExitObservation F))
      (now : TimestampEnvelope)
      → Along Preserves (branch env p c o now)
  unfolding branch
  branch-Preserves none c o now = search kept_rules
  branch-Preserves (some p) c none now = search kept_rules
  branch-Preserves (some p) c (some o) now = search (kept_rules, submit-Preserves) depth 24

  submit_branch-Preserves : (now : TimestampEnvelope) → Along Preserves (submit_branch env now)
  unfolding submit_branch
  submit_branch-Preserves now = search (kept_rules, branch-Preserves) depth 24

  confirm-Preserves :
      (d : DriverInput F) (receipt now : TimestampEnvelope)
      → Along Preserves (confirm_signal env d receipt now)
  unfolding confirm_signal
  confirm-Preserves d receipt now = search (kept_rules, confirm_write) depth 24

  late-Preserves :
      (d : DriverInput F) (receipt : TimestampEnvelope)
      → Along Preserves (ignore_late env d receipt)
  unfolding ignore_late
  late-Preserves d receipt = search kept_rules depth 24

  follow-Preserves :
      (d : DriverInput F) (receipt now : TimestampEnvelope) (busy : Bool)
      → Along Preserves (follow_signal env d receipt now busy)
  unfolding follow_signal
  follow-Preserves d receipt now busy =
      search
        (
          kept_rules, late-Preserves, confirm-Preserves, close-Preserves, interrupt-Preserves,
          submit_branch-Preserves,
        )
        depth 24

  pub signal-Preserves :
      (d : DriverInput F) (state : AutomationState) (receipt now : TimestampEnvelope) (busy : Bool)
      → Along Preserves (update_signal_exit env d state receipt now busy)
  unfolding update_signal_exit
  signal-Preserves d state receipt now busy =
      search
        (kept_rules, refresh-Preserves, cancel-Preserves, interrupt-Preserves, follow-Preserves)
        depth 24

  pub retire-Preserves : (o : ExitObservation F) → Along Preserves (retire_abandoned_exit env o)
  unfolding retire_abandoned_exit retire
  retire-Preserves o = search (kept_rules, interrupt-Preserves) depth 24
