-- ===== src/Exit/Coordinator/Laws/Confirmed.antt =====
-- The invariant of the core along `update` of src/experiment/exit_assistance.py.
use carla.Prelude.{◌≡◌, Bool, true, ◌&&◌, Option, none, some, arith}
use carla.Float.{Float}
use carla.Exec.{Exec}
use carla.Context.{Fault}
use carla.Automation.{AutomationState}
use carla.Interaction.{DriverInput}
use carla.Timestamp.{TimestampEnvelope}
use carla.Exit.{noresponse, confirmed, rejected, interrupted, ExitObservation}
use carla.Exit.Coordinator.{
  Core, Environment, no_response, confirm, reject, unavailable_driver_priority,
  unavailable_movement_started, unavailable_route,
}
use carla.Exit.Coordinator.Update.{
  is_presented, decided, emit_answer, refused_submission, hand_over, execute, accept, answer,
  respond, update_confirmation, update,
}
use carla.Exit.Coordinator.Rules.{Along, From}
use carla.Exit.Coordinator.Laws.{
  Preserves, Preserves-IsPreorder, kept_rules, interrupt-Preserves, fail-Preserves,
}
use carla.Exit.Coordinator.Laws.Signalled.{signal-Preserves}

module _ {F : Type 0} (c : Core F) (receipt commit : TimestampEnvelope) where
  -- While an opportunity is presented, any of these decisions is its first confirmation or none.
  confirmed_write :
      is_presented c.status ≡ true
      → c.automated ≡ true
      → Preserves c (decided confirmed confirm receipt commit c)
  unfolding Preserves decided
  confirmed_write p a s = ground arith

  rejected_write :
      is_presented c.status ≡ true → Preserves c (decided rejected reject receipt commit c)
  unfolding Preserves decided
  rejected_write p s = ground arith

  movement_write :
      is_presented c.status ≡ true
      → Preserves c (decided interrupted unavailable_movement_started receipt commit c)
  unfolding Preserves decided
  movement_write p s = ground arith

  route_write :
      is_presented c.status ≡ true
      → Preserves c (decided interrupted unavailable_route receipt commit c)
  unfolding Preserves decided
  route_write p s = ground arith

  priority_write :
      (acts fresh : Bool)
      → (is_presented c.status && fresh && acts) ≡ true
      → Preserves c (decided interrupted unavailable_driver_priority receipt commit c)
  unfolding Preserves decided
  priority_write acts fresh p s = ground arith

  timeout_write :
      (late : Bool)
      → (is_presented c.status && c.automated && c.recommendation_presented && late) ≡ true
      → Preserves c (record c {
        status = noresponse;
        decision = some no_response;
        decision_commit_timestamp = some commit;
      })
  unfolding Preserves
  timeout_write late p s = ground arith

module _ {F W : Type 0} ⦃fl : Float F⦄ (env : Environment F W) where
  answer_event-Preserves :
      (receipt commit : TimestampEnvelope) → Along Preserves (emit_answer env receipt commit)
  unfolding emit_answer
  answer_event-Preserves receipt commit = search kept_rules

  refused-Preserves :
      (m : Option (Exec Fault W TimestampEnvelope)) → Along Preserves (refused_submission env m)
  unfolding refused_submission
  refused-Preserves none = search kept_rules
  refused-Preserves (some m) = search (kept_rules, fail-Preserves)

  hand_over-Preserves :
      (m : Option (Exec Fault W Bool)) (o : ExitObservation F) → Along Preserves (hand_over env m o)
  unfolding hand_over
  hand_over-Preserves none o = search kept_rules depth 16
  hand_over-Preserves (some m) o = search (kept_rules, refused-Preserves) depth 16

  execute-Preserves :
      (commit : TimestampEnvelope) (o : ExitObservation F) → Along Preserves (execute env commit o)
  unfolding execute
  execute-Preserves commit o = search (kept_rules, hand_over-Preserves) depth 16

  accept-Preserves :
      (c : Core F) (o : Option (ExitObservation F)) (receipt commit : TimestampEnvelope)
      → is_presented c.status ≡ true
      → c.automated ≡ true
      → From Preserves c (accept env o receipt commit)
  unfolding accept
  accept-Preserves c none receipt commit p a =
      search (kept_rules, route_write, answer_event-Preserves) depth 16
  accept-Preserves c (some o) receipt commit p a =
      search (kept_rules, route_write, confirmed_write, answer_event-Preserves, execute-Preserves)
        depth 16

  answer-Preserves :
      (c : Core F) (d : DriverInput F) (receipt commit : TimestampEnvelope)
      → is_presented c.status ≡ true
      → c.automated ≡ true
      → From Preserves c (answer env d receipt commit)
  unfolding answer
  answer-Preserves c d receipt commit p a =
      search (kept_rules, rejected_write, movement_write, answer_event-Preserves, accept-Preserves)
        depth 16

  guarded_answer :
      (c : Core F) (d : DriverInput F) (receipt commit : TimestampEnvelope) (fresh : Bool)
      → (fresh && is_presented c.status && c.recommendation_presented && c.automated) ≡ true
      → From Preserves c (answer env d receipt commit)
  guarded_answer c d receipt commit fresh g =
      answer-Preserves c d receipt commit (ground arith) (ground arith)

  respond-Preserves :
      (d : DriverInput F) (state : AutomationState) (receipt commit : TimestampEnvelope)
      (fresh : Bool)
      → Along Preserves (respond env d state receipt commit fresh)
  unfolding respond
  respond-Preserves d state receipt commit fresh =
      search (kept_rules, interrupt-Preserves, priority_write, guarded_answer) depth 20

  confirmation-Preserves :
      (d : DriverInput F) (state : AutomationState) (receipt commit : TimestampEnvelope)
      (fresh : Bool)
      → Along Preserves (update_confirmation env d state receipt commit fresh)
  unfolding update_confirmation
  confirmation-Preserves d state receipt commit fresh =
      search (kept_rules, timeout_write, respond-Preserves) depth 20

  pub update-Preserves :
      (d : DriverInput F) (state : AutomationState) (receipt : TimestampEnvelope)
      (t : Option TimestampEnvelope) (busy : Bool)
      → Along Preserves (update env d state receipt t busy)
  unfolding update
  update-Preserves d state receipt t busy =
      search (kept_rules, signal-Preserves, confirmation-Preserves) depth 20
