-- ===== src/Session/Finalize.antt =====
-- src/p8/orchestrator.py: `ExperimentSession._finalize`, `abort` and `initialize`.
use text.Mathlib.Text.{◌==◌ as str_eq}
use carla.Prelude.{
  Bool, true, false, ◌&&◌, not, Option, none, some, List, [], ◌∷◌, ◌++◌, String, if◌then◌else◌,
}
use carla.Prelude.Strings.{text_append, join}
use carla.Float.{Float}
use carla.Exec.{pure, raise, gets, lift, modify, when, ◌>>=◌, ◌>>◌}
use carla.Session.{Fault, Stage, is_participant, require_participant_ready}
use carla.Session.Record.{
  assignment, p8_logs_flushed_before_cleanup, p8_cleanup_end, CleanupStep, logger_flush,
  owned_resource_cleanup, session_status_persist, Audit, Environment,
}
use carla.Session.Effects.{
  is_caught, is_os_error, is_audit_error, message, try_except, try_finally, Action, on_world, emit,
  begin_record, end_record, snapshot, in_progress, save,
}

abbrev pub is_empty : List String → Bool
is_empty [] = true
is_empty (x ∷ xs) = false

-- `reason or text`: the empty text counts as no reason.
unfoldable pub reason_or : Option String → String → String
reason_or none text = text
reason_or (some r) text = if str_eq r "" then text else r

module _ {F J W : Type 0} ⦃fl : Float F⦄ (env : Environment F J W) where
  open env use {components}

  -- `try: m`, and what it raises is one more error, under a label.
  unfoldable pub collect :
      (Fault → Bool) → String → Action F J W Unit → List String → Action F J W (List String)
  collect catches label m errors =
      try_except catches (do m; pure errors)
        (λ e. pure (errors ++ text_append label (message e) ∷ []))

  -- `SessionServices.close`.
  unfoldable pub close : Action F J W Unit
  close = do
    s ← gets (λ s. s)
    when (not s.services_closed)
        (do on_world env.close_logger; modify (λ s. record s { services_closed = true }))

  -- `inspect_outputs` and the audit that stands for one that failed.
  unfoldable pub audit_of : Bool → Option J → Action F J W Audit
  audit_of complete parts =
      try_except is_audit_error (on_world (env.inspect_outputs complete parts)) (λ e. pure record {
        software_artifacts_complete = false;
        issues = text_append "AUDIT_ERROR:" (message e) ∷ [];
      })

  -- The errors make the session aborted; the report of the cleanup is written, and it is closed.
  unfoldable pub shut : List String → List CleanupStep → Action F J W Unit
  shut errors order = do
    when (not (is_empty errors)) (
        modify (λ s. record s {
          abort_reason = some (reason_or s.abort_reason (join ";" errors));
          state = Stage.aborted;
        }))
    modify (λ s. record s {
      cleanup_report = record {
        completed = is_empty errors;
        order = order ++ session_status_persist ∷ [];
        errors = errors;
      };
      closed = true;
    })

  -- `finalize_collection` and `export_operator_results`, for an operator's session.
  unfoldable pub export : Action F J W Unit
  export =
      when env.operator_provenance
        (do on_world env.finalize_collection; on_world env.export_operator_results)

  -- The end of `_finalize`, with the status that the errors have left.
  unfoldable pub persist : String → Action F J W Unit
  persist status = do
    parts ← snapshot env
    audit ← audit_of (str_eq status "DEV_FLOW_COMPLETE") parts
    let incomplete = str_eq status "DEV_FLOW_COMPLETE" && not audit.software_artifacts_complete
    when incomplete (
        modify (λ s. record s {
          abort_reason = some "OUTPUT_COMPLETENESS_FAILED";
          state = Stage.aborted;
        }))
    try_finally (save env (if incomplete then "ABORTED" else status) audit) export

  -- The part of `_finalize` that collects errors, and the steps that it has passed.
  unfoldable pub wind_up : Action F J W (List String × List CleanupStep)
  wind_up = do
    s ← gets (λ s. s)
    e1 ←
        collect is_caught "FLUSH:" (when s.has_components (on_world components.flush))
          s.lifecycle_errors
    let flushed = logger_flush ∷ []
    e2 ← collect is_caught "FLUSH_EVENT:" (emit env (p8_logs_flushed_before_cleanup e1)) e1
    e3 ← collect is_caught "CLEANUP:" (when s.has_components (on_world components.cleanup)) e2
    let cleaned = flushed ++ owned_resource_cleanup ∷ []
    e4 ← collect is_caught "CLEANUP_EVENT:" (emit env (p8_cleanup_end e3)) e3
    e5 ← collect is_os_error "LOGGER_CLOSE:" close e4
    pure (e5, cleaned)

  unfoldable pub finalize : String → Action F J W Unit
  finalize status = do
    (errors, order) ← wind_up
    shut errors order
    persist (if is_empty errors then status else "ABORTED")

  -- `try: m`, and what it raises is one more lifecycle error.
  unfoldable pub note : String → Action F J W Unit → Action F J W Unit
  note label m = try_except is_caught m (λ e. modify (λ s. record s {
    lifecycle_errors = s.lifecycle_errors ++ text_append label (message e) ∷ [];
  }))

  -- The completion status of an aborted session.
  unfoldable pub abort_status : Bool → String → String
  abort_status blocked reason =
      if blocked
      then "PARTICIPANT_BLOCKED"
      else if str_eq reason "HAZARD_COLLISION"
      then "ENDED_AFTER_HAZARD_COLLISION"
      else "ABORTED"

  -- `abort`, past the test for a closed session.
  unfoldable pub abort_open : String → Bool → Action F J W Unit
  abort_open reason blocked = do
    modify (λ s. record s { abort_reason = some reason })
    note "ABORT_EVENT:" (end_record env "ABORTED" reason)
    modify (λ s. record s { state = Stage.aborted; services_stage = Stage.aborted })
    note "ABORT_START:" (begin_record env true)
    note "ABORT_END:" (end_record env "ABORTED" reason)
    finalize (abort_status blocked reason)

  unfoldable pub abort : String → Bool → Action F J W Unit
  abort reason blocked = do s ← gets (λ s. s); when (not s.closed) (abort_open reason blocked)

  -- The body of the `try` of `initialize`.
  unfoldable pub set_up : Action F J W Unit
  set_up = do
    when (is_participant env.mode) (lift (require_participant_ready env.readiness))
    on_world components.make
    modify (λ s. record s { has_components = true })
    parts ← on_world components.snapshot
    modify (λ s. record s { initial_components = some parts })
    emit env assignment
    save env "RUNNING" (in_progress env)

  -- The `except` of `initialize`.
  abbrev pub give_up_setup : Fault → Action F J W Unit
  give_up_setup e = do abort (message e) (is_participant env.mode); raise e

  unfoldable pub initialize : Action F J W Unit
  initialize = try_except is_caught set_up give_up_setup
