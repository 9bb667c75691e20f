-- ===== src/Exit/Coordinator/Methods.antt =====
-- The methods of src/experiment/exit_assistance.py that start, interrupt and finish an opportunity.
use carla.Prelude.{Bool, true, false, not, Option, none, some, is_some, if◌then◌else◌}
use carla.Float.{Float}
use carla.Exec.{Result, ok, err, Exec, raise, lift, when, ◌>>=◌, ◌>>◌}
use carla.Context.{Fault, exit_presentation, external}
use carla.Timestamp.{TimestampEnvelope, SessionClock, project_elapsed_seconds}
use carla.Exit.{
  ExitAssistanceStatus, waiting, completed, interrupted, not_presented, confirmed,
  ExitTerminationReason,
}
use carla.Exit.Coordinator.{
  lc_active_drive_started, lc_finished, lc_route_cancelled, lc_route_cancel_unverified, Reason,
  terminated, assisted_submission_unverified, Outcome, plain, ended, Environment, Coordinator,
}
use carla.Exit.Coordinator.Emit.{core, set, on_world, emit}

abbrev pub is_confirmed : ExitAssistanceStatus → Bool
is_confirmed confirmed = true
is_confirmed _ = false

-- `status in (COMPLETED, INTERRUPTED, NOT_PRESENTED)`.
abbrev pub is_over : ExitAssistanceStatus → Bool
is_over completed = true
is_over interrupted = true
is_over not_presented = true
is_over _ = false

abbrev pub is_waiting : ExitAssistanceStatus → Bool
is_waiting waiting = true
is_waiting _ = false

-- An optional callback and its result; a callback that raises counts as one that returns false.
module _ {F W : Type 0} where
  unfoldable pub attempt : Option (Exec Fault W Bool) → Exec Fault (Coordinator F W) Bool
  attempt none s = (ok false, s)
  attempt (some callback) s =
      let (r, w) = callback s.world in
      (elim r [ ok accepted ↦ ok accepted | err e ↦ ok false ], record s { world = w })

module _ {F W : Type 0} ⦃fl : Float F⦄ (env : Environment F W) where
  unfoldable pub start_elapsed : Option SessionClock → TimestampEnvelope → Result Fault (Option F)
  start_elapsed none timestamp = ok none
  start_elapsed (some clock) timestamp = elim (project_elapsed_seconds timestamp.host clock) [
    | ok t ↦ ok (some t)
    | err e ↦ err (external "SessionClockError")
  ]

  unfoldable pub start_active_drive : TimestampEnvelope → Exec Fault (Coordinator F W) Unit
  start_active_drive timestamp = do
    c ← core
    when (is_some c.active_drive_start)
        (raise (exit_presentation "active drive timing is already started"))
    set (λ c. record c { active_drive_start = some timestamp })
    start_s ← lift (start_elapsed env.session_clock timestamp)
    set (λ c. record c { active_drive_start_elapsed_s = start_s })
    emit env lc_active_drive_started timestamp plain

  unfoldable pub mark_not_presented : TimestampEnvelope → Exec Fault (Coordinator F W) Unit
  mark_not_presented timestamp = do
    set (λ c. record c { status = not_presented; presentation = none })
    emit env lc_finished timestamp (ended Outcome.not_presented Reason.eligibility_window_closed)

  unfoldable pub cancel_automatic_route : TimestampEnvelope → Exec Fault (Coordinator F W) Unit
  cancel_automatic_route timestamp = do
    c ← core
    when c.automatic_route_armed (do
      set (λ c. record c { automatic_route_armed = false })
      verified ← attempt env.automatic_route_cancellation
      set (λ c. record c { automatic_route_cancel_unverified = not verified })
      emit env (if verified then lc_route_cancelled else lc_route_cancel_unverified) timestamp
          plain)

  -- `if self._route_was_armed: self._reference.cancel(); …`.
  unfoldable pub disarm : Exec Fault (Coordinator F W) Unit
  disarm = do
    c ← core
    when c.route_was_armed (do on_world env.cancel; set (λ c. record c { route_was_armed = false }))

  unfoldable pub interrupt : TimestampEnvelope → Reason → Exec Fault (Coordinator F W) Unit
  interrupt timestamp reason = do
    set (λ c. record c { status = ExitAssistanceStatus.interrupted })
    when env.config.signal_guided_exit (do
      set (λ c. record c { finished = true; presentation = none })
      cancel_automatic_route timestamp)
    disarm
    emit env lc_finished timestamp (ended Outcome.interrupted reason)

  unfoldable pub fail_assisted_submission : TimestampEnvelope → Exec Fault (Coordinator F W) Unit
  fail_assisted_submission timestamp = do
    c ← core
    when (is_confirmed c.status) (
        if env.config.signal_guided_exit
        then interrupt timestamp assisted_submission_unverified
        else do
          set (λ c. record c { status = ExitAssistanceStatus.interrupted })
          emit env lc_finished timestamp (ended Outcome.unverified assisted_submission_unverified))

  unfoldable pub finish :
      ExitTerminationReason → TimestampEnvelope → Exec Fault (Coordinator F W) Unit
  finish reason timestamp = do
    set (λ c. record c { finished = true })
    cancel_automatic_route timestamp
    set (λ c. record c { presentation = none })
    c ← core
    when (not (is_over c.status)) (do
      set (λ c. record c { status = ExitAssistanceStatus.interrupted })
      disarm
      emit env lc_finished timestamp (
          ended (if is_waiting c.status then Outcome.not_reached else Outcome.interrupted)
            (terminated reason)))
