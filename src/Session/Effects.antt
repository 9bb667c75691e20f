-- ===== src/Session/Effects.antt =====
-- src/p8/orchestrator.py: `ExperimentSession._begin_record`, `_activate_record`, `_end_record` and
-- `_save`, over the services of src/p8/services.py that they use.
use text.Mathlib.Text.{◌==◌ as str_eq}
use carla.Prelude.{
  Bool, true, false, ◌&&◌, Option, none, some, [], ◌∷◌, ◌++◌, String, is_none, if◌then◌else◌,
}
use carla.Float.{Float}
use carla.Exec.{Result, ok, err, Exec, pure, raise, gets, lift, modify, when, ◌>>=◌, ◌>>◌, zoom}
use carla.Session.{
  Stage, rest, session_created, Fault, runtime_error, value_error, os_error, key_error, other_error,
  p8_error, same_stage, minimum,
}
use carla.Session.Segment.{segment}
use carla.Session.Record.{
  StageRecord, Event, stage_start, stage_start_attempt, stage_end, stage_abort, Audit, Manifest,
  Session, Environment,
}

-- `except (RuntimeError, ValueError, OSError)`.
abbrev pub is_caught : Fault → Bool
is_caught (runtime_error m) = true
is_caught (value_error m) = true
is_caught (os_error m) = true
is_caught (key_error m) = false
is_caught (other_error m) = false

abbrev pub is_os_error : Fault → Bool
is_os_error (os_error m) = true
is_os_error _ = false

-- `except (OSError, ValueError, KeyError)`.
abbrev pub is_audit_error : Fault → Bool
is_audit_error (os_error m) = true
is_audit_error (value_error m) = true
is_audit_error (key_error m) = true
is_audit_error _ = false

-- `str(error)`.
abbrev pub message : Fault → String
message (runtime_error m) = m
message (value_error m) = m
message (os_error m) = m
message (key_error m) = m
message (other_error m) = m

module _ {S A : Type 0} where
  -- `try: m`, `except …: handler`, for the exceptions that `catches` tells.
  unfoldable pub try_except :
      (Fault → Bool) → Exec Fault S A → (Fault → Exec Fault S A) → Exec Fault S A
  try_except catches m handler s =
      let (r, s') = m s in
      elim r [ ok a ↦ (ok a, s') | err e ↦ if catches e then handler e s' else (err e, s') ]

  -- `try: m`, `finally: n`.
  unfoldable pub try_finally : Exec Fault S A → Exec Fault S Unit → Exec Fault S A
  try_finally m n s =
      let (r, s') = m s in let (q, s'') = n s' in elim q [ ok u ↦ (r, s'') | err e ↦ (err e, s'') ]

abbrev pub Action : Type 0 → Type 0 → Type 0 → Type 0 → Type 0
Action F J W A = Exec Fault (Session F J W) A

module _ {F J W A : Type 0} where
  unfoldable pub on_world : Exec Fault W A → Action F J W A
  unfolding zoom
  on_world = zoom (λ s. s.world) (λ s w. record s { world = w })

module _ {F J W : Type 0} ⦃fl : Float F⦄ (env : Environment F J W) where
  open env use {components}

  -- `SessionServices.emit`.
  unfoldable pub emit : Event F J → Action F J W Unit
  emit event = do
    s ← gets (λ s. s)
    when s.services_closed (raise (p8_error "SESSION_LOG_CLOSED"))
    context ← lift (segment env.run s.services_stage)
    on_world (env.write_event context event)

  -- Is the stage a rest whose timing is only recommended?
  unfoldable pub is_bounded_rest : Stage → Bool → Bool
  is_bounded_rest stage has = same_stage stage rest && has && components.is_bounded_operator

  -- The times at which a record is entered and, if it has `started`, at which it starts.
  unfoldable pub entry_times : Bool → Exec Fault W (F × Option F)
  entry_times started = do
    entry ← env.elapsed
    start ← if started then (do t ← env.elapsed; pure (some t)) else pure none
    pure (entry, start)

  -- The record that `_begin_record` makes in a state, for the stage of the services.
  unfoldable pub new_record : Stage → Stage → Bool → Bool → Exec Fault W (StageRecord F J)
  new_record state services_stage has started = do
    context ← lift (segment env.run services_stage)
    let least = minimum env.profile state
    times ← entry_times started
    let bounded = is_bounded_rest state has
    pure record {
      stage = state;
      status = if started then "RUNNING" else "ENTERING";
      entry_attempt_session_s = times.0;
      start_session_s = times.1;
      end_session_s = none;
      duration_s = none;
      condition = context.condition;
      minimum_s = if bounded then fl.of_ℕ 0 else least;
      recommended_duration_s = if bounded then some least else none;
      receipts = [];
      receipt_values = [];
      reason = none;
      dev_approval = none;
      execution_policy_outcome = none;
    }

  unfoldable pub begin_record : Bool → Action F J W Unit
  begin_record started = do
    s ← gets (λ s. s)
    r ← on_world (new_record s.state s.services_stage s.has_components started)
    modify (λ s. record s { past = s.past ++ s.current ∷ []; current = r })
    emit (if started then stage_start s.state else stage_start_attempt s.state)

  unfoldable pub activate_record : Action F J W Unit
  activate_record = do
    start ← on_world env.elapsed
    modify (λ s. record s {
      current = record s.current { status = "RUNNING"; start_session_s = some start };
    })
    s ← gets (λ s. s)
    emit (stage_start s.state)

  -- The `duration_s` of a record that ends.
  unfoldable pub duration : Option F → F → Bool → Exec Fault W (Option F)
  duration none end truthful = pure none
  duration (some start) end truthful = do
    now ← if truthful then pure end else env.elapsed
    pure (some (fl.sub now start))

  unfoldable pub end_record : String → String → Action F J W Unit
  end_record status reason = do
    s ← gets (λ s. s)
    when (is_none s.current.end_session_s) (do
      end ← on_world env.elapsed
      lasted ←
          on_world
            (duration s.current.start_session_s end (is_bounded_rest s.state s.has_components))
      modify (λ s. record s {
        current = record s.current {
          status = status;
          end_session_s = some end;
          duration_s = lasted;
          reason = some reason;
        };
      })
      t ← gets (λ s. s)
      emit (if str_eq status "ABORTED" then stage_abort t.current else stage_end t.current))

  -- `{} if self.components is None else self.components.snapshot()`.
  unfoldable pub snapshot : Action F J W (Option J)
  snapshot = do
    s ← gets (λ s. s)
    if s.has_components then (do j ← on_world components.snapshot; pure (some j)) else pure none

  unfoldable pub in_progress : Audit
  in_progress = record { software_artifacts_complete = false; issues = "RUN_IN_PROGRESS" ∷ [] }

  unfoldable pub manifest : Session F J W → String → Option J → Audit → Manifest F J
  manifest s status components audit = record {
    state = s.state;
    completion_status = status;
    abort_reason = s.abort_reason;
    past_stages = s.past;
    current_stage = s.current;
    components = components;
    initial_components = s.initial_components;
    cleanup = s.cleanup_report;
    completeness = audit;
  }

  unfoldable pub save : String → Audit → Action F J W Unit
  save status audit = do
    parts ← snapshot
    modify (λ s. record s { result = some (manifest s status parts audit) })
    s ← gets (λ s. s)
    on_world (env.save_manifest (manifest s status parts audit))

  -- The fields that `__init__` sets, and the record that it begins.
  unfoldable pub fresh : StageRecord F J → W → Session F J W
  fresh r w = record {
    state = session_created;
    services_stage = session_created;
    services_closed = false;
    has_components = false;
    closed = false;
    past = [];
    current = r;
    receipts = [];
    abort_reason = none;
    cleanup_report = record { completed = false; order = []; errors = [] };
    initial_components = none;
    result = none;
    lifecycle_errors = [];
    world = w;
  }

  abbrev returned : Result Fault Unit × Session F J W → Result Fault (Session F J W)
  returned (ok u, s) = ok s
  returned (err e, s) = err e

  -- `ExperimentSession(…)`.
  unfoldable pub construct : W → Result Fault (Session F J W)
  construct w =
      let (r, w') = new_record session_created session_created false true w in
      elim r [
        | ok first ↦
            returned
              ((emit (stage_start session_created) >> save "RUNNING" in_progress) (fresh first w'))
        | err e ↦ err e
      ]
