-- ===== src/Hazard/Scenario.antt =====
-- src/p7/hazard.py: `HazardScenario`. The actors, the registry of occurrences, the event sink and the
-- policy act on the world. An event carries the observation, the metrics and what its payload adds;
-- the clock is the scenario's own.
pub mod States
mod Termination
mod Tests
use carla.Prelude.{
  ℕ, Bool, true, false, ◌&&◌, ◌||◌, not, Option, none, some, is_none, is_some, List, [], ◌∷◌,
  String, if◌then◌else◌,
}
use carla.Prelude.Strings.{text_append}
use carla.Float.{Float}
use carla.Exec.{Result, ok, err, Exec, pure, raise, gets, lift, modify, when, ◌>>=◌, ◌>>◌, zoom}
use carla.Context.{ExperimentModule, module_2}
use carla.Session.{Fault, runtime_error, value_error}
use carla.Session.Segment.{ExperimentPhase, final_hazard_assessment}
use carla.Session.Effects.{message, try_except}
use carla.Timestamp.{
  TimestampEnvelope, SessionClock, SessionClockError, moved_backwards, precedes_origin,
  elapsed_seconds, project_elapsed_seconds,
}
use carla.Hazard.{
  HazardState, idle, completed, aborted, HazardOutcome, unobservable, TriggerSource,
  ego_route_station, dev_lead_route_station, EventKind, HazardConfig, HazardObservation,
  TriggerAction, wait, fire, block, TriggerDecision, OutcomeDecision, HazardPolicy, p7_error,
}
use carla.Hazard.Metrics.{ResponseMetrics, observe_input, observe_geometry, new_metrics}

pub record HazardEvent (F : Type 0) : Type 0 where
  pub kind : EventKind
  pub timestamp : TimestampEnvelope
  pub state : HazardState
  pub outcome : Option HazardOutcome
  pub observation : HazardObservation F
  pub metrics : ResponseMetrics F
  pub reason : Option String
  pub session_elapsed_s : F

pub record Environment (F W : Type 0) : Type 0 where
  pub config : HazardConfig F
  pub module' : ExperimentModule
  pub phase : ExperimentPhase
  pub claim : Exec Fault W Unit
  pub prepare : TimestampEnvelope → Exec Fault W Unit
  pub begin_reveal : TimestampEnvelope → Exec Fault W Unit
  pub sink : HazardEvent F → Exec Fault W Unit
  pub policy : Option (HazardPolicy F W)

pub record Scenario (F W : Type 0) : Type 0 where
  pub state : HazardState
  pub outcome : Option HazardOutcome
  pub metrics : ResponseMetrics F
  pub termination_requested : Bool
  pub lateral_started : Bool
  pub lead_complete : Bool
  pub armed_t : Option F
  pub reservation_claimed : Bool
  pub actors_prepared : Bool
  pub terminal_reason : Option String
  pub clock : SessionClock
  pub world : W

abbrev pub Action : Type 0 → Type 0 → Type 0 → Type 0
Action F W A = Exec Fault (Scenario F W) A

-- `SessionClockError` is a `ValueError`.
abbrev pub clock_fault : SessionClockError → Fault
clock_fault moved_backwards = value_error "host monotonic timestamp moved backwards"
clock_fault precedes_origin = value_error "host monotonic timestamp precedes session origin"

abbrev pub of_clock : {A : Type 0} → Result SessionClockError A → Result Fault A
of_clock (ok a) = ok a
of_clock (err e) = err (clock_fault e)

-- `except RuntimeError`, and `P7Error` is one.
abbrev pub is_runtime : Fault → Bool
is_runtime (runtime_error m) = true
is_runtime _ = false

abbrev pub is_idle : HazardState → Bool
is_idle idle = true
is_idle _ = false

abbrev pub is_armed : HazardState → Bool
is_armed HazardState.armed = true
is_armed _ = false

-- `state in (COMPLETED, ABORTED)`.
abbrev pub is_over : HazardState → Bool
is_over completed = true
is_over aborted = true
is_over _ = false

abbrev pub is_response : EventKind → Bool
is_response EventKind.response = true
is_response _ = false

abbrev pub same_outcome_unobservable : HazardOutcome → Bool
same_outcome_unobservable unobservable = true
same_outcome_unobservable _ = false

-- The reason why an observation before the trigger, or during the hazard, counts for nothing.
unfoldable pub first_invalid : {F : Type 0} → HazardObservation F → Option String
first_invalid o =
    if not o.actors_alive
    then some "ACTOR_LOST"
    else if not o.obstacle_stationary
    then some "OBSTACLE_MOVED"
    else if not o.route_valid
    then some "ROUTE_INVALID"
    else if not o.lead_path_clear
    then some "LEAD_PATH_BLOCKED"
    else if o.p5_active
    then some "P5_CONFLICT"
    else none

-- The reason of a termination, and the outcome that it sets.
unfoldable pub termination_reason : Bool → Bool → String
termination_reason true true = "COLLISION_AND_ROAD_DEPARTURE"
termination_reason true false = "collision"
termination_reason false departed = "road_departure"

unfoldable pub termination_outcome : Bool → Bool → Option HazardOutcome → Option HazardOutcome
termination_outcome true true before = before
termination_outcome true false before = some HazardOutcome.collision
termination_outcome false departed before = some HazardOutcome.road_departure

module _ {F W A : Type 0} where
  unfoldable pub on_world : Exec Fault W A → Action F W A
  unfolding zoom
  on_world = zoom (λ s. s.world) (λ s w. record s { world = w })

module _ {F W : Type 0} ⦃fl : Float F⦄ (env : Environment F W) where
  open env use {config}

  unfoldable pub new : SessionClock → W → Scenario F W
  new clock world = record {
    state = idle;
    outcome = none;
    metrics = new_metrics config.brake_candidate config.steer_candidate;
    termination_requested = false;
    lateral_started = false;
    lead_complete = false;
    armed_t = none;
    reservation_claimed = false;
    actors_prepared = false;
    terminal_reason = none;
    clock = clock;
    world = world;
  }

  -- `self.clock.elapsed_seconds(observation.timestamp.host)`.
  unfoldable pub tick : HazardObservation F → Action F W F
  tick o s =
      let (r, clock) = elapsed_seconds o.timestamp.host s.clock in
      (of_clock r, record s { clock = clock })

  unfoldable pub emit_at :
      TimestampEnvelope → EventKind → HazardObservation F → Option String → Action F W Unit
  emit_at emitted_at kind o reason = do
    s ← gets (λ s. s)
    elapsed ← lift (of_clock (project_elapsed_seconds emitted_at.host s.clock))
    on_world (
        env.sink (record {
          kind = kind;
          timestamp = emitted_at;
          state = s.state;
          outcome = s.outcome;
          observation = o;
          metrics = s.metrics;
          reason = reason;
          session_elapsed_s = elapsed;
        }))

  unfoldable pub emit : EventKind → HazardObservation F → Option String → Action F W Unit
  emit kind o reason = emit_at o.timestamp kind o reason

  unfoldable pub station : HazardObservation F → F
  station o = elim config.trigger_source [
    | ego_route_station ↦ o.ego_station_m
    | dev_lead_route_station ↦ o.lead_station_m
  ]

  -- `abort`, past its test; `at` is the event's timestamp.
  unfoldable pub abort_live :
      HazardObservation F → String → Option HazardOutcome → TimestampEnvelope → Action F W Unit
  abort_live o reason outcome at = do
    modify (λ s. record s {
      state = aborted;
      terminal_reason = some reason;
      outcome = if is_some outcome then outcome else s.outcome;
    })
    emit_at at EventKind.abort o (some reason)

  unfoldable pub abort :
      HazardObservation F → String → Option HazardOutcome → TimestampEnvelope → Action F W Unit
  abort o reason outcome at = do
    s ← gets (λ s. s)
    when (not (is_over s.state)) (abort_live o reason outcome at)

  -- `abort(observation, reason, HazardOutcome.UNOBSERVABLE)`.
  unfoldable pub give_up : HazardObservation F → String → Action F W Unit
  give_up o reason = abort o reason (some unobservable) o.timestamp

  -- What `arm` tests of the observation.
  unfoldable pub arm_refusal : HazardObservation F → Option String
  arm_refusal o =
      if not o.route_valid
        || not (fl.is_finite (station o))
        || (is_none env.policy && fl.le config.trigger_station_m (station o))
      then some "TRIGGER_LOCATION_INVALID_OR_ALREADY_PASSED"
      else if o.p5_active
      then some "P5_CONFLICT"
      else if fl.is_finite o.lead_lateral_m
          && fl.is_finite o.distance_m
          && fl.is_finite o.closing_speed_mps
          && fl.is_finite o.ego_speed_mps
      then none
      else some "NONFINITE_OBSERVATION"

  unfoldable pub refuse : Option String → Action F W Unit
  refuse none = pure tt
  refuse (some reason) = raise (p7_error reason)

  unfoldable pub observe_driver : F → HazardObservation F → Action F W (List EventKind)
  observe_driver now o = do
    s ← gets (λ s. s)
    modify (λ s. record s { metrics = (observe_input now o.driver_input s.metrics).1 })
    pure (observe_input now o.driver_input s.metrics).0

  -- The body of the `try` of `arm`.
  unfoldable pub set_arms : HazardObservation F → Action F W Bool
  set_arms o = do
    refuse (arm_refusal o)
    on_world env.claim
    modify (λ s. record s { reservation_claimed = true })
    on_world (env.prepare o.timestamp)
    modify (λ s. record s { actors_prepared = true; state = HazardState.armed })
    now ← tick o
    modify (λ s. record s { armed_t = some now })
    emit EventKind.armed o none
    later ← tick o
    observe_driver later o
    pure true

  -- The `except` of `arm`.
  abbrev pub disarm : HazardObservation F → Fault → Action F W Bool
  disarm o e = do give_up o (message e); raise e

  -- `arm` of an enabled scenario, by the module and the phase.
  unfoldable pub arm_in :
      ExperimentModule → ExperimentPhase → HazardState → HazardObservation F → Action F W Bool
  arm_in module_2 final_hazard_assessment state o = do
    when (not (is_idle state)) (raise (p7_error "HAZARD_ALREADY_ARMED_OR_EXECUTED"))
    try_except is_runtime (set_arms o) (disarm o)
  arm_in _ phase state o = pure false

  unfoldable pub arm : HazardObservation F → Action F W Bool
  arm o = do
    s ← gets (λ s. s)
    if not config.enabled then pure false else arm_in env.module' env.phase s.state o

  -- `update`, where a collision or a departure from the road is observed.
  unfoldable pub terminate : HazardObservation F → Action F W Unit
  terminate o = do
    let collided = is_some o.collision_actor_id
    let reason = termination_reason collided o.road_departure
    modify (λ s. record s {
      termination_requested = true;
      outcome = termination_outcome collided o.road_departure s.outcome;
    })
    when collided (emit EventKind.collision o none)
    when o.road_departure (emit EventKind.road_departure o none)
    emit EventKind.termination o (some reason)
    abort o reason none o.timestamp

  -- The values that have to be finite.
  unfoldable pub is_finite_observation : HazardObservation F → Bool
  is_finite_observation o =
      fl.is_finite (station o)
      && fl.is_finite o.distance_m
      && fl.is_finite o.closing_speed_mps
      && fl.is_finite o.ego_speed_mps
      && fl.is_finite o.lead_lateral_m

  -- Why an observation ends the scenario unobserved.
  unfoldable pub refusal : HazardState → HazardObservation F → Option String
  refusal state o = elim (first_invalid o) [
    | some reason ↦ some reason
    | none ↦
        if not (is_finite_observation o)
        then some "NONFINITE_OBSERVATION"
        else if is_armed state
            && (o.reveal_clear || fl.le config.lateral_onset_m (fl.abs o.lead_lateral_m))
        then some "PRETRIGGER_LEAD_OR_REVEAL_INVALID"
        else none
  ]

  unfoldable pub waiting : TriggerDecision
  waiting = record { action = wait; reason = "WAITING" }

  -- The policy's decision; the time since the arming is asserted to be there.
  unfoldable pub policy_trigger :
      HazardPolicy F W → HazardObservation F → F → Option F → Action F W TriggerDecision
  policy_trigger p o now none = raise (Fault.other_error "AssertionError")
  policy_trigger p o now (some armed_t) = on_world (p.trigger o (fl.sub now armed_t))

  unfoldable pub decide_by :
      Option (HazardPolicy F W) → HazardObservation F → F → Option F → Action F W TriggerDecision
  decide_by none o now armed_t = pure (
      if fl.le config.trigger_station_m (station o)
      then record { action = fire; reason = "PREDEFINED_STATION_REACHED" }
      else waiting)
  decide_by (some p) o now armed_t = policy_trigger p o now armed_t

  -- The trigger of an armed scenario.
  unfoldable pub decide : HazardObservation F → F → Action F W TriggerDecision
  decide o now = do s ← gets (λ s. s); decide_by env.policy o now s.armed_t

  unfoldable pub write_trigger : HazardObservation F → F → Action F W Unit
  write_trigger o now = modify (λ s. record s {
    state = HazardState.triggered;
    metrics = record s.metrics {
      trigger_t = some now;
      start_speed_mps = some o.ego_speed_mps;
      start_distance_m = some o.distance_m;
    };
  })

  -- The actors begin the reveal; what is returned is whether the update goes on.
  unfoldable pub begin : HazardObservation F → Action F W Bool
  begin o =
      try_except is_runtime (do on_world (env.begin_reveal o.timestamp); pure true)
        (λ e. do give_up o (text_append "LEAD_START_FAILED:" (message e)); pure false)

  unfoldable pub start_moving : HazardObservation F → Action F W Unit
  start_moving o = do
    modify (λ s. record s { state = HazardState.lead_moving_aside })
    emit EventKind.lead_start o none

  unfoldable pub measure : HazardObservation F → Action F W Unit
  measure o = modify (λ s. record s {
    metrics = observe_geometry o.distance_m o.closing_speed_mps o.collision_course s.metrics;
  })

  -- The lead vehicle begins to leave its lane.
  unfoldable pub note_lateral : HazardObservation F → Action F W Unit
  note_lateral o = do
    s ← gets (λ s. s)
    when (not s.lateral_started && fl.le config.lateral_onset_m (fl.abs o.lead_lateral_m))
        (do modify (λ s. record s { lateral_started = true }); emit EventKind.lateral_onset o none)

  unfoldable pub note_reveal : HazardObservation F → F → Action F W Unit
  note_reveal o now = do
    s ← gets (λ s. s)
    when (is_none s.metrics.reveal_t && o.reveal_clear) (do
      modify (λ s. record s {
        metrics = record s.metrics { reveal_t = some now };
        state = HazardState.hazard_revealed;
      })
      emit EventKind.revealed o none)

  unfoldable pub note_lead : HazardObservation F → Action F W Unit
  note_lead o = do
    s ← gets (λ s. s)
    when (not s.lead_complete && o.lead_complete)
        (do modify (λ s. record s { lead_complete = true }); emit EventKind.lead_complete o none)

  -- What is measured after the trigger.
  unfoldable pub after_trigger : HazardObservation F → F → Action F W Unit
  after_trigger o now = do
    s ← gets (λ s. s)
    when (is_some s.metrics.trigger_t)
        (do measure o; note_lateral o; note_reveal o now; note_lead o)

  unfoldable pub respond : Action F W Unit
  respond = modify (λ s. record s { state = HazardState.responded })

  -- `for kind in …`.
  unfoldable pub respond_to : HazardObservation F → List EventKind → Action F W Unit
  respond_to o [] = pure tt
  respond_to o (kind ∷ kinds) =
      let rest = respond_to o kinds in do when (is_response kind) respond; emit kind o none; rest

  unfoldable pub complete : Option HazardOutcome → String → HazardObservation F → Action F W Unit
  complete outcome reason o = do
    modify (λ s. record s {
      state = completed;
      outcome = if is_some outcome then outcome else s.outcome;
      terminal_reason = some reason;
    })
    emit EventKind.complete o (some reason)

  unfoldable pub conclude_with : HazardObservation F → Option OutcomeDecision → Action F W Unit
  conclude_with o none = pure tt
  conclude_with o (some d) =
      if same_outcome_unobservable d.outcome
      then abort o d.reason (some d.outcome) o.timestamp
      else complete (some d.outcome) d.reason o

  unfoldable pub policy_conclude :
      HazardPolicy F W → HazardObservation F → F → Option F → Option F → Action F W Unit
  policy_conclude p o now none reveal_t = pure tt
  policy_conclude p o now (some trigger_t) reveal_t = do
    d ← on_world (
        p.outcome o (fl.sub now trigger_t)
          (elim reveal_t [ none ↦ none | some t ↦ some (fl.sub now t) ]))
    conclude_with o d

  -- Has the observation after the reveal been long enough?
  unfoldable pub ended : F → Option F → Bool
  ended now none = false
  ended now (some reveal_t) = fl.le config.observation_duration_s (fl.sub now reveal_t)

  unfoldable pub conclude_by :
      Option (HazardPolicy F W) → HazardObservation F → F → Scenario F W → Action F W Unit
  conclude_by (some p) o now s = policy_conclude p o now s.metrics.trigger_t s.metrics.reveal_t
  conclude_by none o now s =
      when (s.lead_complete && ended now s.metrics.reveal_t)
        (complete none "DEV_OBSERVATION_ENDED_NOT_VALIDATED" o)

  -- The end of `update`.
  unfoldable pub conclude : HazardObservation F → F → Action F W Unit
  conclude o now = do s ← gets (λ s. s); conclude_by env.policy o now s

  -- `update`, past the trigger.
  unfoldable pub follow : HazardObservation F → F → Action F W Unit
  follow o now = do
    after_trigger o now
    kinds ← observe_driver now o
    respond_to o kinds
    emit EventKind.sample o none
    conclude o now

  -- The trigger has been decided.
  unfoldable pub act : TriggerAction → String → HazardObservation F → F → Action F W Unit
  act wait reason o now = follow o now
  act block reason o now = give_up o reason
  act fire reason o now = do
    write_trigger o now
    emit EventKind.trigger o (some reason)
    goes ← begin o
    when goes (do start_moving o; follow o now)

  -- An observation that is not refused.
  unfoldable pub proceed : Option String → HazardState → HazardObservation F → F → Action F W Unit
  proceed (some reason) state o now = give_up o reason
  proceed none state o now =
      if is_armed state then (do d ← decide o now; act d.action d.reason o now) else follow o now

  -- `update` of a scenario that is under way, at a time.
  unfoldable pub watch : HazardObservation F → F → Action F W Unit
  watch o now =
      if is_some o.collision_actor_id || o.road_departure
      then terminate o
      else do s ← gets (λ s. s); proceed (refusal s.state o) s.state o now

  unfoldable pub update : HazardObservation F → Action F W Unit
  update o = do
    s ← gets (λ s. s)
    when (not (is_idle s.state) && not (is_over s.state)) (do now ← tick o; watch o now)
