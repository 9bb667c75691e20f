-- ===== src/Exit/Coordinator/Emit.antt =====
-- `_emit` of src/experiment/exit_assistance.py, and the tests of the eligibility window.
use carla.Prelude.{
  Bool, true, false, ◌&&◌, not, Option, none, some, ◌++◌, [], ◌∷◌, if◌then◌else◌, length, ltb, ◌≡◌,
  refl, arith, Bool-cases, inl, inr,
}
use carla.Prelude.Int.{sub_ℕ}
use carla.Float.{Float}
use carla.Exec.{Result, ok, err, Exec, pure, raise, gets, lift, modify, when, ◌>>=◌, ◌>>◌, zoom}
use carla.Context.{Fault, exit_presentation, external}
use carla.Timestamp.{TimestampEnvelope, SessionClock, SessionClockError, project_elapsed_seconds}
use carla.Exit.Coordinator.{
  EventType, lc_completed, lc_opportunity_retired, Reason, exit_corridor_left, event_name, Details,
  Core, ExitAssistanceEvent, Journal, Environment, Coordinator,
}

module _ {F W : Type 0} where
  -- Reading and writing the core, and acting on the world.
  unfoldable pub core : Exec Fault (Coordinator F W) (Core F)
  unfolding gets
  core = gets (λ s. s.core)

  unfoldable pub set : (Core F → Core F) → Exec Fault (Coordinator F W) Unit
  unfolding modify
  set f = modify (λ s. record s { core = f s.core })

  unfoldable pub on_world : {A : Type 0} → Exec Fault W A → Exec Fault (Coordinator F W) A
  unfolding zoom
  on_world = zoom (λ s. s.world) (λ s w. record s { world = w })

  unfoldable pub set_journal : (Journal F → Journal F) → Exec Fault (Coordinator F W) Unit
  unfolding modify
  set_journal f = modify (λ s. record s { journal = f s.journal })

abbrev pub is_corridor_left : Option Reason → Bool
is_corridor_left (some exit_corridor_left) = true
is_corridor_left _ = false

-- Does the event end the opportunity physically?
unfoldable pub ends_opportunity : EventType → Option Reason → Bool
ends_opportunity lc_completed reason = true
ends_opportunity lc_opportunity_retired reason = is_corridor_left reason
ends_opportunity _ reason = false

abbrev pub reason_or_event : Option Reason → EventType → Reason
reason_or_event (some reason) event = reason
reason_or_event none event = event_name event

abbrev pub clock_fault : {A : Type 0} → Result SessionClockError A → Result Fault A
clock_fault (ok a) = ok a
clock_fault (err e) = err (external "SessionClockError")

module _ {F W : Type 0} ⦃fl : Float F⦄ (env : Environment F W) where
  -- Elapsed time on the session clock since the start of the drive.
  unfoldable pub projected : Option F → SessionClock → TimestampEnvelope → Result Fault F
  projected none clock timestamp =
      err (exit_presentation "active drive SessionClock origin is missing")
  projected (some start) clock timestamp =
      elim (clock_fault (project_elapsed_seconds timestamp.host clock)) [
        | ok elapsed ↦ ok (fl.sub elapsed start)
        | err e ↦ err e
      ]

  unfoldable pub elapsed_on :
      Option SessionClock
      → Option TimestampEnvelope
      → Option F
      → TimestampEnvelope
      → Result Fault (Option F)
  unfolding projected
  elapsed_on clock none start_s timestamp = ok none
  elapsed_on none (some start) start_s timestamp =
      ok (some (fl.ratio (sub_ℕ timestamp.host.monotonic_ns start.host.monotonic_ns) 1_000_000_000))
  elapsed_on (some clock) (some start) start_s timestamp =
      elim (projected start_s clock timestamp) [ ok t ↦ ok (some t) | err e ↦ err e ]

  unfoldable pub eligibility_elapsed_seconds : TimestampEnvelope → Core F → Result Fault (Option F)
  unfolding elapsed_on
  eligibility_elapsed_seconds timestamp c =
      elapsed_on env.session_clock c.active_drive_start c.active_drive_start_elapsed_s timestamp

  unfoldable pub requires_start :
      Result Fault (Option F) → (F → Result Fault Bool) → Result Fault Bool
  requires_start (ok (some elapsed)) test = test elapsed
  requires_start (ok none) test = err (exit_presentation "timed exit requires active drive start")
  requires_start (err e) test = err e

  unfoldable pub eligible_between :
      Option F → Option F → Result Fault (Option F) → Result Fault Bool
  unfolding requires_start
  eligible_between none close elapsed = ok true
  eligible_between (some open_s) close elapsed = requires_start elapsed λ t. elim close [
    | none ↦ err (exit_presentation "timed exit close is missing")
    | some close_s ↦ ok (fl.le open_s t && fl.le t close_s)
  ]

  unfoldable pub is_time_eligible : TimestampEnvelope → Exec Fault (Coordinator F W) Bool
  unfolding eligible_between
  is_time_eligible timestamp = do
    c ← core
    lift (
        eligible_between env.config.eligibility_open_s env.config.eligibility_close_s
          (eligibility_elapsed_seconds timestamp c))

  unfoldable pub closed_after : Option F → Result Fault (Option F) → Result Fault Bool
  unfolding requires_start
  closed_after none elapsed = ok false
  closed_after (some close_s) elapsed = requires_start elapsed λ t. ok (fl.lt close_s t)

  unfoldable pub is_time_closed : TimestampEnvelope → Exec Fault (Coordinator F W) Bool
  unfolding closed_after
  is_time_closed timestamp = do
    c ← core
    lift (closed_after env.config.eligibility_close_s (eligibility_elapsed_seconds timestamp c))

  -- The end of `_emit`: a sink that raises is fatal, except in the signal-guided exit, which keeps
  -- the first ten errors.
  unfoldable pub sink_result : Result Fault Unit → Exec Fault (Coordinator F W) Unit
  sink_result (ok u) = pure tt
  sink_result (err e) =
      if not env.config.signal_guided_exit
      then raise e
      else set_journal (λ j.
        if ltb (length j.logging_errors) 10
        then record j { logging_errors = j.logging_errors ++ e ∷ [] }
        else j)

  -- `try: self._event_sink(event)`.
  unfoldable pub offer :
      Option (ExitAssistanceEvent F → Exec Fault W Unit)
      → ExitAssistanceEvent F
      → Exec Fault (Coordinator F W) Unit
  unfolding sink_result
  offer none event s = pure tt s
  offer (some sink) event s =
      let (r, w) = sink event s.world in sink_result r (record s { world = w })

  unfoldable pub emit :
      EventType → TimestampEnvelope → Details F → Exec Fault (Coordinator F W) Unit
  unfolding offer
  emit event_type timestamp details = do
    when (ends_opportunity event_type details.termination_reason) (
        set_journal (λ j. record j {
          opportunity_end_timestamp = some timestamp;
          opportunity_end_outcome = details.outcome;
          opportunity_end_reason = some (reason_or_event details.termination_reason event_type);
        }))
    c ← core
    elapsed ← lift (eligibility_elapsed_seconds timestamp c)
    let event : ExitAssistanceEvent F = record {
      event_type = event_type;
      timestamp = timestamp;
      core = c;
      details = details;
      eligibility_elapsed_s = elapsed;
    }
    set_journal (λ j. record j { events = j.events ++ event ∷ [] })
    offer env.event_sink event

  core-offer :
      (o : Option (ExitAssistanceEvent F → Exec Fault W Unit)) (e : ExitAssistanceEvent F)
      (s : Coordinator F W)
      → (offer o e s).1.core ≡ s.core
  unfolding offer set_journal pure raise
  core-offer none e s = refl
  core-offer (some sink) e s = ground arith

  -- An event changes nothing that decides what happens next.
  pub core-emit :
      (k : EventType) (t : TimestampEnvelope) (d : Details F) (s : Coordinator F W)
      → (emit k t d s).1.core ≡ s.core
  unfolding emit core set_journal ◌>>=◌
  core-emit k t d s = elim (Bool-cases (ends_opportunity k d.termination_reason)) [
    | inl e ↦ rw e (ground (arith, core-offer env.event_sink))
    | inr e ↦ rw e (ground (arith, core-offer env.event_sink))
  ]

  pub core-closed :
      (t : TimestampEnvelope) (s : Coordinator F W) → (is_time_closed t s).1.core ≡ s.core
  unfolding is_time_closed core ◌>>=◌
  core-closed t s = refl

  pub core-eligible :
      (t : TimestampEnvelope) (s : Coordinator F W) → (is_time_eligible t s).1.core ≡ s.core
  unfolding is_time_eligible core ◌>>=◌
  core-eligible t s = refl
