-- ===== src/Lib.antt =====
-- A model of the driving experiment's decision logic: who drives, when the automation may be
-- activated, how one highway exit is offered, confirmed, driven and recorded, which commands the
-- offline force feedback lets through, how a session goes through its stages and is closed, how the
-- final hazard is armed, shown and ended, and what time of gaze is credited.
--
-- The runtime controller holds the state of the automation. The interaction controller is given the
-- driver's input in every iteration and is the runtime's only client here; the gate answers its
-- question whether the automation may drive. The exit coordinator is given observations of the
-- vehicle, the same driver input and the runtime's state, and commands a lane change or a branch. The
-- force feedback stands apart, and takes its own observations. A session owns components (which drive
-- the rest), asks them at the border of each stage, and has them flushed and cleaned at its end.
-- The hazard and the gaze durations stand for themselves: they are driven by such components.
--
-- The parts, and the code that they model (paths from the repository's root):
--   Automation             src/experiment/automation.py: availability, mode and their transitions
--   Automation/Runtime     src/experiment/automation_runtime.py: commits a state once the backend has
--                          made the transition
--   Interaction            src/experiment/automation_interaction_types.py: inputs, settings, events
--   Interaction/Gate       src/experiment/automation_activation_gate.py: may the automation drive now?
--   Interaction/Controller src/experiment/automation_interaction.py: the driver's inputs against the
--                          gate and the runtime, and the log of events
--   Exit, Exit/Route, Exit/Policy
--                          src/experiment/exit_assistance_types.py, exit_route.py (the route and its
--                          windows) and exit_assistance_policy.py
--   Exit/Coordinator       src/experiment/exit_assistance.py. Emit, Methods, Presentation and Update
--                          hold its methods; Signal is exit_signal.py and
--                          exit_opportunity_lifecycle.py; Observation is
--                          exit_assistance_observation.py. The state is a core, which decides what
--                          happens next, and a journal of what happened
--   Timestamp              src/experiment/timestamp.py and src/experiment/session_clock.py
--   Context                src/experiment/context.py: modules and conditions; and the exceptions
--   Float, Exec, Prelude   floats as an interface, methods that write and may raise, shared names
--   Ffb                    src/p8/ffb_model.py: the coefficients of the steering wheel's force feedback
--   Ffb/Safety             src/p8/ffb_safety.py: the state machine that lets a command through. Step
--                          is `step`, one definition for what follows each early return
--   Ffb/Protocol           src/p8/ffb_protocol.py: the receiver's check and the dispatcher, without
--                          its branch for an exception of the machine itself
--   Session                src/p8/model.py and readiness.py: stages, modes, receipts, timing.
--                          Session/Segment is the segment of a stage (src/p8/services.py) and its
--                          check (src/experiment/context.py)
--   Session/Record, Effects, Finalize, Transition, Outcomes
--                          src/p8/orchestrator.py: `ExperimentSession`, all its methods. The list
--                          `records` is `past` and `current`; components, clock, log, audit and
--                          export are parameters that may raise
--   Session/Stages         the abstract machine of the stages; Moves has the rules for relations
--                          between sessions; Contract, Closing, Participant and Completion are
--                          about the methods. Closing/Calls runs a session on collaborators whose
--                          world has a list of the calls of the flush, the cleanup and the log's end
--   Hazard                 src/p7/types.py, config.py (the values that are read) and policy.py;
--                          Hazard/Metrics is src/p7/metrics.py without its snapshot
--   Hazard/Scenario        src/p7/hazard.py: `HazardScenario`, all its methods. Actors, registry of
--                          occurrences, event sink and policy are parameters that may raise; a
--                          decision of the policy has the declared type. States is the abstract
--                          machine of the states, Termination is about the requests of a termination
--   Exec/Takes             rules for what an action guarantees after it by what held before
--   Gaze                   src/p6/gaze_duration.py: `GazeDuration` but its summary, with the gap of
--                          0.1 s that its caller leaves; a sink that may raise gets the intervals
--
-- A method is a function from the state to a result or an exception and the state after it: what was
-- written before a raise stays written. The objects that a constructor is given (the backend, the
-- geometry, the vehicle, the event sink, the route executor) are parameters that act on a world of
-- any type and may raise at every call. Names follow the code; a method that is long in the code is
-- one definition for each step, composed in the order of the code. A keyword of the language or a
-- name already taken is replaced: `drive` is the configuration's `module`. The loops of the modelled
-- code run over lists and are structural; nothing here runs on fuel.
--
-- Floats are an interface without laws: the code decides by comparisons, and the theorems hold for
-- every choice of them. Times are natural numbers of nanoseconds; differences are signed.
--
-- Not modelled: the optional diagnostics objects and their timings, the text of the JSON payloads (an
-- event carries the values), the files that a session writes and audits, the simulator snapshot and the
-- external clocks of an envelope, which this code does not read, and the validation in the constructors of settings, inputs and routes. An
-- exception is one of those that the code names: a callback's is a RuntimeError, a ValueError or an
-- OSError. A route has a point and one in its target lane, which its constructor demands.
pub mod Prelude
pub mod Float
pub mod Exec
pub mod Context
pub mod Automation
pub mod Interaction
pub mod Timestamp
pub mod Exit
pub mod Ffb
pub mod Session
pub mod Gaze
pub mod Hazard
