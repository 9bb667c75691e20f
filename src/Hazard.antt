-- ===== src/Hazard.antt =====
-- src/p7/types.py, src/p7/config.py and src/p7/policy.py: what the final hazard observes, its
-- configuration and the decisions of an injected policy.
pub mod Metrics
pub mod Scenario
use carla.Prelude.{ℕ, Bool, true, false, ◌&&◌, ◌||◌, not, Option, none, some, String, if◌then◌else◌}
use carla.Prelude.Int.{ℤ}
use carla.Prelude.Strings.{has_text}
use carla.Float.{Float}
use carla.Exec.{Result, ok, err, Exec}
use carla.Interaction.{DriverInput}
use carla.Session.{Fault, runtime_error}
use carla.Timestamp.{TimestampEnvelope}

-- `P7Error` is a `RuntimeError`.
pattern abbrev pub p7_error : String → Fault
p7_error reason = runtime_error reason

pub data HazardState : Type 0 where
  idle armed triggered lead_moving_aside hazard_revealed responded completed aborted : HazardState

pub data HazardOutcome : Type 0 where
  avoided stopped collision road_departure automatic_rescue incomplete unobservable : HazardOutcome

pub data TriggerSource : Type 0 where
  ego_route_station dev_lead_route_station : TriggerSource

-- The kinds of event that a scenario emits.
pub data EventKind : Type 0 where
  armed trigger lead_start lateral_onset lead_complete revealed brake steer response : EventKind
  candidate_response sample collision road_departure termination complete abort : EventKind

pub record HazardConfig (F : Type 0) : Type 0 where
  pub enabled : Bool
  pub trigger_source : TriggerSource
  pub trigger_station_m : F
  pub lateral_onset_m : F
  pub observation_duration_s : F
  pub brake_candidate : F
  pub steer_candidate : F

pub record HazardObservation (F : Type 0) : Type 0 where
  pub timestamp : TimestampEnvelope
  pub ego_station_m : F
  pub lead_station_m : F
  pub lead_lateral_m : F
  pub target_lane_id : ℤ
  pub lead_complete : Bool
  pub reveal_clear : Bool
  pub distance_m : F
  pub closing_speed_mps : F
  pub ego_speed_mps : F
  pub collision_course : Option Bool
  pub driver_input : Option (DriverInput F)
  pub input_source : String
  pub route_valid : Bool
  pub actors_alive : Bool
  pub obstacle_stationary : Bool
  pub lead_path_clear : Bool
  pub p5_active : Bool
  pub collision_actor_id : Option ℤ
  pub collision_frame : Option ℤ
  pub collision_simulation_s : Option F
  pub road_departure : Bool

pub data TriggerAction : Type 0 where
  wait fire block : TriggerAction

pub record TriggerDecision : Type 0 where
  pub action : TriggerAction
  pub reason : String

pub record OutcomeDecision : Type 0 where
  pub outcome : HazardOutcome
  pub reason : String

-- The outcomes that `OutcomeDecision` accepts.
abbrev pub may_decide : HazardOutcome → Bool
may_decide avoided = true
may_decide stopped = true
may_decide incomplete = true
may_decide unobservable = true
may_decide _ = false

-- `OutcomeDecision(…)` and `TriggerDecision(…)`, of values of the declared types.
unfoldable pub make_outcome : HazardOutcome → String → Result Fault OutcomeDecision
make_outcome outcome reason =
    if may_decide outcome && has_text reason
    then ok (record { outcome = outcome; reason = reason })
    else err (p7_error "INVALID_HAZARD_OUTCOME_DECISION")

unfoldable pub make_trigger : TriggerAction → String → Result Fault TriggerDecision
make_trigger action reason =
    if has_text reason
    then ok (record { action = action; reason = reason })
    else err (p7_error "INVALID_HAZARD_TRIGGER_DECISION")

-- `HazardPolicy`: the trigger by the time since the arming; the outcome by the times since the
-- trigger and since the reveal.
pub record HazardPolicy (F W : Type 0) : Type 0 where
  pub trigger : HazardObservation F → F → Exec Fault W TriggerDecision
  pub outcome : HazardObservation F → F → Option F → Exec Fault W (Option OutcomeDecision)
