-- ===== src/Ffb/Safety.antt =====
-- src/p8/ffb_safety.py: `FfbSafety`, the state machine that lets a force feedback command through. A
-- request and a target have their declared types; a reason is a text, of which the code keeps the
-- first 160 characters, which all of its own are shorter than.
pub mod Step
pub mod Laws
pub mod Runs
pub mod Latch
mod Tests
use carla.Prelude.{
  ℕ, ◌+◌, Bool, true, false, ◌&&◌, ◌||◌, not, Option, none, some, is_none, is_some, String,
  if◌then◌else◌,
}
use carla.Prelude.Strings.{has_text}
use carla.Float.{Float}
use carla.Ffb.{
  FfbContext, FfbMode, manual, noa_active, other, FfbObservation, FfbParameters, same_context,
  zero_parameters, min, max, is_unit, wheel_in_range, speed_in_range,
}

pub data FfbState : Type 0 where
  disabled evaluating fault closed : FfbState

pub data FfbRequest : Type 0 where
  hold enable_evaluation disable acknowledge_fault : FfbRequest

pub record FfbLimits (F : Type 0) : Type 0 where
  pub max_spring : F
  pub max_damper : F
  pub rise_per_second : F
  pub fall_per_second : F
  pub wheel_max_age_s : F
  pub vehicle_max_age_s : F
  pub max_update_gap_s : F

pub record FfbCommand (F : Type 0) : Type 0 where
  pub sequence : ℕ
  pub context : Option FfbContext
  pub issued_at : F
  pub valid_until : F
  pub state : FfbState
  pub reason : String
  pub parameters : FfbParameters F
  pub decay_preview : FfbParameters F

pub record FfbSafety (F : Type 0) : Type 0 where
  pub state : FfbState
  pub reason : String
  pub sequence : ℕ
  pub context : Option FfbContext
  pub mode : Option FfbMode
  pub last_at : Option F
  pub wheel_at : Option F
  pub vehicle_at : Option F
  pub limited : FfbParameters F

abbrev pub is_disabled : FfbState → Bool
is_disabled disabled = true
is_disabled _ = false

abbrev pub is_evaluating : FfbState → Bool
is_evaluating evaluating = true
is_evaluating _ = false

abbrev pub is_fault : FfbState → Bool
is_fault fault = true
is_fault _ = false

abbrev pub is_closed : FfbState → Bool
is_closed closed = true
is_closed _ = false

abbrev pub is_enable : FfbRequest → Bool
is_enable enable_evaluation = true
is_enable _ = false

abbrev pub is_disable : FfbRequest → Bool
is_disable disable = true
is_disable _ = false

abbrev pub is_acknowledge : FfbRequest → Bool
is_acknowledge acknowledge_fault = true
is_acknowledge _ = false

abbrev pub same_mode : FfbMode → FfbMode → Bool
same_mode manual manual = true
same_mode noa_active noa_active = true
same_mode other other = true
same_mode _ _ = false

abbrev pub is_known : FfbMode → Bool
is_known other = false
is_known _ = true

-- `x is not None and y != x`.
abbrev pub left_context : Option FfbContext → FfbContext → Bool
left_context none next = false
left_context (some c) next = not (same_context next c)

abbrev pub left_mode : Option FfbMode → FfbMode → Bool
left_mode none next = false
left_mode (some m) next = not (same_mode next m)

-- The first problem that there is.
abbrev pub first_of : Option String → Option String → Option String
first_of none b = b
first_of (some a) b = some a

module _ {F : Type 0} ⦃fl : Float F⦄ where
  -- `__init__`.
  unfoldable pub new : FfbSafety F
  new = record {
    state = disabled;
    reason = "DEFAULT_DISABLED";
    sequence = 0;
    context = none;
    mode = none;
    last_at = none;
    wheel_at = none;
    vehicle_at = none;
    limited = zero_parameters;
  }

  -- `x < y` where both are known.
  unfoldable pub before : Option F → Option F → Bool
  before (some a) (some b) = fl.lt a b
  before _ _ = false

  abbrev pub or_zero : Option F → F
  or_zero none = fl.of_ℕ 0
  or_zero (some a) = a

  unfoldable pub command : FfbSafety F → F → Option F → FfbCommand F × FfbSafety F
  command s now valid_until =
      let next = s.sequence + 1 in
      let allowed = is_evaluating s.state in
      (
        record {
          sequence = next;
          context = s.context;
          issued_at = now;
          valid_until = if allowed then (elim valid_until [ none ↦ now | some t ↦ t ]) else now;
          state = s.state;
          reason = s.reason;
          parameters = if allowed then s.limited else zero_parameters;
          decay_preview = s.limited;
        },
        record s { sequence = next },
      )

  -- `fault`, past the change of the state.
  unfoldable pub fault_command : FfbSafety F → F → FfbCommand F × FfbSafety F
  unfolding command
  fault_command s now =
      if fl.is_finite now && fl.le (or_zero s.last_at) now
      then command (record s { last_at = some now }) now none
      else command s (or_zero s.last_at) none

  unfoldable pub fail : FfbSafety F → String → F → FfbCommand F × FfbSafety F
  unfolding fault_command
  fail s reason now =
      if is_fault s.state || is_closed s.state
      then fault_command (record s { limited = zero_parameters }) now
      else fault_command (record s { state = fault; reason = reason; limited = zero_parameters })
          now

  unfoldable pub close : FfbSafety F → F → FfbCommand F × FfbSafety F
  unfolding fail
  close s now =
      fail (record s { state = closed; reason = "CLOSED"; limited = zero_parameters }) "CLOSED" now

  -- `_disable`.
  unfoldable pub switch_off : FfbSafety F → String → Bool → FfbSafety F
  switch_off s reason clear =
      let off = if is_fault s.state then s else record s { state = disabled; reason = reason } in
      if clear then record off { limited = zero_parameters } else off

  -- A time stamp of an observation: invalid, in the future, or too old.
  unfoldable pub stamp_problem : F → F → Option F → String → String → String → Option String
  stamp_problem now max_age none invalid future stale = some invalid
  stamp_problem now max_age (some stamp) invalid future stale =
      if not (fl.is_finite stamp) || fl.lt stamp (fl.of_ℕ 0)
      then some invalid
      else if fl.lt now stamp
      then some future
      else if fl.lt max_age (fl.sub now stamp)
      then some stale
      else none

  -- The time since the last step.
  abbrev pub since : Option F → F → F
  since none now = fl.of_ℕ 0
  since (some last) now = fl.sub now last
