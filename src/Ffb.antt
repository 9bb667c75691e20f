-- ===== src/Ffb.antt =====
-- src/p8/ffb_model.py: the coefficients of the force feedback. A value that may be missing is an
-- option; the other fields have their declared types.
pub mod Safety
pub mod Protocol
use text.Mathlib.Text.{◌==◌ as str_eq}
use carla.Prelude.{Bool, true, false, ◌&&◌, ◌||◌, not, Option, none, some, String, if◌then◌else◌}
use carla.Float.{Float}
use carla.Exec.{Result, ok, err}

pub record FfbContext : Type 0 where
  pub session_id : String
  pub stage_id : String
  pub actor_id : String
  pub device_generation : String

-- The modes that the code compares with, and any other.
pub data FfbMode : Type 0 where
  manual noa_active other : FfbMode

pub record FfbObservation (F : Type 0) : Type 0 where
  pub context : FfbContext
  pub wheel_position : Option F
  pub wheel_observed_at : Option F
  pub speed_kmh : Option F
  pub vehicle_observed_at : Option F
  pub mode : FfbMode
  pub connected : Bool
  pub session_active : Bool
  pub stage_active : Bool

pub record FfbParameters (F : Type 0) : Type 0 where
  pub spring : F
  pub damper : F
  pub center : F

pub record FfbCurve (F : Type 0) : Type 0 where
  pub reference_speed_kmh : F
  pub spring_at_rest : F
  pub spring_at_reference : F
  pub damper_at_rest : F
  pub damper_at_reference : F

pub data FfbValueError : Type 0 where
  wheel_position_range speed_range : FfbValueError

-- The generated `__eq__` of `FfbContext`.
unfoldable pub same_context : FfbContext → FfbContext → Bool
same_context a b =
    str_eq a.session_id b.session_id
    && str_eq a.stage_id b.stage_id
    && str_eq a.actor_id b.actor_id
    && str_eq a.device_generation b.device_generation

module _ {F : Type 0} ⦃fl : Float F⦄ where
  unfoldable pub zero_parameters : FfbParameters F
  zero_parameters = record { spring = fl.of_ℕ 0; damper = fl.of_ℕ 0; center = fl.of_ℕ 0 }

  -- Python's `min(a, b)` and `max(a, b)`, which return `a` unless the other is beyond it.
  unfoldable pub min : F → F → F
  min a b = if fl.lt b a then b else a

  unfoldable pub max : F → F → F
  max a b = if fl.lt a b then b else a

  -- `0 <= value <= 1`.
  unfoldable pub is_unit : F → Bool
  is_unit value = fl.le (fl.of_ℕ 0) value && fl.le value (fl.of_ℕ 1)

  unfoldable pub wheel_in_range : Option F → Bool
  wheel_in_range none = false
  wheel_in_range (some p) = fl.is_finite p && fl.le (fl.neg (fl.of_ℕ 1)) p && fl.le p (fl.of_ℕ 1)

  unfoldable pub speed_in_range : Option F → Bool
  speed_in_range none = false
  speed_in_range (some v) = fl.is_finite v && not (fl.lt v (fl.of_ℕ 0))

  blended : FfbCurve F → F → FfbParameters F
  unfolding min
  blended curve speed =
      let blend = min (fl.div speed curve.reference_speed_kmh) (fl.of_ℕ 1) in
      let rest = fl.sub (fl.of_ℕ 1) blend in
      record {
        spring = fl.add (fl.mul rest curve.spring_at_rest) (fl.mul blend curve.spring_at_reference);
        damper = fl.add (fl.mul rest curve.damper_at_rest) (fl.mul blend curve.damper_at_reference);
        center = fl.of_ℕ 0;
      }

  at_speed : FfbCurve F → Option F → Result FfbValueError (FfbParameters F)
  at_speed curve none = err speed_range
  at_speed curve (some v) =
      if fl.is_finite v && not (fl.lt v (fl.of_ℕ 0)) then ok (blended curve v) else err speed_range

  unfoldable pub calculate_parameters :
      FfbObservation F → FfbCurve F → Result FfbValueError (FfbParameters F)
  unfolding at_speed blended
  calculate_parameters observation curve =
      if not (wheel_in_range observation.wheel_position)
      then err wheel_position_range
      else at_speed curve observation.speed_kmh
