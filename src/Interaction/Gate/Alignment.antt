-- ===== src/Interaction/Gate/Alignment.antt =====
-- `lane_alignment_failure` of src/experiment/automation_activation_gate.py: the vehicle's box against
-- its lane.
use carla.Prelude.{
  Bool, true, false, ◌&&◌, ◌||◌, not, Option, none, some, if◌then◌else◌, ◌≡◌, ◌≢◌, ◌⊎◌, arith, [],
  ◌∷◌, all,
}
use carla.Float.{Float}
use carla.Interaction.{
  ActivationFailureReason, invalid_geometry, vehicle_straddling, not_centered, heading_misaligned,
  AutomationInteractionConfig,
}

-- `CarlaLaneGeometryContext`, with the observation that it holds.
pub record LaneGeometryContext (F : Type 0) : Type 0 where
  pub lane_width_m : F
  pub lateral_error_m : F
  pub heading_error_rad : F

-- `ActivationVehicleBoundingBox`: the extent, the location and the rotation.
pub record BoundingBox (F : Type 0) : Type 0 where
  pub extent_x : F
  pub extent_y : F
  pub location_x : F
  pub location_y : F
  pub rotation_yaw : F

module _ {F : Type 0} ⦃fl : Float F⦄ where
  -- How far the box reaches from the middle of the lane.
  reach : LaneGeometryContext F → BoundingBox F → F
  reach context box =
      let heading = context.heading_error_rad in
      let bounding_box_heading = fl.add heading (fl.radians box.rotation_yaw) in
      let bounding_box_lateral =
        fl.add (fl.add context.lateral_error_m (fl.mul box.location_x (fl.sin heading)))
          (fl.mul box.location_y (fl.cos heading)) in
      let lateral_half_extent =
        fl.add (fl.mul (fl.abs (fl.sin bounding_box_heading)) box.extent_x)
          (fl.mul (fl.abs (fl.cos bounding_box_heading)) box.extent_y) in
      fl.add (fl.abs bounding_box_lateral) lateral_half_extent

  unfoldable pub lane_alignment_failure :
      LaneGeometryContext F
      → BoundingBox F
      → AutomationInteractionConfig F
      → Bool
      → Option ActivationFailureReason
  unfolding reach
  lane_alignment_failure context box config require_centered =
      let zero_f = fl.of_ℕ 0 in
      let values =
        context.lane_width_m ∷ context.lateral_error_m ∷ context.heading_error_rad ∷ box.extent_x
        ∷ box.extent_y ∷ box.location_x ∷ box.location_y ∷ box.rotation_yaw ∷ [] in
      if not (all fl.is_finite values)
      then some invalid_geometry
      else if fl.le context.lane_width_m zero_f
          || fl.lt box.extent_x zero_f
          || fl.lt box.extent_y zero_f
      then some invalid_geometry
      else if fl.lt (fl.div context.lane_width_m (fl.of_ℕ 2)) (reach context box)
      then some vehicle_straddling
      else if require_centered && fl.lt config.center_tolerance_m (fl.abs context.lateral_error_m)
      then some not_centered
      else if fl.lt config.heading_tolerance_rad (fl.abs context.heading_error_rad)
      then some heading_misaligned
      else none

  -- Without centring, a refusal is never for a vehicle off the centre; and the test gives what the
  -- test with centring gives, unless that one refuses for a vehicle off the centre.
  pub alignment_relaxed :
      (context : LaneGeometryContext F) (box : BoundingBox F)
      (config : AutomationInteractionConfig F)
      → (lane_alignment_failure context box config false ≢ some not_centered)
        × ((lane_alignment_failure context box config true
              ≡ lane_alignment_failure context box config false)
            ⊎ (lane_alignment_failure context box config true ≡ some not_centered))
  unfolding lane_alignment_failure
  alignment_relaxed context box config = ground arith
