-- ===== src/Interaction/Gate/Tests.antt =====
-- The alignment test on a vehicle two metres off the centre of a lane eight metres wide.
use carla.Prelude.{ℕ, true, false, ◌≡◌, ◌≢◌, refl, ◌⊎◌, some, none}
use carla.Float.Example.{whole}
use carla.Interaction.{not_centered, AutomationInteractionConfig}
use carla.Interaction.Gate.Alignment.{
  LaneGeometryContext, BoundingBox, lane_alignment_failure, alignment_relaxed,
}

abbrev off_centre : LaneGeometryContext ℕ
off_centre = record { lane_width_m = 8; lateral_error_m = 2; heading_error_rad = 0 }

abbrev box : BoundingBox ℕ
box = record { extent_x = 2; extent_y = 1; location_x = 0; location_y = 0; rotation_yaw = 0 }

abbrev config : AutomationInteractionConfig ℕ
config = record {
  center_tolerance_m = 1;
  heading_tolerance_rad = 1;
  driver_brake_threshold = 5;
  button_deactivation_enabled = true;
  steering_deactivation_enabled = true;
  require_centered_activation = true;
}

refused_off_centre : lane_alignment_failure off_centre box config true ≡ some not_centered
unfolding lane_alignment_failure
refused_off_centre = refl

passes_in_lane : lane_alignment_failure off_centre box config false ≡ none
unfolding lane_alignment_failure
passes_in_lane = refl

alignment_relaxed_example :
    (lane_alignment_failure off_centre box config false ≢ some not_centered)
    × ((lane_alignment_failure off_centre box config true
          ≡ lane_alignment_failure off_centre box config false)
        ⊎ (lane_alignment_failure off_centre box config true ≡ some not_centered))
alignment_relaxed_example = alignment_relaxed off_centre box config
