-- ===== src/Interaction/Gate.antt =====
-- src/experiment/automation_activation_gate.py: may the automation be activated now? The optional
-- diagnostics object is absent, as by default.
pub mod Alignment
mod Tests
use carla.Prelude.{Bool, true, false, ◌&&◌, Option, none, some, if◌then◌else◌}
use carla.Float.{Float}
use carla.Exec.{Exec, pure, raise, gets, lift, modify, when, ◌>>=◌, ◌>>◌, zoom}
use carla.Context.{Fault}
use carla.Interaction.{
  ActivationFailureReason, driver_brake_active, lane_change_in_progress, geometry_unavailable,
  invalid_geometry, AutomationInteractionConfig, DriverInput,
}
use carla.Interaction.Gate.Alignment.{LaneGeometryContext, BoundingBox, lane_alignment_failure}

-- What `observe_with_context` does: the two errors that the gate handles, and any other.
pub data Observation (F : Type 0) : Type 0 where
  observed : LaneGeometryContext F → Observation F
  lane_geometry_unavailable : Observation F
  lane_geometry_validation : Observation F
  raised : Fault → Observation F

-- The lane geometry and the vehicle, which the gate reads in the world `W`.
pub record Surroundings (F W : Type 0) : Type 0 where
  pub observe_with_context : W → Observation F × W
  pub bounding_box : Exec Fault W (BoundingBox F)

pub record GateState (F W : Type 0) : Type 0 where
  pub cached_bounds : Option (BoundingBox F)
  pub world : W

module _ {F W : Type 0} ⦃fl : Float F⦄ (env : Surroundings F W)
    (config : AutomationInteractionConfig F) (cache_static_bounds : Bool) where
  abbrev on_world : {A : Type 0} → Exec Fault W A → Exec Fault (GateState F W) A
  on_world = zoom (λ g. g.world) (λ g w. record g { world = w })

  -- The cached box, where it may be reused and there is one; else the vehicle's, which is cached.
  bounds : Option (BoundingBox F) → Exec Fault (GateState F W) (BoundingBox F)
  unfolding ◌>>=◌ zoom
  bounds (some box) = pure box
  bounds none = do
    modify (λ g. record g { cached_bounds = none })
    box ← on_world env.bounding_box
    when cache_static_bounds (modify (λ g. record g { cached_bounds = some box }))
    pure box

  with_context : Bool → Observation F → Exec Fault (GateState F W) (Option ActivationFailureReason)
  unfolding bounds ◌>>=◌ lane_alignment_failure
  with_context reuse (observed context) = do
    cached ← gets (λ g. g.cached_bounds)
    box ← bounds (if reuse && cache_static_bounds then cached else none)
    pure (lane_alignment_failure context box config config.require_centered_activation)
  with_context reuse lane_geometry_unavailable = pure (some geometry_unavailable)
  with_context reuse lane_geometry_validation = pure (some invalid_geometry)
  with_context reuse (raised e) = raise e

  observe : Exec Fault (GateState F W) (Observation F)
  observe g = let (seen, w) = env.observe_with_context g.world in pure seen (record g { world = w })

  unfoldable pub failure :
      DriverInput F → Bool → Exec Fault (GateState F W) (Option ActivationFailureReason)
  unfolding with_context observe ◌>>=◌
  failure driver_input reuse_static_bounds =
      if fl.le config.driver_brake_threshold driver_input.brake
      then pure (some driver_brake_active)
      else if driver_input.lane_change_in_progress
      then pure (some lane_change_in_progress)
      else do seen ← observe; with_context reuse_static_bounds seen
