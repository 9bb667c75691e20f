-- ===== src/Exit/Route.antt =====
-- src/experiment/exit_route.py: the route of an exit, and the windows along it.
use carla.Prelude.{Option, none, some, String, List}
use carla.Prelude.Int.{ℤ}

pub record RoutePoint (F : Type 0) : Type 0 where
  pub x : F
  pub y : F
  pub yaw_rad : F
  pub distance_m : F
  pub road_id : ℤ
  pub section_id : ℤ
  pub lane_id : ℤ
  pub lane_width_m : F

-- A road, a section and a lane.
pub record Segment : Type 0 where
  pub road : ℤ
  pub section : ℤ
  pub lane : ℤ

-- `RoutePoint.identity`.
pub identity : {F : Type 0} → RoutePoint F → Segment
identity p = record { road = p.road_id; section = p.section_id; lane = p.lane_id }

pub record ExitRoute (F : Type 0) : Type 0 where
  pub route_id : String
  pub route_version : String
  pub map_name : String
  pub source_lane_id : ℤ
  pub target_lane_id : ℤ
  pub fork_distance_m : F
  pub points : List (RoutePoint F)
  pub through_segments : List Segment
  pub exit_segments : List Segment
  pub initiation_start_m : F
  pub initiation_end_m : Option F
  pub completion_distance_m : Option F
  pub navigation_start_m : Option F
  pub navigation_end_m : Option F
  pub confirmation_start_m : Option F
  pub confirmation_end_m : Option F

-- `a if x is None else x`.
abbrev pub get_or {ℓ} : {A : Type ℓ} → Option A → A → A
get_or none a = a
get_or (some x) a = x

module _ {F : Type 0} where
  -- The three properties that end at the initiation's end where they are not given.
  unfoldable pub initiation_end : ExitRoute F → F
  initiation_end route = get_or route.initiation_end_m route.fork_distance_m

  unfoldable pub navigation_start : ExitRoute F → F
  navigation_start route = get_or route.navigation_start_m route.initiation_start_m

  unfoldable pub navigation_end : ExitRoute F → F
  unfolding initiation_end
  navigation_end route = get_or route.navigation_end_m (initiation_end route)

  unfoldable pub confirmation_start : ExitRoute F → F
  unfolding navigation_start
  confirmation_start route = get_or route.confirmation_start_m (navigation_start route)

  unfoldable pub confirmation_end : ExitRoute F → F
  unfolding initiation_end
  confirmation_end route = get_or route.confirmation_end_m (initiation_end route)
