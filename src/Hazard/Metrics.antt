-- ===== src/Hazard/Metrics.antt =====
-- src/p7/metrics.py: the time to collision and what the driver's responses are measured by.
pub mod Laws
pub mod Onset
use carla.Prelude.{
  ℕ, Bool, true, false, ◌&&◌, ◌||◌, not, Option, none, some, is_none, is_some, List, [], ◌∷◌, ◌++◌,
  String, if◌then◌else◌,
}
use carla.Float.{Float}
use carla.Interaction.{DriverInput}
use carla.Hazard.{EventKind, brake, steer, response, candidate_response}

pub record Ttc (F : Type 0) : Type 0 where
  pub seconds : Option F
  pub reason : Option String

pub record ResponseMetrics (F : Type 0) : Type 0 where
  pub brake_candidate : F
  pub steer_candidate : F
  pub trigger_t : Option F
  pub reveal_t : Option F
  pub hazard_visible_t : Option F
  pub first_brake_t : Option F
  pub first_steer_t : Option F
  pub candidate_response_t : Option F
  pub first_meaningful_driver_response_t : Option F
  pub min_ttc : Option F
  pub min_distance : Option F
  pub current_ttc : Ttc F
  pub ttc_at_response : Ttc F
  pub start_speed_mps : Option F
  pub start_distance_m : Option F
  pub previous : Option (DriverInput F)
  pub previous_at : Option F

-- `[kind]` if it happened.
abbrev pub happened : Bool → EventKind → List EventKind
happened b kind = if b then kind ∷ [] else []

module _ {F : Type 0} ⦃fl : Float F⦄ where
  abbrev undefined : String → Ttc F
  undefined reason = record { seconds = none; reason = some reason }

  -- Python's `min`, which returns `a` unless `b` is below it.
  unfoldable pub min : F → F → F
  min a b = if fl.lt b a then b else a

  quotient : F → Ttc F
  quotient seconds =
      if fl.is_finite seconds
      then record { seconds = some seconds; reason = none }
      else undefined "NONFINITE_RESULT"

  -- On a collision course.
  unfoldable pub course_ttc : F → F → Ttc F
  unfolding quotient
  course_ttc distance closing =
      if fl.le distance (fl.of_ℕ 0)
      then undefined "NONPOSITIVE_CLEARANCE"
      else if fl.le closing (fl.of_ℕ 0)
      then undefined "NOT_CLOSING"
      else quotient (fl.div distance closing)

  unfoldable pub calculate_ttc : F → F → Option Bool → Ttc F
  calculate_ttc distance closing course =
      if not (fl.is_finite distance) || not (fl.is_finite closing)
      then undefined "NONFINITE"
      else elim course [
        | none ↦ undefined "COLLISION_COURSE_UNVERIFIED"
        | some b ↦ if b then course_ttc distance closing else undefined "NOT_COLLISION_COURSE"
      ]

  unfoldable pub new_metrics : F → F → ResponseMetrics F
  new_metrics brake_candidate steer_candidate = record {
    brake_candidate = brake_candidate;
    steer_candidate = steer_candidate;
    trigger_t = none;
    reveal_t = none;
    hazard_visible_t = none;
    first_brake_t = none;
    first_steer_t = none;
    candidate_response_t = none;
    first_meaningful_driver_response_t = none;
    min_ttc = none;
    min_distance = none;
    current_ttc = undefined "NOT_OBSERVED";
    ttc_at_response = undefined "NO_DRIVER_RESPONSE";
    start_speed_mps = none;
    start_distance_m = none;
    previous = none;
    previous_at = none;
  }

  earlier : Option F → Option F → Option F
  earlier none b = b
  earlier (some a) none = some a
  earlier (some a) (some b) = some (min a b)

  unfoldable pub first_raw_response_t : ResponseMetrics F → Option F
  unfolding earlier
  first_raw_response_t m = earlier m.first_brake_t m.first_steer_t

  -- The `valid` of `observe_input`.
  unfoldable pub is_valid_input : Option (DriverInput F) → Bool
  is_valid_input none = false
  is_valid_input (some d) =
      fl.is_finite d.brake
      && fl.is_finite d.steering
      && fl.le (fl.of_ℕ 0) d.brake
      && fl.le d.brake (fl.of_ℕ 1)
      && fl.le (fl.neg (fl.of_ℕ 1)) d.steering
      && fl.le d.steering (fl.of_ℕ 1)

  unfoldable pub brakes_first : DriverInput F → DriverInput F → ResponseMetrics F → Bool
  brakes_first before current m =
      is_none m.first_brake_t && fl.eq before.brake (fl.of_ℕ 0) && fl.lt (fl.of_ℕ 0) current.brake

  unfoldable pub steers_first : DriverInput F → DriverInput F → ResponseMetrics F → Bool
  steers_first before current m =
      is_none m.first_steer_t
      && fl.eq before.steering (fl.of_ℕ 0)
      && not (fl.eq current.steering (fl.of_ℕ 0))

  unfoldable pub is_candidate : DriverInput F → ResponseMetrics F → Bool
  is_candidate current m =
      (is_some m.first_brake_t && fl.le m.brake_candidate current.brake)
      || (is_some m.first_steer_t && fl.le m.steer_candidate (fl.abs current.steering))

  note_brake : Bool → F → ResponseMetrics F → ResponseMetrics F
  note_brake onset now m = if onset then record m { first_brake_t = some now } else m

  note_steer : Bool → F → ResponseMetrics F → ResponseMetrics F
  note_steer onset now m = if onset then record m { first_steer_t = some now } else m

  note_response : Bool → ResponseMetrics F → ResponseMetrics F
  note_response first m = if first then record m { ttc_at_response = m.current_ttc } else m

  note_candidate : Bool → F → ResponseMetrics F → ResponseMetrics F
  note_candidate first now m = if first then record m { candidate_response_t = some now } else m

  -- `observe_input`, past its tests: an input after one that was observed since the reveal.
  unfoldable pub onsets :
      F → DriverInput F → DriverInput F → ResponseMetrics F → List EventKind × ResponseMetrics F
  unfolding note_brake note_steer note_response note_candidate first_raw_response_t
  onsets now before current m =
      let braked = brakes_first before current m in
      let m1 = note_brake braked now m in
      let steered = steers_first before current m1 in
      let m2 = note_steer steered now m1 in
      let first = is_none (first_raw_response_t m) && is_some (first_raw_response_t m2) in
      let m3 = note_response first m2 in
      let candidate = is_none m3.candidate_response_t && is_candidate current m3 in
      (
        happened braked brake
            ++ (happened steered steer
                ++ (happened first response ++ happened candidate candidate_response)),
        note_candidate candidate now m3,
      )

  -- `observe_input`, where there are an input, a previous one and a reveal.
  unfoldable pub since_reveal :
      F
      → DriverInput F
      → DriverInput F
      → Option F
      → F
      → ResponseMetrics F
      → List EventKind × ResponseMetrics F
  since_reveal now current before none reveal m = ([], record m { previous = none })
  since_reveal now current before (some before_at) reveal m =
      if not (is_valid_input (some current)) || not (fl.is_finite now) || fl.le now before_at
      then ([], record m { previous = none })
      else if fl.lt before_at reveal || fl.le now reveal
      then ([], m)
      else onsets now before current m

  -- The tests for `None`.
  unfoldable pub react :
      F
      → Option (DriverInput F)
      → Option (DriverInput F)
      → Option F
      → Option F
      → ResponseMetrics F
      → List EventKind × ResponseMetrics F
  react now (some current) (some before) before_at (some reveal) m =
      since_reveal now current before before_at reveal m
  react now _ _ before_at _ m = ([], m)

  unfoldable pub observe_input :
      F → Option (DriverInput F) → ResponseMetrics F → List EventKind × ResponseMetrics F
  observe_input now current m = react now current m.previous m.previous_at m.reveal_t (record m {
    previous = if is_valid_input current then current else none;
    previous_at = if fl.is_finite now then some now else none;
  })

  -- The least value so far, with one more.
  unfoldable pub least : Option F → F → Option F
  least none value = some value
  least (some m) value = some (min m value)

  least_ttc : Option F → Option F → Option F
  least_ttc m none = m
  least_ttc m (some seconds) = least m seconds

  unfoldable pub observe_geometry : F → F → Option Bool → ResponseMetrics F → ResponseMetrics F
  unfolding least_ttc
  observe_geometry distance closing course m =
      let ttc = calculate_ttc distance closing course in
      record m {
        current_ttc = ttc;
        min_distance =
            if fl.is_finite distance then least m.min_distance distance else m.min_distance;
        min_ttc = least_ttc m.min_ttc ttc.seconds;
      }
