-- ===== src/Ffb/Safety/Latch.antt =====
-- The faults and the end of the machine of src/p8/ffb_safety.py.
use carla.Prelude.{
  ◌≡◌, if◌then◌else◌, refl, Bool, true, false, ◌&&◌, Option, none, some, String, arith, List, [],
  ◌∷◌, All,
}
use carla.Float.{Float}
use carla.Ffb.{FfbObservation, FfbParameters}
use carla.Ffb.Safety.{
  FfbRequest, FfbLimits, FfbCommand, FfbSafety, is_fault, is_closed, is_acknowledge, command,
  fault_command, fail, close, switch_off,
}
use carla.Ffb.Safety.Step.{
  validate_observation, remember, remembered, with_observation, observe, step,
}
use carla.Ffb.Safety.Laws.{Operation, step_with, fault_with, close_at, perform}
use carla.Ffb.Safety.Runs.{after_all}

-- After it, there is a fault.
record IsLatched {F : Type 0} (r : FfbCommand F × FfbSafety F) : Type 0 where
  latched : is_fault r.1.state ≡ true

module _ {F : Type 0} ⦃fl : Float F⦄ where
  if-IsLatched :
      (b : Bool) (x y : FfbCommand F × FfbSafety F)
      → (b ≡ true → IsLatched x)
      → (b ≡ false → IsLatched y)
      → IsLatched (if b then x else y)
  if-IsLatched true x y p q = p refl
  if-IsLatched false x y p q = q refl

  command-IsLatched :
      (s : FfbSafety F) (now : F) (v : Option F)
      → is_fault s.state ≡ true
      → IsLatched (command s now v)
  unfolding command
  command-IsLatched s now v h = record { latched = h }

  fail-IsLatched :
      (s : FfbSafety F) (reason : String) (now : F)
      → is_fault s.state ≡ true
      → IsLatched (fail s reason now)
  unfolding fail fault_command command
  fail-IsLatched s reason now h = ground arith

  switch_off_latched :
      (s : FfbSafety F) (reason : String) (clear : Bool)
      → is_fault s.state ≡ true
      → is_fault (switch_off s reason clear).state ≡ true
  unfolding switch_off
  switch_off_latched s reason clear h = ground arith

  IsLatched-never : (b : Bool) (r : FfbCommand F × FfbSafety F) → b ≡ true → b ≡ false → IsLatched r
  IsLatched-never b r h k = ground arith

  unacknowledged :
      (q : FfbRequest) (x y : Bool) (r : FfbCommand F × FfbSafety F)
      → is_acknowledge q ≡ false
      → (is_acknowledge q && x && y) ≡ true
      → IsLatched r
  unacknowledged q x y r h k = ground arith

ruleset latches = (
  if-IsLatched, command-IsLatched, fail-IsLatched, switch_off_latched, IsLatched-never,
  unacknowledged, refl,
)

module _ {F : Type 0} ⦃fl : Float F⦄ (limits : FfbLimits F) (q : FfbRequest)
    (h : is_acknowledge q ≡ false) where
  seen-IsLatched :
      (s : FfbSafety F) (o : FfbObservation F) (t : Option (FfbParameters F)) (now dt : F)
      (p : Option String)
      → is_fault s.state ≡ true
      → IsLatched (with_observation limits s o t now dt q p)
  unfolding with_observation remembered remember
  seen-IsLatched s o t now dt none e = search latches depth 12
  seen-IsLatched s o t now dt (some p) e = search latches

  observe-IsLatched :
      (s : FfbSafety F) (o : Option (FfbObservation F)) (t : Option (FfbParameters F)) (now dt : F)
      → is_fault s.state ≡ true
      → IsLatched (observe limits s o t now dt q)
  unfolding observe
  observe-IsLatched s none t now dt e = search latches
  observe-IsLatched s (some o) t now dt e =
      seen-IsLatched s o t now dt (validate_observation limits o now) e

  step-IsLatched :
      (s : FfbSafety F) (o : Option (FfbObservation F)) (t : Option (FfbParameters F)) (now : F)
      → is_fault s.state ≡ true
      → IsLatched (step limits s o t now q)
  unfolding step
  step-IsLatched s o t now e = search (latches, observe-IsLatched) depth 12

module _ {F : Type 0} ⦃fl : Float F⦄ (limits : FfbLimits F) where
  abbrev pub Unacknowledging : Operation F → Type 0
  Unacknowledging (step_with o t now q) = is_acknowledge q ≡ false
  Unacknowledging (fault_with reason now) = Unit
  Unacknowledging (close_at now) = ⊥

  perform_latched :
      (op : Operation F) (s : FfbSafety F)
      → Unacknowledging op
      → is_fault s.state ≡ true
      → is_fault (perform limits op s).1.state ≡ true
  unfolding perform
  perform_latched (step_with o t now q) s u e = (step-IsLatched limits q u s o t now e).latched
  perform_latched (fault_with reason now) s u e = (fail-IsLatched s reason now e).latched
  perform_latched (close_at now) s u e = absurd u

  -- A fault stays through operations none of which acknowledges it or closes the machine.
  pub fault_latched :
      (ops : List (Operation F)) (s : FfbSafety F)
      → All Unacknowledging ops
      → is_fault s.state ≡ true
      → is_fault (after_all limits ops s).state ≡ true
  unfolding after_all
  fault_latched [] s a e = e
  fault_latched (op ∷ ops) s a e =
      fault_latched ops (perform limits op s).1 a.1 (perform_latched op s a.0 e)

  perform_closed :
      (op : Operation F) (s : FfbSafety F)
      → is_closed s.state ≡ true
      → is_closed (perform limits op s).1.state ≡ true
  unfolding perform step close fail fault_command command
  perform_closed (step_with o t now q) s e = ground arith
  perform_closed (fault_with reason now) s e = ground arith
  perform_closed (close_at now) s e = ground arith

  -- A closed machine stays closed, whatever it is asked.
  pub closed_final :
      (ops : List (Operation F)) (s : FfbSafety F)
      → is_closed s.state ≡ true
      → is_closed (after_all limits ops s).state ≡ true
  unfolding after_all
  closed_final [] s e = e
  closed_final (op ∷ ops) s e = closed_final ops (perform limits op s).1 (perform_closed op s e)
