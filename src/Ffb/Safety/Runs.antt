-- ===== src/Ffb/Safety/Runs.antt =====
-- Sequences of operations of src/p8/ffb_safety.py: the evaluation, and the numbers of the commands.
use carla.Prelude.{
  ◌+◌, ◌≡◌, if◌then◌else◌, refl, Bool, true, false, ◌&&◌, Option, none, some, String, arith, List,
  [], ◌∷◌, All, length,
}
use carla.Float.{Float}
use carla.Ffb.{FfbObservation, FfbParameters, zero_parameters}
use carla.Ffb.Safety.{
  FfbRequest, FfbLimits, FfbCommand, FfbSafety, is_evaluating, is_enable, command, fault_command,
  fail, close, switch_off,
}
use carla.Ffb.Safety.Step.{
  validate_observation, slewed, deliver, approach, evaluate, with_target, gate, remember,
  remembered, with_observation, observe, step,
}
use carla.Ffb.Safety.Laws.{Operation, step_with, fault_with, close_at, perform, perform-IsAnswer}

-- After it, no evaluation is on.
record IsOff {F : Type 0} (r : FfbCommand F × FfbSafety F) : Type 0 where
  off : is_evaluating r.1.state ≡ false

module _ {F : Type 0} ⦃fl : Float F⦄ where
  if-IsOff :
      (b : Bool) (x y : FfbCommand F × FfbSafety F)
      → (b ≡ true → IsOff x)
      → (b ≡ false → IsOff y)
      → IsOff (if b then x else y)
  if-IsOff true x y p q = p refl
  if-IsOff false x y p q = q refl

  command-IsOff :
      (s : FfbSafety F) (now : F) (v : Option F)
      → is_evaluating s.state ≡ false
      → IsOff (command s now v)
  unfolding command
  command-IsOff s now v h = record { off = h }

  fail-IsOff : (s : FfbSafety F) (reason : String) (now : F) → IsOff (fail s reason now)
  unfolding fail fault_command command
  fail-IsOff s reason now = ground arith

  close-IsOff : (s : FfbSafety F) (now : F) → IsOff (close s now)
  unfolding close
  close-IsOff s now = search fail-IsOff

  switch-off :
      (s : FfbSafety F) (reason : String) (clear : Bool)
      → is_evaluating (switch_off s reason clear).state ≡ false
  unfolding switch_off
  switch-off s reason clear = ground arith

  enabled_never :
      (q : FfbRequest) (x : Bool) (r : FfbCommand F × FfbSafety F)
      → is_enable q ≡ false
      → (is_enable q && x) ≡ true
      → IsOff r
  enabled_never q x r h k = ground arith

ruleset offs = (if-IsOff, command-IsOff, fail-IsOff, switch-off, enabled_never, refl)

module _ {F : Type 0} ⦃fl : Float F⦄ (limits : FfbLimits F) (q : FfbRequest)
    (h : is_enable q ≡ false) where
  approach-IsOff :
      (s : FfbSafety F) (o : FfbObservation F) (t : FfbParameters F) (now dt : F)
      → is_evaluating s.state ≡ false
      → IsOff (approach limits s o t now dt)
  unfolding approach deliver slewed
  approach-IsOff s o t now dt e = search offs

  evaluate-IsOff :
      (s : FfbSafety F) (o : FfbObservation F) (t : FfbParameters F) (now dt : F)
      → is_evaluating s.state ≡ false
      → IsOff (evaluate limits s o t now dt q)
  unfolding evaluate
  evaluate-IsOff s o t now dt e = search (offs, approach-IsOff) depth 12

  gate-IsOff :
      (s : FfbSafety F) (o : FfbObservation F) (t : Option (FfbParameters F)) (now dt : F)
      (b : Option String)
      → is_evaluating s.state ≡ false
      → IsOff (gate limits s o t now dt q b)
  unfolding gate with_target
  gate-IsOff s o none now dt none e = search offs depth 12
  gate-IsOff s o (some t) now dt none e = search (offs, evaluate-IsOff) depth 12
  gate-IsOff s o t now dt (some b) e = search offs

  seen-IsOff :
      (s : FfbSafety F) (o : FfbObservation F) (t : Option (FfbParameters F)) (now dt : F)
      (p : Option String)
      → is_evaluating s.state ≡ false
      → IsOff (with_observation limits s o t now dt q p)
  unfolding with_observation remembered remember
  seen-IsOff s o t now dt none e = search (offs, gate-IsOff) depth 12
  seen-IsOff s o t now dt (some p) e = search offs

  observe-IsOff :
      (s : FfbSafety F) (o : Option (FfbObservation F)) (t : Option (FfbParameters F)) (now dt : F)
      → is_evaluating s.state ≡ false
      → IsOff (observe limits s o t now dt q)
  unfolding observe
  observe-IsOff s none t now dt e = search offs
  observe-IsOff s (some o) t now dt e =
      seen-IsOff s o t now dt (validate_observation limits o now) e

  step-IsOff :
      (s : FfbSafety F) (o : Option (FfbObservation F)) (t : Option (FfbParameters F)) (now : F)
      → is_evaluating s.state ≡ false
      → IsOff (step limits s o t now q)
  unfolding step
  step-IsOff s o t now e = search (offs, observe-IsOff) depth 12

module _ {F : Type 0} ⦃fl : Float F⦄ (limits : FfbLimits F) where
  -- The state after the operations.
  unfoldable pub after_all : List (Operation F) → FfbSafety F → FfbSafety F
  after_all [] s = s
  after_all (op ∷ ops) s = after_all ops (perform limits op s).1

  abbrev pub Unenabling : Operation F → Type 0
  Unenabling (step_with o t now q) = is_enable q ≡ false
  Unenabling _ = Unit

  perform-off :
      (op : Operation F) (s : FfbSafety F)
      → Unenabling op
      → is_evaluating s.state ≡ false
      → is_evaluating (perform limits op s).1.state ≡ false
  unfolding perform
  perform-off (step_with o t now q) s u e = (step-IsOff limits q u s o t now e).off
  perform-off (fault_with reason now) s u e = (fail-IsOff s reason now).off
  perform-off (close_at now) s u e = (close-IsOff s now).off

  -- While the evaluation is off, operations none of which asks for it leave it off, and so the
  -- command of the last of them carries no strength.
  pub off_unasked :
      (ops : List (Operation F)) (op : Operation F) (s : FfbSafety F)
      → All Unenabling ops
      → Unenabling op
      → is_evaluating s.state ≡ false
      → (is_evaluating (perform limits op (after_all ops s)).1.state ≡ false)
        × ((perform limits op (after_all ops s)).0.parameters ≡ zero_parameters)
  unfolding after_all
  off_unasked [] op s a u e = ground (arith, perform-off op s u e, perform-IsAnswer limits op s)
  off_unasked (o ∷ os) op s a u e =
      off_unasked os op (perform limits o s).1 a.1 u (perform-off o s a.0 e)

  -- Each command has a number of its own, the next one, and tells the state that it leaves.
  pub numbered :
      (ops : List (Operation F)) (op : Operation F) (s : FfbSafety F)
      → ((perform limits op (after_all ops s)).0.sequence ≡ s.sequence + length ops + 1)
        × ((perform limits op (after_all ops s)).0.state
            ≡ (perform limits op (after_all ops s)).1.state)
  unfolding after_all
  numbered [] op s = ground (arith, perform-IsAnswer limits op s)
  numbered (o ∷ os) op s =
      ground (arith, numbered os op (perform limits o s).1, perform-IsAnswer limits o s)
