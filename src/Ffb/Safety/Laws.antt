-- ===== src/Ffb/Safety/Laws.antt =====
-- The commands of src/p8/ffb_safety.py.
use carla.Prelude.{
  ℕ, ◌+◌, ◌≡◌, ◌⊎◌, if◌then◌else◌, refl, Bool, true, false, Option, none, some, String, arith,
}
use carla.Float.{Float}
use carla.Ffb.{FfbObservation, FfbParameters, zero_parameters}
use carla.Ffb.Safety.{
  FfbRequest, FfbLimits, FfbCommand, FfbSafety, is_evaluating, command, fault_command, fail, close,
  switch_off,
}
use carla.Ffb.Safety.Step.{
  validate_observation, slewed, deliver, approach, evaluate, with_target, gate, remember,
  remembered, with_observation, observe, step,
}

pub data Operation (F : Type 0) : Type 0 where
  step_with : Option (FfbObservation F) → Option (FfbParameters F) → F → FfbRequest → Operation F
  fault_with : String → F → Operation F
  close_at : F → Operation F

-- A command counts on from `n`, and carries strength only while the evaluation is on.
pub record IsAnswer {F : Type 0} ⦃fl : Float F⦄ (n : ℕ) (r : FfbCommand F × FfbSafety F)
    : Type 0 where
  pub counted : (r.0.sequence ≡ n + 1) × (r.1.sequence ≡ n + 1)
  pub told : r.0.state ≡ r.1.state
  pub silent : (is_evaluating r.0.state ≡ true) ⊎ (r.0.parameters ≡ zero_parameters)

module _ {F : Type 0} ⦃fl : Float F⦄ where
  if-IsAnswer :
      (n : ℕ) (b : Bool) (x y : FfbCommand F × FfbSafety F)
      → IsAnswer n x
      → IsAnswer n y
      → IsAnswer n (if b then x else y)
  if-IsAnswer n true x y p q = p
  if-IsAnswer n false x y p q = q

module _ {F : Type 0} ⦃fl : Float F⦄ (n : ℕ) (s : FfbSafety F) (e : s.sequence ≡ n) where
  command-IsAnswer : (now : F) (v : Option F) → IsAnswer n (command s now v)
  unfolding command
  command-IsAnswer now v = ground arith

  off_count : (reason : String) (clear : Bool) → (switch_off s reason clear).sequence ≡ n
  unfolding switch_off
  off_count reason clear = ground arith

module _ {F : Type 0} ⦃fl : Float F⦄ (n : ℕ) (s : FfbSafety F) (e : s.sequence ≡ n) where
  ruleset base = (if-IsAnswer, command-IsAnswer, off_count, refl)

  fault-IsAnswer : (now : F) → IsAnswer n (fault_command s now)
  unfolding fault_command
  fault-IsAnswer now = search base

module _ {F : Type 0} ⦃fl : Float F⦄ (n : ℕ) (s : FfbSafety F) (e : s.sequence ≡ n) where
  fail-IsAnswer : (reason : String) (now : F) → IsAnswer n (fail s reason now)
  unfolding fail
  fail-IsAnswer reason now = search (if-IsAnswer, fault-IsAnswer)

ruleset answers = (if-IsAnswer, command-IsAnswer, off_count, fail-IsAnswer, refl)

module _ {F : Type 0} ⦃fl : Float F⦄ (limits : FfbLimits F) (o : FfbObservation F) (now dt : F)
    (n : ℕ) where
  approach-IsAnswer :
      (s : FfbSafety F) (t : FfbParameters F)
      → s.sequence ≡ n
      → IsAnswer n (approach limits s o t now dt)
  unfolding approach deliver slewed
  approach-IsAnswer s t e = search answers

module _ {F : Type 0} ⦃fl : Float F⦄ (limits : FfbLimits F) (o : FfbObservation F) (now dt : F)
    (q : FfbRequest) (n : ℕ) where
  evaluate-IsAnswer :
      (s : FfbSafety F) (t : FfbParameters F)
      → s.sequence ≡ n
      → IsAnswer n (evaluate limits s o t now dt q)
  unfolding evaluate
  evaluate-IsAnswer s t e = search (answers, approach-IsAnswer) depth 12

  target-IsAnswer :
      (s : FfbSafety F) (t : Option (FfbParameters F))
      → s.sequence ≡ n
      → IsAnswer n (with_target limits s o t now dt q)
  unfolding with_target
  target-IsAnswer s none e = search answers
  target-IsAnswer s (some t) e = evaluate-IsAnswer s t e

  gate-IsAnswer :
      (s : FfbSafety F) (t : Option (FfbParameters F)) (b : Option String)
      → s.sequence ≡ n
      → IsAnswer n (gate limits s o t now dt q b)
  unfolding gate
  gate-IsAnswer s t none e = search (answers, target-IsAnswer) depth 12
  gate-IsAnswer s t (some b) e = search answers

  seen-IsAnswer :
      (s : FfbSafety F) (t : Option (FfbParameters F)) (p : Option String)
      → s.sequence ≡ n
      → IsAnswer n (with_observation limits s o t now dt q p)
  unfolding with_observation remembered remember
  seen-IsAnswer s t none e = search (answers, gate-IsAnswer) depth 12
  seen-IsAnswer s t (some p) e = search answers

module _ {F : Type 0} ⦃fl : Float F⦄ (limits : FfbLimits F) where
  observe-IsAnswer :
      (s : FfbSafety F) (o : Option (FfbObservation F)) (t : Option (FfbParameters F)) (now dt : F)
      (q : FfbRequest) (n : ℕ)
      → s.sequence ≡ n
      → IsAnswer n (observe limits s o t now dt q)
  unfolding observe
  observe-IsAnswer s none t now dt q n e = search answers
  observe-IsAnswer s (some o) t now dt q n e =
      seen-IsAnswer limits o now dt q n s t (validate_observation limits o now) e

  step-IsAnswer :
      (s : FfbSafety F) (o : Option (FfbObservation F)) (t : Option (FfbParameters F)) (now : F)
      (q : FfbRequest)
      → IsAnswer s.sequence (step limits s o t now q)
  unfolding step
  step-IsAnswer s o t now q = search (answers, observe-IsAnswer) depth 12

  -- The command of an operation, and the state after it.
  unfoldable pub perform : Operation F → FfbSafety F → FfbCommand F × FfbSafety F
  perform (step_with o t now q) s = step limits s o t now q
  perform (fault_with reason now) s = fail s reason now
  perform (close_at now) s = close s now

  -- Every command counts on by one, tells the state after it, and carries strength only while the
  -- evaluation is on.
  pub perform-IsAnswer : (op : Operation F) (s : FfbSafety F) → IsAnswer s.sequence (perform op s)
  unfolding perform close
  perform-IsAnswer (step_with o t now q) s = step-IsAnswer s o t now q
  perform-IsAnswer (fault_with reason now) s = search answers
  perform-IsAnswer (close_at now) s = search answers
