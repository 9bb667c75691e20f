-- ===== src/Hazard/Scenario/States.antt =====
-- The states of a scenario of src/p7/hazard.py as an abstract machine, and what the actions that
-- leave the state alone keep.
pub mod Facts
pub mod Follows
pub mod Steps
pub mod Updates
use carla.Prelude.{
  ◌≡◌, refl, sym, ◌∙◌, ap, subst, Bool, true, false, ◌&&◌, not, Option, none, some, is_none,
  is_some, List, String, ℕ, arith,
}
use carla.Float.{Float}
use carla.Exec.{Exec, modify, gets, pure, ◌>>=◌, ◌>>◌}
use carla.Exec.Frame.{IsPreorder, Moves, Moves-modify, moves_rules}
use carla.Exec.Takes.{Takes}
use carla.Session.{Fault}
use carla.Timestamp.{TimestampEnvelope}
use carla.Hazard.{
  HazardState, idle, armed, triggered, lead_moving_aside, hazard_revealed, responded, completed,
  aborted, EventKind, HazardObservation, HazardPolicy, TriggerDecision,
}
use carla.Hazard.Metrics.{ResponseMetrics, observe_geometry}
use carla.Hazard.Scenario.{
  Environment, Scenario, Action, is_over, on_world, tick, emit_at, emit, policy_trigger, decide_by,
  decide, measure, note_lateral, note_lead, refuse, observe_driver,
}
use carla.Hazard.Metrics.Laws.{input-SameTimes}

abbrev pub IsUnrevealed : HazardState → Type 0
IsUnrevealed triggered = Unit
IsUnrevealed lead_moving_aside = Unit
IsUnrevealed _ = ⊥

-- The states after the trigger in which the scenario is still under way.
abbrev pub IsRunning : HazardState → Type 0
IsRunning triggered = Unit
IsRunning lead_moving_aside = Unit
IsRunning hazard_revealed = Unit
IsRunning responded = Unit
IsRunning _ = ⊥

pub data Step : HazardState → HazardState → Type 0 where
  arms : Step idle armed
  fires : Step armed triggered
  moves : Step triggered lead_moving_aside
  reveals : (a : HazardState) → IsUnrevealed a → Step a hazard_revealed
  responds : Step hazard_revealed responded
  completes : (a : HazardState) → IsRunning a → Step a completed
  aborts : (a : HazardState) → is_over a ≡ false → Step a aborted

pub data Reach (a : HazardState) : HazardState → Type 0 where
  here : Reach a a
  next : {b c : HazardState} → Reach a b → Step b c → Reach a c

pub Reach-trans : {a b c : HazardState} → Reach a b → Reach b c → Reach a c
Reach-trans p here = p
Reach-trans p (next q s) = next (Reach-trans p q) s

-- How the state goes with the times of the trigger and of the reveal.
abbrev pub fits : HazardState → Bool → Bool → Bool
fits idle t r = not t && not r
fits armed t r = not t && not r
fits triggered t r = t && not r
fits lead_moving_aside t r = t && not r
fits hazard_revealed t r = t && r
fits responded t r = t && r
fits completed t r = t
fits aborted t r = true

pub record IsConsistent {F W : Type 0} (s : Scenario F W) : Type 0 where
  pub fit : fits s.state (is_some s.metrics.trigger_t) (is_some s.metrics.reveal_t) ≡ true

-- The state and what is known of the times are the same.
pub record Same {F W : Type 0} (s t : Scenario F W) : Type 0 where
  pub state_eq : t.state ≡ s.state
  pub trigger_eq : is_some t.metrics.trigger_t ≡ is_some s.metrics.trigger_t
  pub reveal_eq : is_some t.metrics.reveal_t ≡ is_some s.metrics.reveal_t

instance pub Same-IsPreorder : {F W : Type 0} → IsPreorder (Same {F = F} {W = W})
Same-IsPreorder = record {
  refl_at = λ s. record { state_eq = refl; trigger_eq = refl; reveal_eq = refl };
  trans_at = λ s t u p q. record {
    state_eq = q.state_eq ∙ p.state_eq;
    trigger_eq = q.trigger_eq ∙ p.trigger_eq;
    reveal_eq = q.reveal_eq ∙ p.reveal_eq;
  };
}

module _ {F W A : Type 0} where
  pub on_world-Same : (m : Exec Fault W A) → Moves Same (on_world {F = F} m)
  unfolding on_world
  on_world-Same m = record {
    at = λ s. record { state_eq = refl; trigger_eq = refl; reveal_eq = refl };
  }

pub ruleset same_rules = (moves_rules, Moves-modify, on_world-Same)

module _ {F W : Type 0} ⦃fl : Float F⦄ (env : Environment F W) where
  pub emit_at-Same :
      (at : TimestampEnvelope) (k : EventKind) (o : HazardObservation F) (r : Option String)
      → Moves Same (emit_at env at k o r)
  unfolding emit_at
  emit_at-Same at k o r = search same_rules depth 16

  pub emit-Same :
      (k : EventKind) (o : HazardObservation F) (r : Option String) → Moves Same (emit env k o r)
  unfolding emit
  emit-Same k o r = emit_at-Same o.timestamp k o r

  pub tick-Same : (o : HazardObservation F) → Moves Same (tick env o)
  unfolding tick
  tick-Same o = record { at = λ s. record { state_eq = refl; trigger_eq = refl; reveal_eq = refl } }

  policy-Same :
      (p : HazardPolicy F W) (o : HazardObservation F) (now : F) (t : Option F)
      → Moves Same (policy_trigger env p o now t)
  unfolding policy_trigger
  policy-Same p o now none = search same_rules
  policy-Same p o now (some t) = search same_rules

  by-Same :
      (p : Option (HazardPolicy F W)) (o : HazardObservation F) (now : F) (t : Option F)
      → Moves Same (decide_by env p o now t)
  unfolding decide_by
  by-Same none o now t = search same_rules
  by-Same (some p) o now t = policy-Same p o now t

  pub decide-Same : (o : HazardObservation F) (now : F) → Moves Same (decide env o now)
  unfolding decide
  decide-Same o now = search (same_rules, by-Same)

  pub measure-Same : (o : HazardObservation F) → Moves Same (measure env o)
  unfolding measure observe_geometry
  measure-Same o = search same_rules

  pub lateral-Same : (o : HazardObservation F) → Moves Same (note_lateral env o)
  unfolding note_lateral
  lateral-Same o = search (same_rules, emit-Same) depth 16

  pub lead-Same : (o : HazardObservation F) → Moves Same (note_lead env o)
  unfolding note_lead
  lead-Same o = search (same_rules, emit-Same) depth 16

  pub refuse-Same : (r : Option String) → Moves Same (refuse env r)
  unfolding refuse
  refuse-Same none = search same_rules
  refuse-Same (some r) = search same_rules

  driver-Same : (now : F) (o : HazardObservation F) → Moves Same (observe_driver env now o)
  unfolding observe_driver gets modify pure ◌>>=◌
  driver-Same now o = record {
    at = λ s.
        let k = input-SameTimes now o.driver_input s.metrics in
        record {
          state_eq = refl;
          trigger_eq = ap is_some k.trigger_eq;
          reveal_eq = ap is_some k.reveal_eq;
        };
  }

  -- The end of `set_arms`.
  pub rest-Same :
      (o : HazardObservation F)
      → Moves Same (do
        now ← tick env o
        modify (λ s. record s { armed_t = some now })
        emit env EventKind.armed o none
        later ← tick env o
        observe_driver env later o
        pure true)
  rest-Same o = search (same_rules, tick-Same, emit-Same, driver-Same) depth 20
