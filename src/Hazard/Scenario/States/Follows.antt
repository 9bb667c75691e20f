-- ===== src/Hazard/Scenario/States/Follows.antt =====
-- The steps of `update` past the trigger of src/p7/hazard.py on the abstract machine of the states.
use carla.Prelude.{
  ◌≡◌, refl, sym, ap, subst, Bool, true, false, ◌&&◌, Option, none, some, is_some, List, [], ◌∷◌,
  String, Option-cases, inl, inr, arith,
}
use carla.Float.{Float}
use carla.Exec.{pure, gets, modify, ◌>>=◌}
use carla.Exec.Takes.{Takes, Takes-via, Takes-if, Takes-read, when_from}
use carla.Hazard.{
  HazardState, HazardOutcome, EventKind, HazardObservation, HazardPolicy, OutcomeDecision,
}
use carla.Hazard.Metrics.{observe_input}
use carla.Hazard.Metrics.Laws.{input-SameTimes, input_quiet}
use carla.Hazard.Scenario.{
  Environment, Scenario, Action, is_response, note_reveal, after_trigger, respond, respond_to,
  observe_driver, same_outcome_unobservable, complete, conclude_with, policy_conclude, ended,
  conclude_by,
}
use carla.Hazard.Scenario.States.{
  IsUnrevealed, IsRunning, reveals, completes, next, Same, Same-IsPreorder, on_world-Same,
  same_rules, emit-Same, measure-Same, lateral-Same, lead-Same,
}
use carla.Hazard.Scenario.States.Facts.{
  Holds, IsAny, IsShown, Same-Holds, Takes-Same, forget, Shown-Running, IsUnderWay,
  Running-UnderWay, IsRunning-of, IsUnrevealed-of, IsShown-of, trigger_known, shown_fit,
  responds_from,
}
use carla.Hazard.Scenario.States.Steps.{weaken, abort-Done}

module _ {F W : Type 0} ⦃fl : Float F⦄ (env : Environment F W) where
  pub ended_revealed :
      (now : F) (r : Option F) (b : Bool) → (b && ended env now r) ≡ true → is_some r ≡ true
  unfolding ended
  ended_revealed now none true h = cc
  ended_revealed now none false h = cc
  ended_revealed now (some t) b h = refl

module _ {F W : Type 0} ⦃fl : Float F⦄ (env : Environment F W) {a : HazardState} where
  pub reveal-Holds :
      (o : HazardObservation F) (now : F)
      → Takes (Holds a IsRunning) (Holds a IsRunning) (note_reveal env o now)
  unfolding note_reveal modify
  reveal-Holds o now = Takes-read _ (λ s h.
      when_from (Holds a IsRunning) _ _ s
        (λ e.
          (Takes-via (Holds a IsRunning)
              {P = λ t. Holds a IsUnrevealed t × (is_some t.metrics.trigger_t ≡ true)} _ _
              (record {
                takes = λ t g. record {
                  reached = next g.0.reached (reveals t.state g.0.state_is);
                  state_is = tt;
                  fit = ground (arith, g.1);
                };
              })
              (λ _. Takes-Same _ (emit-Same env _ o _)) (λ s h. h)).takes
            s
            (
              record {
                reached = h.reached;
                state_is = IsUnrevealed-of s.state _ _ h.state_is h.fit (ground arith);
                fit = h.fit;
              },
              trigger_known s.state _ _ h.state_is h.fit,
            ))
        (λ _. h))

  pub after-Holds :
      (o : HazardObservation F) (now : F)
      → Takes (Holds a IsUnderWay) (Holds a IsUnderWay) (after_trigger env o now)
  unfolding after_trigger
  after-Holds o now = Takes-read _ (λ s h.
      when_from (Holds a IsUnderWay) _ _ s
        (λ e. weaken env _ Running-UnderWay (
          (Takes-via (Holds a IsRunning) _ _ (Takes-Same _ (measure-Same env o))
              (λ _.
                Takes-via (Holds a IsRunning) _ _ (Takes-Same _ (lateral-Same env o))
                  (λ _.
                    Takes-via (Holds a IsRunning) _ _ (reveal-Holds o now)
                      (λ _. Takes-Same _ (lead-Same env o)) (λ s h. h))
                  (λ s h. h))
              (λ s h. h)).takes
            s
            (record {
              reached = h.reached;
              state_is = IsRunning-of s.state _ _ h.state_is h.fit e;
              fit = h.fit;
            })))
        (λ _. h))

  pub respond-Holds : Takes (Holds a IsShown) (Holds a IsShown) (respond env)
  unfolding respond modify
  respond-Holds = record {
    takes = λ s h. record {
      reached = responds_from s.state h.state_is h.reached;
      state_is = tt;
      fit = shown_fit s.state _ _ h.state_is h.fit;
    };
  }

  pub respond_to-Holds :
      (o : HazardObservation F) (kinds : List EventKind)
      → Takes (Holds a IsShown) (Holds a IsShown) (respond_to env o kinds)
  unfolding respond_to
  respond_to-Holds o [] = Takes-Same _ (search same_rules)
  respond_to-Holds o (kind ∷ kinds) =
      Takes-via (Holds a IsShown) _ _
        (record {
          takes = λ s h.
              when_from (Holds a IsShown) (is_response kind) (respond env) s
                (λ _. respond-Holds.takes s h) (λ _. h);
        })
        (λ _.
          Takes-via (Holds a IsShown) _ _ (Takes-Same _ (emit-Same env _ o _))
            (λ _. respond_to-Holds o kinds) (λ s h. h))
        (λ s h. h)

  -- What follows the reading of the driver's input: before the reveal there is no response.
  pub driver_then :
      (o : HazardObservation F) (now : F) (k : List EventKind → Action F W Unit)
      → ((kinds : List EventKind) → Takes (Holds a IsShown) (Holds a IsAny) (k kinds))
      → Takes (Holds a IsUnderWay) (Holds a IsAny) (k [])
      → Takes (Holds a IsUnderWay) (Holds a IsAny) (observe_driver env now o >>= k)
  unfolding observe_driver modify gets pure ◌>>=◌
  driver_then o now k l m = record {
    takes = λ s h.
        let t = record s { metrics = (observe_input now o.driver_input s.metrics).1 } in
        let times = input-SameTimes now o.driver_input s.metrics in
        let same : Same s t = record {
          state_eq = refl;
          trigger_eq = ap is_some times.trigger_eq;
          reveal_eq = ap is_some times.reveal_eq;
        } in
        let g : Holds a IsUnderWay t = Same-Holds s t same h in
        elim (Option-cases s.metrics.reveal_t) [
          | inl e ↦
              subst (λ kinds. Holds a IsAny (k kinds t).1)
                (sym (input_quiet now o.driver_input s.metrics e)) (m.takes t g)
          | inr (r, e) ↦ (l (observe_input now o.driver_input s.metrics).0).takes t (record {
            reached = g.reached;
            state_is = IsShown-of s.state _ _ h.state_is h.fit (ap is_some e);
            fit = g.fit;
          })
        ];
  }

  pub complete-Done :
      (out : Option HazardOutcome) (r : String) (o : HazardObservation F)
      → Takes (Holds a IsRunning) (Holds a IsAny) (complete env out r o)
  unfolding complete modify
  complete-Done out r o =
      Takes-via (Holds a IsAny) _ _
        (record {
          takes = λ s h. record {
            reached = next h.reached (completes s.state h.state_is);
            state_is = tt;
            fit = trigger_known s.state _ _ h.state_is h.fit;
          };
        })
        (λ _. Takes-Same _ (emit-Same env _ o _)) (λ s h. h)

  pub conclude_with-Done :
      (o : HazardObservation F) (d : Option OutcomeDecision)
      → Takes (Holds a IsRunning) (Holds a IsAny) (conclude_with env o d)
  unfolding conclude_with pure
  conclude_with-Done o none = record { takes = λ s h. forget s h }
  conclude_with-Done o (some d) =
      Takes-if (same_outcome_unobservable d.outcome)
        (λ _. record { takes = λ s h. (abort-Done env o _ _ o.timestamp).takes s (forget s h) })
        (λ _. complete-Done _ _ o)

  pub policy-Done :
      (p : HazardPolicy F W) (o : HazardObservation F) (now : F) (t r : Option F) (s : Scenario F W)
      → Holds a IsUnderWay s
      → is_some s.metrics.trigger_t ≡ is_some t
      → Holds a IsAny (policy_conclude env p o now t r s).1
  unfolding policy_conclude pure
  policy-Done p o now none r s h e = forget s h
  policy-Done p o now (some t) r s h e =
      (Takes-via (Holds a IsRunning) _ _ (Takes-Same _ (on_world-Same _))
          (λ d. conclude_with-Done o d) forget).takes
        s
        (record {
          reached = h.reached;
          state_is = IsRunning-of s.state _ _ h.state_is h.fit e;
          fit = h.fit;
        })

  pub conclude_by-Done :
      (p : Option (HazardPolicy F W)) (o : HazardObservation F) (now : F) (s : Scenario F W)
      → Holds a IsUnderWay s
      → Holds a IsAny (conclude_by env p o now s s).1
  unfolding conclude_by ended
  conclude_by-Done (some p) o now s h =
      policy-Done p o now s.metrics.trigger_t s.metrics.reveal_t s h refl
  conclude_by-Done none o now s h =
      when_from (Holds a IsAny) _ _ s
        (λ e. (complete-Done _ _ o).takes s (record {
          reached = h.reached;
          state_is = Shown-Running s.state (
              IsShown-of s.state _ _ h.state_is h.fit
                (ended_revealed env now s.metrics.reveal_t s.lead_complete e));
          fit = h.fit;
        }))
        (λ _. forget s h)
