-- ===== src/Hazard/Scenario/States/Updates.antt =====
-- `arm`, `update` and `abort` of src/p7/hazard.py on the abstract machine of the states.
use carla.Prelude.{
  ◌≡◌, refl, ◌∙◌, subst, Bool, true, false, ◌||◌, not, Option, none, some, is_some, List, [], ◌∷◌,
  String, Bool-cases, inl, inr, if◌then◌else◌,
}
use carla.Float.{Float}
use carla.Exec.{Result, ok, err, pure, raise, modify, when, ◌>>=◌, ◌>>◌}
use carla.Exec.Takes.{Takes, Takes-via, Takes-if, Takes-read, when_from}
use carla.Session.{Fault}
use carla.Session.Segment.{ExperimentPhase, final_hazard_assessment}
use carla.Context.{ExperimentModule, module_1, module_2}
use carla.Session.Effects.{try_except}
use carla.Timestamp.{TimestampEnvelope}
use carla.Hazard.{
  HazardState, idle, armed, triggered, lead_moving_aside, hazard_revealed, responded, completed,
  aborted, p7_error, HazardOutcome, EventKind, HazardObservation, TriggerAction, wait, fire, block,
}
use carla.Hazard.Scenario.{
  Environment, Scenario, is_idle, is_armed, is_runtime, emit, abort, respond_to, conclude, follow,
  act, proceed, refusal, watch, update, set_arms, disarm, arm_in, arm,
}
use carla.Hazard.Scenario.States.{
  IsRunning, arms, Reach, here, next, fits, IsConsistent, Same-IsPreorder, on_world-Same,
  same_rules, emit-Same, tick-Same, refuse-Same, rest-Same, decide-Same,
}
use carla.Hazard.Scenario.States.Facts.{
  Holds, IsAny, IsArmed, IsShown, Takes-Same, forget, IsUnderWay, Running-UnderWay, Shown-UnderWay,
  is_armed-eq, Armed-UnderWay, under_way,
}
use carla.Hazard.Scenario.States.Steps.{
  weaken, abort-Done, give_up-Done, terminate-Done, write_trigger-Holds, begin_then, start-Holds,
}
use carla.Hazard.Scenario.States.Follows.{
  after-Holds, respond_to-Holds, driver_then, conclude_by-Done,
}

module _ {F W : Type 0} ⦃fl : Float F⦄ (env : Environment F W) {a : HazardState} where
  -- The end of an update.
  sample-conclude :
      (o : HazardObservation F) (now : F)
      → Takes
          (Holds a IsUnderWay)
          (Holds a IsAny)
          (emit env EventKind.sample o none >> conclude env o now)
  unfolding conclude
  sample-conclude o now =
      Takes-via (Holds a IsUnderWay) _ _ (Takes-Same _ (emit-Same env _ o _))
        (λ _. Takes-read _ (λ s h. conclude_by-Done env env.policy o now s h)) forget

  follow-Done :
      (o : HazardObservation F) (now : F)
      → Takes (Holds a IsUnderWay) (Holds a IsAny) (follow env o now)
  unfolding follow respond_to
  follow-Done o now =
      Takes-via (Holds a IsUnderWay) _ _ (after-Holds env o now)
        (λ _.
          driver_then env o now _
            (λ kinds.
              Takes-via (Holds a IsShown) _ _ (respond_to-Holds env o kinds)
                (λ _. record {
                  takes = λ s h. (sample-conclude o now).takes s (weaken env s Shown-UnderWay h);
                })
                forget)
            (Takes-via (Holds a IsUnderWay) _ _ (Takes-Same _ (search same_rules))
              (λ _. sample-conclude o now) forget))
        forget

  act-Done :
      (t : TriggerAction) (reason : String) (o : HazardObservation F) (now : F)
      → Takes (Holds a IsArmed) (Holds a IsAny) (act env t reason o now)
  unfolding act
  act-Done wait reason o now = record {
    takes = λ s h. (follow-Done o now).takes s (weaken env s Armed-UnderWay h);
  }
  act-Done block reason o now = record {
    takes = λ s h. (give_up-Done env o reason).takes s (forget s h);
  }
  act-Done fire reason o now =
      Takes-via (Holds a (λ b. b ≡ triggered)) _ _ (write_trigger-Holds env o now)
        (λ _.
          Takes-via (Holds a (λ b. b ≡ triggered)) _ _ (Takes-Same _ (emit-Same env _ o _))
            (λ _. begin_then env o _ (
              Takes-via (Holds a IsRunning) _ _ (start-Holds env o)
                (λ _. record {
                  takes = λ s h. (follow-Done o now).takes s (weaken env s Running-UnderWay h);
                })
                forget))
            forget)
        forget

  proceed-Done :
      (r : Option String) (b : HazardState) (o : HazardObservation F) (now : F) (s : Scenario F W)
      → s.state ≡ b
      → Holds a IsUnderWay s
      → Holds a IsAny (proceed env r b o now s).1
  unfolding proceed
  proceed-Done (some reason) b o now s e h = (give_up-Done env o reason).takes s (forget s h)
  proceed-Done none b o now s e h = elim (Bool-cases (is_armed b)) [
    | inl yes' ↦ rw yes' (
        (Takes-via (Holds a IsArmed) _ _ (Takes-Same _ (decide-Same env o now))
            (λ d. act-Done d.action d.reason o now) forget).takes
          s (record { reached = h.reached; state_is = e ∙ is_armed-eq b yes'; fit = h.fit }))
    | inr no' ↦ rw no' ((follow-Done o now).takes s h)
  ]

  watch-Done :
      (o : HazardObservation F) (now : F)
      → Takes (Holds a IsUnderWay) (Holds a IsAny) (watch env o now)
  unfolding watch
  watch-Done o now =
      Takes-if (is_some o.collision_actor_id || o.road_departure)
        (λ _. record { takes = λ s h. (terminate-Done env o).takes s (forget s h) })
        (λ _. Takes-read _ (λ s h. proceed-Done (refusal env s.state o) s.state o now s refl h))

  update-Done : (o : HazardObservation F) → Takes (Holds a IsAny) (Holds a IsAny) (update env o)
  unfolding update
  update-Done o = Takes-read _ (λ s h.
      when_from (Holds a IsAny) _ _ s
        (λ e.
          (Takes-via (Holds a IsUnderWay) _ _ (Takes-Same _ (tick-Same env o))
              (λ now. watch-Done o now) forget).takes
            s (record { reached = h.reached; state_is = under_way s.state e; fit = h.fit }))
        (λ _. h))

  set_arms-Done :
      (o : HazardObservation F) → Takes (Holds a (λ b. b ≡ idle)) (Holds a IsAny) (set_arms env o)
  unfolding set_arms modify
  set_arms-Done o =
      Takes-via (Holds a (λ b. b ≡ idle)) _ _ (Takes-Same _ (refuse-Same env _))
        (λ _.
          Takes-via (Holds a (λ b. b ≡ idle)) _ _ (Takes-Same _ (on_world-Same _))
            (λ _.
              Takes-via (Holds a (λ b. b ≡ idle)) _ _
                (record {
                  takes = λ s h. record { reached = h.reached; state_is = h.state_is; fit = h.fit };
                })
                (λ _.
                  Takes-via (Holds a (λ b. b ≡ idle)) _ _ (Takes-Same _ (on_world-Same _))
                    (λ _.
                      Takes-via (Holds a IsAny) _ _
                        (record {
                          takes = λ s h. record {
                            reached = next (subst (λ b. Reach a b) h.state_is h.reached) arms;
                            state_is = tt;
                            fit =
                                subst
                                  (λ b.
                                    fits b (is_some s.metrics.trigger_t)
                                      (is_some s.metrics.reveal_t)
                                    ≡ true)
                                  h.state_is h.fit;
                          };
                        })
                        (λ _. Takes-Same _ (rest-Same env o)) (λ s h. h))
                    forget)
                forget)
            forget)
        forget

  disarm-Done :
      (o : HazardObservation F) (e : Fault) → Takes (Holds a IsAny) (Holds a IsAny) (disarm env o e)
  disarm-Done o e =
      Takes-via (Holds a IsAny) _ _ (give_up-Done env o _) (λ _. Takes-Same _ (search same_rules))
        (λ s h. h)

  handled_arms :
      (o : HazardObservation F) (r : Result Fault Bool) (s s' : Scenario F W)
      → Holds a IsAny s'
      → Holds a IsAny (try_except is_runtime (λ t. (r, s')) (disarm env o) s).1
  unfolding try_except
  handled_arms o (ok b) s s' h = h
  handled_arms o (err e) s s' h = elim (Bool-cases (is_runtime e)) [
    | inl caught ↦ rw caught ((disarm-Done o e).takes s' h)
    | inr loose ↦ rw loose h
  ]

  armed_from :
      (o : HazardObservation F) (s : Scenario F W)
      → Holds a (λ b. b ≡ idle) s
      → Holds a IsAny (try_except is_runtime (set_arms env o) (disarm env o) s).1
  unfolding try_except
  armed_from o s h =
      let (r, s') = set_arms env o s in handled_arms o r s s' ((set_arms-Done o).takes s h)

  guarded_arms :
      (o : HazardObservation F) (b : HazardState) (s : Scenario F W)
      → s.state ≡ b
      → Holds a IsAny s
      → Holds a IsAny
          (((when (not (is_idle b)) (raise (p7_error "HAZARD_ALREADY_ARMED_OR_EXECUTED")))
              >> try_except is_runtime (set_arms env o) (disarm env o))
            s).1
  unfolding when raise ◌>>=◌
  guarded_arms o idle s e h =
      armed_from o s (record { reached = h.reached; state_is = e; fit = h.fit })
  guarded_arms o armed s e h = h
  guarded_arms o triggered s e h = h
  guarded_arms o lead_moving_aside s e h = h
  guarded_arms o hazard_revealed s e h = h
  guarded_arms o responded s e h = h
  guarded_arms o completed s e h = h
  guarded_arms o aborted s e h = h

  arm_in-Done :
      (m : ExperimentModule) (p : ExperimentPhase) (o : HazardObservation F) (s : Scenario F W)
      → Holds a IsAny s
      → Holds a IsAny (arm_in env m p s.state o s).1
  unfolding arm_in pure
  arm_in-Done module_1 p o s h = h
  arm_in-Done module_2 final_hazard_assessment o s h = guarded_arms o s.state s refl h
  arm_in-Done module_2 _ o s h = h

  maybe_arms :
      (b : Bool) (o : HazardObservation F) (s : Scenario F W)
      → Holds a IsAny s
      → Holds a IsAny ((if b then pure false else arm_in env env.module' env.phase s.state o) s).1
  unfolding pure
  maybe_arms true o s h = h
  maybe_arms false o s h = arm_in-Done env.module' env.phase o s h

  arm-Done : (o : HazardObservation F) → Takes (Holds a IsAny) (Holds a IsAny) (arm env o)
  unfolding arm
  arm-Done o = Takes-read _ (λ s h. maybe_arms (not env.config.enabled) o s h)

-- What the program may do with a scenario: its public methods, returned or raised.
pub data Operation (F : Type 0) : Type 0 where
  arms_with : HazardObservation F → Operation F
  updates_with : HazardObservation F → Operation F
  aborts_with :
      HazardObservation F → String → Option HazardOutcome → TimestampEnvelope → Operation F

module _ {F W : Type 0} ⦃fl : Float F⦄ (env : Environment F W) where
  unfoldable pub after : Operation F → Scenario F W → Scenario F W
  after (arms_with o) s = (arm env o s).1
  after (updates_with o) s = (update env o s).1
  after (aborts_with o r out at) s = (abort env o r out at s).1

  unfoldable pub after_all : List (Operation F) → Scenario F W → Scenario F W
  after_all [] s = s
  after_all (p ∷ ps) s = after_all ps (after p s)

  after-Done :
      {a : HazardState} (p : Operation F) (s : Scenario F W)
      → Holds a IsAny s
      → Holds a IsAny (after p s)
  unfolding after
  after-Done (arms_with o) s h = (arm-Done env o).takes s h
  after-Done (updates_with o) s h = (update-Done env o).takes s h
  after-Done (aborts_with o r out at) s h = (abort-Done env o r out at).takes s h

  run-Done :
      {a : HazardState} (ps : List (Operation F)) (s : Scenario F W)
      → Holds a IsAny s
      → Holds a IsAny (after_all ps s)
  unfolding after_all
  run-Done [] s h = h
  run-Done (p ∷ ps) s h = run-Done ps (after p s) (after-Done p s h)

  -- Any operations on a scenario whose state goes with its times, returned or raised, take the state
  -- along the abstract machine (armed, triggered, the lead vehicle moving, the reveal, a response,
  -- completed after the trigger only; aborted from every state but the last two), and the times
  -- still go with the state.
  pub scenario-Reach :
      (ps : List (Operation F)) (s : Scenario F W)
      → IsConsistent s
      → Reach s.state (after_all ps s).state × IsConsistent (after_all ps s)
  scenario-Reach ps s h =
      let k = run-Done ps s (record { reached = here; state_is = tt; fit = h.fit }) in
      (k.reached, record { fit = k.fit })
