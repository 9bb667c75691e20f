-- ===== src/Hazard/Scenario/States/Steps.antt =====
-- The steps of `update` and `abort` of src/p7/hazard.py on the abstract machine of the states.
use carla.Prelude.{
  ◌≡◌, refl, subst, Bool, true, false, Option, none, is_some, String, arith, if◌then◌else◌,
}
use carla.Float.{Float}
use carla.Prelude.Strings.{text_append}
use carla.Exec.{Result, ok, err, continue, pure, modify, when, ◌>>=◌, ◌>>◌, zoom}
use carla.Exec.Frame.{past-first}
use carla.Exec.Takes.{Takes, Takes-via, Takes-read, when_from}
use carla.Session.{Fault}
use carla.Session.Effects.{try_except, message}
use carla.Timestamp.{TimestampEnvelope}
use carla.Hazard.{HazardState, triggered, HazardOutcome, HazardObservation}
use carla.Hazard.Scenario.{
  Environment, Scenario, Action, is_runtime, on_world, abort_live, abort, give_up, terminate,
  write_trigger, begin, start_moving,
}
use carla.Hazard.Scenario.States.{
  IsRunning, fires, moves, aborts, Reach, next, fits, Same-IsPreorder, same_rules, emit_at-Same,
  emit-Same,
}
use carla.Hazard.Scenario.States.Facts.{
  Holds, IsAny, IsActive, IsArmed, Takes-Same, forget, fire_fit,
}

module _ {F W : Type 0} {a : HazardState} where
  pub after_begin :
      (r : Result Fault Bool) (k : Action F W Unit)
      → Takes (Holds a (λ b. b ≡ triggered)) (Holds a IsAny) k
      → (s : Scenario F W) → (r ≡ ok true → Holds a (λ b. b ≡ triggered) s)
      → Holds a IsAny s
      → Holds a IsAny (continue r (λ goes. when goes k) s).1
  unfolding when
  after_begin (ok true) k l s h g = l.takes s (h refl)
  after_begin (ok false) k l s h g = g
  after_begin (err e) k l s h g = g

module _ {F W : Type 0} ⦃fl : Float F⦄ (env : Environment F W) {a : HazardState} where
  pub weaken :
      {C D : HazardState → Type 0} (s : Scenario F W)
      → ((b : HazardState) → C b → D b)
      → Holds a C s
      → Holds a D s
  weaken s k h = record { reached = h.reached; state_is = k s.state h.state_is; fit = h.fit }

  -- A write of the aborted state.
  pub abort_live-Done :
      (o : HazardObservation F) (r : String) (out : Option HazardOutcome) (at : TimestampEnvelope)
      → Takes (Holds a IsActive) (Holds a IsAny) (abort_live env o r out at)
  unfolding abort_live modify
  abort_live-Done o r out at =
      Takes-via (Holds a IsAny) _ _
        (record {
          takes = λ s h. record {
            reached = next h.reached (aborts s.state h.state_is);
            state_is = tt;
            fit = refl;
          };
        })
        (λ _. Takes-Same _ (emit_at-Same env at _ o _)) (λ s h. h)

  pub abort-Done :
      (o : HazardObservation F) (r : String) (out : Option HazardOutcome) (at : TimestampEnvelope)
      → Takes (Holds a IsAny) (Holds a IsAny) (abort env o r out at)
  unfolding abort
  abort-Done o r out at = Takes-read _ (λ s h.
      when_from (Holds a IsAny) _ _ s
        (λ e.
          (abort_live-Done o r out at).takes s
            (record { reached = h.reached; state_is = ground arith; fit = h.fit }))
        (λ _. h))

  pub give_up-Done :
      (o : HazardObservation F) (r : String)
      → Takes (Holds a IsAny) (Holds a IsAny) (give_up env o r)
  unfolding give_up
  give_up-Done o r = abort-Done o r _ o.timestamp

  pub terminate-Done :
      (o : HazardObservation F) → Takes (Holds a IsAny) (Holds a IsAny) (terminate env o)
  unfolding terminate
  terminate-Done o =
      Takes-via (Holds a IsAny) _ _ (Takes-Same _ (search same_rules))
        (λ _.
          Takes-via (Holds a IsAny) _ _ (Takes-Same _ (search (same_rules, emit-Same)))
            (λ _.
              Takes-via (Holds a IsAny) _ _ (Takes-Same _ (search (same_rules, emit-Same)))
                (λ _.
                  Takes-via (Holds a IsAny) _ _ (Takes-Same _ (emit-Same env _ o _))
                    (λ _. abort-Done o _ none o.timestamp) (λ s h. h))
                (λ s h. h))
            (λ s h. h))
        (λ s h. h)

  pub write_trigger-Holds :
      (o : HazardObservation F) (now : F)
      → Takes (Holds a IsArmed) (Holds a (λ b. b ≡ triggered)) (write_trigger env o now)
  unfolding write_trigger modify
  write_trigger-Holds o now = record {
    takes = λ s h. record {
      reached = next (subst (λ b. Reach a b) h.state_is h.reached) fires;
      state_is = refl;
      fit = fire_fit s.state _ _ h.state_is h.fit;
    };
  }

  pub stopped :
      (b : Bool) (o : HazardObservation F) (e : Fault) (s : Scenario F W)
      → Holds a (λ b. b ≡ triggered) s
      → let reason = text_append "LEAD_START_FAILED:" (message e) in
        let out = if b then (give_up env o reason >> pure false) s else (err e, s) in
        (out.0 ≡ ok true → Holds a (λ b. b ≡ triggered) out.1) × Holds a IsAny out.1
  unfolding pure
  stopped true o e s h =
      let reason = text_append "LEAD_START_FAILED:" (message e) in
      let goes_on =
        Takes-via (Holds a IsAny) _ _ (give_up-Done o reason)
          (λ _. Takes-Same {A = Bool} (pure false) (search same_rules)) (λ s h. h) in
      (λ k. absurd (never (give_up env o reason) s k), goes_on.takes s (forget s h))
    where
      never : (m : Action F W Unit) (s : Scenario F W) → ((m >> pure false) s).0 ≡ ok true → ⊥
      never m s k = let (u, e, l) = past-first m (λ _. pure false) s k in cc
  stopped false o e s h = (λ k. cc, forget s h)

  -- What `begin` leaves, by what the actors did.
  pub begun :
      (o : HazardObservation F) (r : Result Fault Unit) (s s' : Scenario F W)
      → Holds a (λ b. b ≡ triggered) s'
      → let out =
          try_except is_runtime
            (λ t. continue r (λ _. pure true) s')
            (λ e. do give_up env o (text_append "LEAD_START_FAILED:" (message e)); pure false)
            s in
        (out.0 ≡ ok true → Holds a (λ b. b ≡ triggered) out.1) × Holds a IsAny out.1
  unfolding try_except pure
  begun o (ok u) s s' h = (λ e. h, forget s' h)
  begun o (err e) s s' h = stopped (is_runtime e) o e s' h

  -- What follows `begin` runs only where the actors have begun.
  pub begin_then :
      (o : HazardObservation F) (k : Action F W Unit)
      → Takes (Holds a (λ b. b ≡ triggered)) (Holds a IsAny) k
      → Takes (Holds a (λ b. b ≡ triggered)) (Holds a IsAny) (begin env o >>= λ goes. when goes k)
  unfolding begin on_world zoom ◌>>=◌ try_except
  begin_then o k l = record {
    takes = λ s h.
        let (r, w) = env.begin_reveal o.timestamp s.world in
        let s' = record s { world = w } in
        let out =
          begun o r s s' (record { reached = h.reached; state_is = h.state_is; fit = h.fit }) in
        after_begin _ k l _ out.0 out.1;
  }

  pub start-Holds :
      (o : HazardObservation F)
      → Takes (Holds a (λ b. b ≡ triggered)) (Holds a IsRunning) (start_moving env o)
  unfolding start_moving modify
  start-Holds o =
      Takes-via (Holds a IsRunning) _ _
        (record {
          takes = λ s h. record {
            reached = next (subst (λ b. Reach a b) h.state_is h.reached) moves;
            state_is = tt;
            fit =
                subst
                  (λ b. fits b (is_some s.metrics.trigger_t) (is_some s.metrics.reveal_t) ≡ true)
                  h.state_is h.fit;
          };
        })
        (λ _. Takes-Same _ (emit-Same env _ o _)) (λ s h. h)
