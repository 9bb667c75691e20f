-- ===== src/Hazard/Scenario/Termination.antt =====
-- The requests of a termination by src/p7/hazard.py: what `update` makes of them, returned or raised.
use carla.Prelude.{
  ◌≡◌, refl, ◌∙◌, Bool, true, false, ◌&&◌, ◌||◌, not, Option, none, some, is_some, List, [], ◌∷◌,
  String, ltb, Bool-cases, inl, inr, arith, if◌then◌else◌,
}
use carla.Float.{Float}
use carla.Exec.{Exec, gets, modify, when, ◌>>=◌, ◌>>◌}
use carla.Exec.Frame.{IsPreorder, Moves, Moves-bind, Moves-modify, moves_rules}
use carla.Session.{Fault}
use carla.Session.Moves.{Moves-try}
use carla.Timestamp.{TimestampEnvelope, elapsed_seconds}
use carla.Hazard.{
  HazardState, HazardOutcome, EventKind, HazardObservation, HazardPolicy, TriggerAction, wait, fire,
  block, OutcomeDecision,
}
use carla.Hazard.Scenario.{
  Environment, Scenario, Action, is_over, is_idle, on_world, tick, emit_at, emit, abort_live, abort,
  give_up, terminate, policy_trigger, decide_by, decide, write_trigger, begin, start_moving,
  measure, note_lateral, note_reveal, note_lead, after_trigger, respond, respond_to, observe_driver,
  complete, conclude_with, policy_conclude, conclude_by, conclude, follow, act, proceed, watch,
  update,
}

-- The request stands as it stood.
record Stays {F W : Type 0} (s t : Scenario F W) : Type 0 where
  stays : t.termination_requested ≡ s.termination_requested

instance Stays-IsPreorder : {F W : Type 0} → IsPreorder (Stays {F = F} {W = W})
Stays-IsPreorder = record {
  refl_at = λ s. record { stays = refl };
  trans_at = λ s t u p q. record { stays = q.stays ∙ p.stays };
}

stays_when :
    {F W : Type 0} (s t : Scenario F W)
    → t.termination_requested ≡ s.termination_requested
    → Stays s t
stays_when s t e = record { stays = e }

module _ {F W A : Type 0} where
  on_world-Stays : (m : Exec Fault W A) → Moves Stays (on_world {F = F} m)
  unfolding on_world
  on_world-Stays m = record { at = λ s. record { stays = refl } }

ruleset stays_rules = (moves_rules, Moves-modify, Moves-try, on_world-Stays, stays_when)

module _ {F W : Type 0} ⦃fl : Float F⦄ (env : Environment F W) where
  tick-Stays : (o : HazardObservation F) → Moves Stays (tick env o)
  unfolding tick
  tick-Stays o = record { at = λ s. record { stays = refl } }

  emit_at-Stays :
      (at : TimestampEnvelope) (k : EventKind) (o : HazardObservation F) (r : Option String)
      → Moves Stays (emit_at env at k o r)
  unfolding emit_at
  emit_at-Stays at k o r = search stays_rules depth 16

  emit-Stays :
      (k : EventKind) (o : HazardObservation F) (r : Option String) → Moves Stays (emit env k o r)
  unfolding emit
  emit-Stays k o r = emit_at-Stays o.timestamp k o r

  abort-Stays :
      (o : HazardObservation F) (r : String) (out : Option HazardOutcome) (at : TimestampEnvelope)
      → Moves Stays (abort env o r out at)
  unfolding abort abort_live
  abort-Stays o r out at = search (stays_rules, emit_at-Stays) depth 20

  give_up-Stays : (o : HazardObservation F) (r : String) → Moves Stays (give_up env o r)
  unfolding give_up
  give_up-Stays o r = abort-Stays o r _ o.timestamp

  after-Stays : (o : HazardObservation F) (now : F) → Moves Stays (after_trigger env o now)
  unfolding after_trigger measure note_lateral note_reveal note_lead
  after-Stays o now = search (stays_rules, emit-Stays) depth 30

  driver-Stays : (now : F) (o : HazardObservation F) → Moves Stays (observe_driver env now o)
  unfolding observe_driver
  driver-Stays now o = search stays_rules depth 20

  respond-Stays :
      (o : HazardObservation F) (kinds : List EventKind) → Moves Stays (respond_to env o kinds)
  unfolding respond_to respond
  respond-Stays o [] = search stays_rules
  respond-Stays o (k ∷ ks) =
      Moves-bind _ _ (search stays_rules)
        (λ _. Moves-bind _ _ (emit-Stays k o none) (λ _. respond-Stays o ks))

  complete-Stays :
      (out : Option HazardOutcome) (r : String) (o : HazardObservation F)
      → Moves Stays (complete env out r o)
  unfolding complete
  complete-Stays out r o = search (stays_rules, emit-Stays) depth 16

  with-Stays :
      (o : HazardObservation F) (d : Option OutcomeDecision) → Moves Stays (conclude_with env o d)
  unfolding conclude_with
  with-Stays o none = search stays_rules
  with-Stays o (some d) = search (stays_rules, abort-Stays, complete-Stays)

  outcome-Stays :
      (p : HazardPolicy F W) (o : HazardObservation F) (now : F) (t r : Option F)
      → Moves Stays (policy_conclude env p o now t r)
  unfolding policy_conclude
  outcome-Stays p o now none r = search stays_rules
  outcome-Stays p o now (some t) r = search (stays_rules, with-Stays)

  by-Stays :
      (p : Option (HazardPolicy F W)) (o : HazardObservation F) (now : F) (s : Scenario F W)
      → Moves Stays (conclude_by env p o now s)
  unfolding conclude_by
  by-Stays none o now s = search (stays_rules, complete-Stays)
  by-Stays (some p) o now s = outcome-Stays p o now _ _

  follow-Stays : (o : HazardObservation F) (now : F) → Moves Stays (follow env o now)
  unfolding follow conclude
  follow-Stays o now =
      search (stays_rules, after-Stays, driver-Stays, respond-Stays, emit-Stays, by-Stays) depth 20

  trigger-Stays :
      (p : HazardPolicy F W) (o : HazardObservation F) (now : F) (t : Option F)
      → Moves Stays (policy_trigger env p o now t)
  unfolding policy_trigger
  trigger-Stays p o now none = search stays_rules
  trigger-Stays p o now (some t) = search stays_rules

  decide-Stays :
      (p : Option (HazardPolicy F W)) (o : HazardObservation F) (now : F) (t : Option F)
      → Moves Stays (decide_by env p o now t)
  unfolding decide_by
  decide-Stays none o now t = search stays_rules
  decide-Stays (some p) o now t = trigger-Stays p o now t

  begin-Stays : (o : HazardObservation F) → Moves Stays (begin env o)
  unfolding begin
  begin-Stays o = search (stays_rules, give_up-Stays) depth 16

  act-Stays :
      (t : TriggerAction) (reason : String) (o : HazardObservation F) (now : F)
      → Moves Stays (act env t reason o now)
  unfolding act write_trigger start_moving
  act-Stays wait reason o now = follow-Stays o now
  act-Stays block reason o now = give_up-Stays o reason
  act-Stays fire reason o now = search (stays_rules, emit-Stays, begin-Stays, follow-Stays) depth 24

  proceed-Stays :
      (r : Option String) (b : HazardState) (o : HazardObservation F) (now : F)
      → Moves Stays (proceed env r b o now)
  unfolding proceed decide
  proceed-Stays (some reason) b o now = give_up-Stays o reason
  proceed-Stays none b o now = search (stays_rules, decide-Stays, act-Stays, follow-Stays) depth 16

-- An observation that ends the scenario.
abbrev pub is_terminal : {F : Type 0} → HazardObservation F → Bool
is_terminal o = is_some o.collision_actor_id || o.road_departure

-- An observation that a scenario looks at: the scenario is under way, and its clock has not moved past.
abbrev pub is_seen : {F W : Type 0} → HazardObservation F → Scenario F W → Bool
is_seen o s =
    not (is_idle s.state)
    && not (is_over s.state)
    && not (ltb o.timestamp.host.monotonic_ns s.clock.latest_ns)

module _ {F W : Type 0} ⦃fl : Float F⦄ (env : Environment F W) where
  announce-Stays :
      (o : HazardObservation F) (reason : String)
      → Moves Stays (do
        when (is_some o.collision_actor_id) (emit env EventKind.collision o none)
        when o.road_departure (emit env EventKind.road_departure o none)
        emit env EventKind.termination o (some reason)
        abort env o reason none o.timestamp)
  announce-Stays o reason = search (stays_rules, emit-Stays, abort-Stays) depth 16

  terminate_requests :
      (o : HazardObservation F) (s : Scenario F W)
      → (terminate env o s).1.termination_requested ≡ true
  unfolding terminate modify ◌>>=◌
  terminate_requests o s = ((announce-Stays o _).at _).stays

  terminal_requests :
      (b : Bool) (o : HazardObservation F) (k : Action F W Unit) (s : Scenario F W)
      → Moves Stays k
      → ((if b then terminate env o else k) s).1.termination_requested
        ≡ (s.termination_requested || b)
  terminal_requests true o k s h = terminate_requests o s ∙ ground arith
  terminal_requests false o k s h = (h.at s).stays ∙ ground arith

  watch_requests :
      (o : HazardObservation F) (now : F) (s : Scenario F W)
      → (watch env o now s).1.termination_requested ≡ (s.termination_requested || is_terminal o)
  unfolding watch
  watch_requests o now s =
      terminal_requests (is_terminal o) o _ s (search (stays_rules, proceed-Stays))

  seen_requests :
      (o : HazardObservation F) (s : Scenario F W)
      → ((tick env o >>= watch env o) s).1.termination_requested ≡ (
          s.termination_requested
          || (not (ltb o.timestamp.host.monotonic_ns s.clock.latest_ns) && is_terminal o))
  unfolding tick elapsed_seconds ◌>>=◌
  seen_requests o s = elim (Bool-cases (ltb o.timestamp.host.monotonic_ns s.clock.latest_ns)) [
    | inl late ↦ rw late (ground arith)
    | inr fine ↦ rw fine (watch_requests o _ _)
  ]

  -- Whether a policy, the actors and the event sink return or raise: after an update a termination
  -- is requested if and only if one was before, or the scenario was under way, its clock took the
  -- observation's time, and the observation has a collision or a departure from the road.
  pub update_requests :
      (o : HazardObservation F) (s : Scenario F W)
      → (update env o s).1.termination_requested
        ≡ (s.termination_requested || (is_seen o s && is_terminal o))
  unfolding update gets when ◌>>=◌
  update_requests o s = elim (Bool-cases (not (is_idle s.state) && not (is_over s.state))) [
    | inl live ↦ rw live (seen_requests o s ∙ ground arith)
    | inr dead ↦ rw dead (ground arith)
  ]
