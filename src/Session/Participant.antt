-- ===== src/Session/Participant.antt =====
-- src/p8/orchestrator.py in the mode for participants, which src/p8/readiness.py refuses.
use carla.Prelude.{
  ◌≡◌, refl, sym, ◌∙◌, ap, subst, Bool, true, false, ◌&&◌, ◌||◌, not, List, [], ◌∷◌, ◌⊎◌, inr,
  String, arith,
}
use carla.Float.{Float}
use carla.Exec.{Result, ok, err, continue, raise, lift, when, ◌>>=◌, ◌>>◌}
use carla.Exec.Frame.{
  IsPreorder, Moves, Moves-modify, Moves-bind, Moves-raise, Moves-gets, Moves-past, past-gets,
  past-when, past-first,
}
use carla.Session.{
  Stage, session_created, aborted, participant, Fault, is_participant, is_rehearsal,
  require_participant_ready, same_stage, session_complete, successor, p8_error,
}
use carla.Session.Record.{Session, Environment, Audit}
use carla.Session.Effects.{is_caught, Action, begin_record, end_record, save}
use carla.Session.Finalize.{
  close, shut, persist, wind_up, finalize, note, abort_open, abort, set_up, initialize,
}
use carla.Session.Transition.{guard, is_successor, permit, transition}
use carla.Session.Outcomes.{
  write_receipt, acknowledge, approve_dev_outcome, record_execution_policy_outcome,
}
use carla.Session.Moves.{IsWorldly, Moves-try, quiet_rules}
use carla.Session.Stages.Runs.{
  Operation, initializes, acknowledges, approves, records_policy, transitions, aborts, perform,
  after_all,
}

-- The session has no components, and is where it began or aborted.
pub record IsBlocked {F J W : Type 0} (s : Session F J W) : Type 0 where
  pub no_components : s.has_components ≡ false
  pub at_start : (s.state ≡ session_created) ⊎ (s.state ≡ aborted)

record KeepsBlocked {F J W : Type 0} (s t : Session F J W) : Type 0 where
  keeps : IsBlocked s → IsBlocked t

instance KeepsBlocked-IsPreorder :
    {F J W : Type 0} → IsPreorder (KeepsBlocked {F = F} {J = J} {W = W})
KeepsBlocked-IsPreorder = record {
  refl_at = λ s. record { keeps = λ h. h };
  trans_at = λ s t u p q. record { keeps = λ h. q.keeps (p.keeps h) };
}

instance KeepsBlocked-IsWorldly :
    {F J W : Type 0} → IsWorldly (KeepsBlocked {F = F} {J = J} {W = W})
KeepsBlocked-IsWorldly = record {
  world_at = λ s w. record {
    keeps = λ h. record { no_components = h.no_components; at_start = h.at_start };
  };
}

module _ {F J W : Type 0} (s t : Session F J W) (c : t.has_components ≡ s.has_components) where
  kept_write : t.state ≡ s.state → KeepsBlocked s t
  kept_write e = record {
    keeps = λ h. record {
      no_components = c ∙ h.no_components;
      at_start = subst (λ a. (a ≡ session_created) ⊎ (a ≡ aborted)) (sym e) h.at_start;
    };
  }

  aborted_write : t.state ≡ aborted → KeepsBlocked s t
  aborted_write e = record {
    keeps = λ h. record { no_components = c ∙ h.no_components; at_start = inr e };
  }

ruleset blocked_rules = (quiet_rules, Moves-modify, kept_write, aborted_write)

module _ {F J W : Type 0} ⦃fl : Float F⦄ (env : Environment F J W) where
  begin-KeepsBlocked : (b : Bool) → Moves KeepsBlocked (begin_record env b)
  unfolding begin_record
  begin-KeepsBlocked b = search blocked_rules depth 20

  end-KeepsBlocked : (status reason : String) → Moves KeepsBlocked (end_record env status reason)
  unfolding end_record
  end-KeepsBlocked status reason = search blocked_rules depth 24

  save-KeepsBlocked : (status : String) (audit : Audit) → Moves KeepsBlocked (save env status audit)
  unfolding save
  save-KeepsBlocked status audit = search blocked_rules depth 20

  ruleset record_rules = (blocked_rules, begin-KeepsBlocked, end-KeepsBlocked, save-KeepsBlocked)

  finalize-KeepsBlocked : (status : String) → Moves KeepsBlocked (finalize env status)
  unfolding finalize wind_up shut persist close
  finalize-KeepsBlocked status = search record_rules depth 30

  note-KeepsBlocked :
      (label : String) (m : Action F J W Unit)
      → Moves KeepsBlocked m
      → Moves KeepsBlocked (note env label m)
  unfolding note
  note-KeepsBlocked label m k = Moves-try is_caught m _ k (λ e. search blocked_rules)

  abort-KeepsBlocked :
      (reason : String) (blocked : Bool) → Moves KeepsBlocked (abort env reason blocked)
  unfolding abort abort_open
  abort-KeepsBlocked reason blocked =
      search (record_rules, note-KeepsBlocked, finalize-KeepsBlocked) depth 30

  receipt-KeepsBlocked :
      (name status : String) (value : J) → Moves KeepsBlocked (write_receipt env name status value)
  unfolding write_receipt
  receipt-KeepsBlocked name status value = search blocked_rules

  acknowledge-KeepsBlocked :
      (name status : String) (value : J) → Moves KeepsBlocked (acknowledge env name status value)
  unfolding acknowledge
  acknowledge-KeepsBlocked name status value = search (record_rules, receipt-KeepsBlocked) depth 24

  permit-KeepsBlocked : (t : Stage) → Moves KeepsBlocked (permit env t)
  unfolding permit
  permit-KeepsBlocked t = search blocked_rules depth 20

  holds :
      (c : Bool) (s : Session F J W)
      → (when (not c) (raise (p8_error "COMPONENTS_UNAVAILABLE")) s).0 ≡ ok tt
      → c ≡ true
  unfolding when raise
  holds true s h = refl
  holds false s h = cc

  -- Without components no transition is permitted.
  permit_needs_components :
      (t : Stage) (s : Session F J W) → (permit env t s).0 ≡ ok tt → s.has_components ≡ true
  unfolding permit
  permit_needs_components t s h =
      let g = past-gets (λ s. s) _ s h in
      let p =
        past-when (s.closed || same_stage s.state aborted || same_stage s.state session_complete) _
          _ s g in
      let q = past-when (not (is_successor (successor s.state) t)) _ _ s p.1 in
      let (u, e, r) =
        past-first (guard env)
          (λ _. when (not s.has_components) (raise (p8_error "COMPONENTS_UNAVAILABLE"))) s q.1 in
      holds s.has_components _ r

  unpermitted :
      (r : Result Fault Unit) (k : Unit → Action F J W Unit) (s s' : Session F J W)
      → (r ≡ ok tt → s.has_components ≡ true)
      → KeepsBlocked s s'
      → KeepsBlocked s (continue r k s').1
  unpermitted (ok u) k s s' h l = record { keeps = λ b. absurd (none_there b) }
    where
      none_there : IsBlocked s → ⊥
      none_there b = cc (h refl, b.no_components)
  unpermitted (err e) k s s' h l = l

  transition-KeepsBlocked : (t : Stage) → Moves KeepsBlocked (transition env t)
  unfolding transition ◌>>=◌
  transition-KeepsBlocked t = record {
    at = λ s.
        unpermitted (permit env t s).0 _ s (permit env t s).1 (permit_needs_components t s)
          ((permit-KeepsBlocked t).at s);
  }

  refused_setup :
      (b : Bool) (k : Action F J W Unit)
      → b ≡ true
      → Moves KeepsBlocked (when b (lift (require_participant_ready env.readiness)) >> k)
  unfolding when lift require_participant_ready ◌>>=◌
  refused_setup true k e = record { at = λ s. record { keeps = λ h. h } }
  refused_setup false k e = cc

  module _ (mode : env.mode ≡ participant) where
    set_up-KeepsBlocked : Moves KeepsBlocked (set_up env)
    unfolding set_up
    set_up-KeepsBlocked = refused_setup (is_participant env.mode) _ (ap is_participant mode)

    initialize-KeepsBlocked : Moves KeepsBlocked (initialize env)
    unfolding initialize
    initialize-KeepsBlocked =
        Moves-try is_caught _ _ set_up-KeepsBlocked
          (λ e. Moves-bind _ _ (abort-KeepsBlocked _ _) (λ _. Moves-raise e))

    no_rehearsal : is_rehearsal env.mode ≡ false
    no_rehearsal = ap is_rehearsal mode

    approve-KeepsBlocked :
        (outcome reason : String) → Moves KeepsBlocked (approve_dev_outcome env outcome reason)
    unfolding approve_dev_outcome
    approve-KeepsBlocked outcome reason =
        Moves-past (not (is_rehearsal env.mode)) _ _ (λ h. absurd (ground (arith, no_rehearsal)))

    policy-KeepsBlocked :
        (outcome reason : String)
        → Moves KeepsBlocked (record_execution_policy_outcome env outcome reason)
    unfolding record_execution_policy_outcome
    policy-KeepsBlocked outcome reason = Moves-bind _ _ (Moves-gets _) (λ s.
        Moves-past
          (not (is_rehearsal env.mode && s.has_components && env.components.is_bounded_operator)) _
          _ (λ h. absurd (ground (arith, no_rehearsal))))

    perform-KeepsBlocked : (o : Operation J) → Moves KeepsBlocked (perform env o)
    unfolding perform
    perform-KeepsBlocked initializes = initialize-KeepsBlocked
    perform-KeepsBlocked (acknowledges n s v) = acknowledge-KeepsBlocked n s v
    perform-KeepsBlocked (approves o r) = approve-KeepsBlocked o r
    perform-KeepsBlocked (records_policy o r) = policy-KeepsBlocked o r
    perform-KeepsBlocked (transitions t) = transition-KeepsBlocked t
    perform-KeepsBlocked (aborts r b) = abort-KeepsBlocked r b

    -- In the mode for participants a session that has no components, and is where it began, never
    -- gets any, nor into another stage than the aborted one, through any operations.
    pub participant-IsBlocked :
        (os : List (Operation J)) (s : Session F J W) → IsBlocked s → IsBlocked (after_all env os s)
    unfolding after_all
    participant-IsBlocked [] s h = h
    participant-IsBlocked (o ∷ os) s h =
        participant-IsBlocked os _ (((perform-KeepsBlocked o).at s).keeps h)
