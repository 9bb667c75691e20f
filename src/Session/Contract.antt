-- ===== src/Session/Contract.antt =====
-- What `transition` of src/p8/orchestrator.py asks of a stage before it leaves it, where no outcome
-- stands in the stage's record.
pub mod Advance
use text.Mathlib.Text.{◌==◌ as str_eq}
use carla.Prelude.{
  ◌≡◌, ◌≢◌, refl, ◌∙◌, ap, Bool, true, false, ◌&&◌, not, Option, none, some, is_some, List, [], ◌∷◌,
  String, any, All, Bool-cases, inl, inr, arith, if◌then◌else◌,
}
use carla.Float.{Float}
use carla.Exec.{Result, ok, err, Exec, gets, pure, raise, modify, when, ◌>>=◌, ◌>>◌, zoom}
use carla.Exec.Frame.{
  IsPreorder, Moves, Moves-modify, Moves-bind, Moves-known, Moves-past, Moves-raise, Moves-gets,
  past-when, past-first,
}
use carla.Session.{Stage, Mode, Fault, is_rehearsal, receipts_of, minimum}
use carla.Session.Segment.{segment}
use carla.Session.Record.{StageRecord, Approval, Policy, Session, Environment, Audit}
use carla.Session.Effects.{
  is_caught, message, Action, on_world, emit, is_bounded_rest, entry_times, new_record,
  begin_record, activate_record, end_record, save,
}
use carla.Session.Transition.{
  lookup, is_status, receipt_satisfied, lacks_receipt, check_blocker, check_elapsed, raise_blocker,
  guard_contract, guard, depart, enter_stage, arrive, move, give_up_move, permit, transition,
}
use carla.Session.Finalize.{
  close, shut, persist, wind_up, finalize, note, abort_open, abort, set_up, initialize,
}
use carla.Session.Outcomes.{
  write_receipt, acknowledge, approve_dev_outcome, record_execution_policy_outcome,
}
use carla.Session.Moves.{IsWorldly, Moves-on_world, Moves-emit, Moves-try, quiet_rules}
use carla.Session.Stages.Runs.{
  Operation, initializes, acknowledges, approves, records_policy, transitions, aborts, perform,
  after_all, permit_ok,
}

-- The record of the stage holds no outcome.
pub record IsPlain {F J W : Type 0} (s : Session F J W) : Type 0 where
  pub no_approval : s.current.dev_approval ≡ none
  pub no_policy : s.current.execution_policy_outcome ≡ none

record KeepsPlain {F J W : Type 0} (s t : Session F J W) : Type 0 where
  keeps : IsPlain s → IsPlain t

instance KeepsPlain-IsPreorder : {F J W : Type 0} → IsPreorder (KeepsPlain {F = F} {J = J} {W = W})
KeepsPlain-IsPreorder = record {
  refl_at = λ s. record { keeps = λ h. h };
  trans_at = λ s t u p q. record { keeps = λ h. q.keeps (p.keeps h) };
}

instance KeepsPlain-IsWorldly : {F J W : Type 0} → IsWorldly (KeepsPlain {F = F} {J = J} {W = W})
KeepsPlain-IsWorldly = record {
  world_at = λ s w. record {
    keeps = λ h. record { no_approval = h.no_approval; no_policy = h.no_policy };
  };
}

record IsBlank {F J : Type 0} (r : StageRecord F J) : Type 0 where
  blank_approval : r.dev_approval ≡ none
  blank_policy : r.execution_policy_outcome ≡ none

module _ {F J W : Type 0} where
  -- A write that leaves the two outcomes of the record alone.
  plain_write :
      (s t : Session F J W)
      → t.current.dev_approval ≡ s.current.dev_approval
      → t.current.execution_policy_outcome ≡ s.current.execution_policy_outcome
      → KeepsPlain s t
  plain_write s t p q = record {
    keeps = λ h. record { no_approval = p ∙ h.no_approval; no_policy = q ∙ h.no_policy };
  }

  blank_write : (s t : Session F J W) → IsBlank t.current → KeepsPlain s t
  blank_write s t b = record {
    keeps = λ h. record { no_approval = b.blank_approval; no_policy = b.blank_policy };
  }

ruleset plain_rules = (quiet_rules, Moves-modify, plain_write)

module _ {F J W : Type 0} ⦃fl : Float F⦄ (env : Environment F J W) where
  new_record-IsBlank :
      (a b : Stage) (has started : Bool) (w : W) (r : StageRecord F J)
      → (new_record env a b has started w).0 ≡ ok r
      → IsBlank r
  unfolding new_record pure
  new_record-IsBlank a b has started w r h =
      let (c, e, k) = past-first _ _ w h in
      let (t, f, l) = past-first (entry_times env started) _ _ k in
      record { blank_approval = cc; blank_policy = cc }

  begin-KeepsPlain : (b : Bool) → Moves KeepsPlain (begin_record env b)
  unfolding begin_record new_record on_world
  begin-KeepsPlain b = Moves-bind _ _ (Moves-gets _) (λ s.
      Moves-known IsBlank _ _ (Moves-on_world _)
        (λ t r e. new_record-IsBlank s.state s.services_stage s.has_components b t.world r e)
        (λ r k. Moves-bind _ _ (Moves-modify _ (λ t. blank_write t _ k)) (λ _. Moves-emit env _)))

  activate-KeepsPlain : Moves KeepsPlain (activate_record env)
  unfolding activate_record
  activate-KeepsPlain = search plain_rules depth 20

  end-KeepsPlain : (status reason : String) → Moves KeepsPlain (end_record env status reason)
  unfolding end_record
  end-KeepsPlain status reason = search plain_rules depth 24

  save-KeepsPlain : (status : String) (audit : Audit) → Moves KeepsPlain (save env status audit)
  unfolding save
  save-KeepsPlain status audit = search plain_rules depth 20

  ruleset record_rules =
      (plain_rules, begin-KeepsPlain, activate-KeepsPlain, end-KeepsPlain, save-KeepsPlain)

  finalize-KeepsPlain : (status : String) → Moves KeepsPlain (finalize env status)
  unfolding finalize wind_up shut persist close
  finalize-KeepsPlain status = search record_rules depth 30

  note-KeepsPlain :
      (label : String) (m : Action F J W Unit)
      → Moves KeepsPlain m
      → Moves KeepsPlain (note env label m)
  unfolding note
  note-KeepsPlain label m k = Moves-try is_caught m _ k (λ e. search plain_rules)

  abort-KeepsPlain :
      (reason : String) (blocked : Bool) → Moves KeepsPlain (abort env reason blocked)
  unfolding abort abort_open
  abort-KeepsPlain reason blocked =
      search (record_rules, note-KeepsPlain, finalize-KeepsPlain) depth 30

  set_up-KeepsPlain : Moves KeepsPlain (set_up env)
  unfolding set_up
  set_up-KeepsPlain = search record_rules depth 24

  initialize-KeepsPlain : Moves KeepsPlain (initialize env)
  unfolding initialize
  initialize-KeepsPlain =
      Moves-try is_caught _ _ set_up-KeepsPlain
        (λ e. Moves-bind _ _ (abort-KeepsPlain _ _) (λ _. Moves-raise e))

  move-KeepsPlain : (t : Stage) → Moves KeepsPlain (move env t)
  unfolding move depart enter_stage arrive
  move-KeepsPlain t = search (record_rules, finalize-KeepsPlain) depth 30

  permit-KeepsPlain : (t : Stage) → Moves KeepsPlain (permit env t)
  unfolding permit
  permit-KeepsPlain t = search plain_rules depth 20

  failed-KeepsPlain : (e : Fault) → Moves KeepsPlain (give_up_move env e)
  failed-KeepsPlain e = search (plain_rules, abort-KeepsPlain) depth 12

  transition-KeepsPlain : (t : Stage) → Moves KeepsPlain (transition env t)
  unfolding transition
  transition-KeepsPlain t =
      Moves-bind _ _ (permit-KeepsPlain t)
        (λ _. Moves-try is_caught _ _ (move-KeepsPlain t) failed-KeepsPlain)

  receipt-KeepsPlain :
      (name status : String) (value : J) → Moves KeepsPlain (write_receipt env name status value)
  unfolding write_receipt
  receipt-KeepsPlain name status value = search plain_rules

  acknowledge-KeepsPlain :
      (name status : String) (value : J) → Moves KeepsPlain (acknowledge env name status value)
  unfolding acknowledge
  acknowledge-KeepsPlain name status value = search (record_rules, receipt-KeepsPlain) depth 24

module _ {F J W : Type 0} ⦃fl : Float F⦄ (env : Environment F J W)
    (other : is_rehearsal env.mode ≡ false) where
  approve-KeepsPlain :
      (outcome reason : String) → Moves KeepsPlain (approve_dev_outcome env outcome reason)
  unfolding approve_dev_outcome
  approve-KeepsPlain outcome reason =
      Moves-past (not (is_rehearsal env.mode)) _ _ (λ h. absurd (ground arith))

  policy-KeepsPlain :
      (outcome reason : String)
      → Moves KeepsPlain (record_execution_policy_outcome env outcome reason)
  unfolding record_execution_policy_outcome
  policy-KeepsPlain outcome reason = Moves-bind _ _ (Moves-gets _) (λ s.
      Moves-past
        (not (is_rehearsal env.mode && s.has_components && env.components.is_bounded_operator)) _ _
        (λ h. absurd (ground arith)))

  perform-KeepsPlain : (o : Operation J) → Moves KeepsPlain (perform env o)
  unfolding perform
  perform-KeepsPlain initializes = initialize-KeepsPlain env
  perform-KeepsPlain (acknowledges n s v) = acknowledge-KeepsPlain env n s v
  perform-KeepsPlain (approves o r) = approve-KeepsPlain o r
  perform-KeepsPlain (records_policy o r) = policy-KeepsPlain o r
  perform-KeepsPlain (transitions t) = transition-KeepsPlain env t
  perform-KeepsPlain (aborts r b) = abort-KeepsPlain env r b

  run-IsPlain :
      (os : List (Operation J)) (s : Session F J W) → IsPlain s → IsPlain (after_all env os s)
  unfolding after_all
  run-IsPlain [] s h = h
  run-IsPlain (o ∷ os) s h = run-IsPlain os _ (((perform-KeepsPlain o).at s).keeps h)
