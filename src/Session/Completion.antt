-- ===== src/Session/Completion.antt =====
-- When the manifest of src/p8/orchestrator.py calls a session complete.
pub mod Claims
use text.Mathlib.Text.{◌==◌ as str_eq}
use carla.Prelude.{
  ◌≡◌, refl, sym, ◌∙◌, ap, subst, Bool, true, false, ◌&&◌, not, Option, none, some, List, [], ◌∷◌,
  String, Bool-cases, inl, inr, arith, if◌then◌else◌,
}
use carla.Float.{Float}
use carla.Exec.{Exec, pure, raise, gets, modify, when, ◌>>=◌, ◌>>◌}
use carla.Exec.Frame.{IsPreorder, Moves, Moves-modify, Moves-bind, Moves-raise, Moves-gets}
use carla.Session.{Stage, Fault}
use carla.Session.Record.{Session, Environment, Audit, Manifest, Approval, Policy}
use carla.Session.Effects.{
  is_caught, message, Action, try_except, on_world, emit, begin_record, activate_record, end_record,
  snapshot, in_progress, manifest, save,
}
use carla.Session.Finalize.{
  is_empty, close, audit_of, export, shut, persist, wind_up, finalize, note, abort_open, abort,
  set_up, give_up_setup, initialize,
}
use carla.Session.Transition.{
  guard, depart, enter_stage, arrive, move, give_up_move, permit, transition,
}
use carla.Session.Outcomes.{
  write_receipt, acknowledge, write_approval, approve_dev_outcome, expect_outcome, policy_of,
  write_policy, record_execution_policy_outcome,
}
use carla.Session.Moves.{
  IsWorldly, Moves-on_world, Moves-audit_of, Moves-export, Moves-snapshot, Moves-try, Moves-finally,
  quiet_rules,
}
use carla.Exec.Takes.{Takes, Takes-via}
use carla.Session.Stages.Runs.{
  Operation, initializes, acknowledges, approves, records_policy, transitions, aborts, perform,
  after_all,
}

-- Does the manifest call the session complete?
abbrev pub claims_completion : String → Bool
claims_completion status = str_eq status "DEV_FLOW_COMPLETE"

-- What a manifest that calls the session complete has found.
pub record IsHonestManifest {F J : Type 0} (m : Manifest F J) : Type 0 where
  pub audited :
      claims_completion m.completion_status ≡ true
      → m.completeness.software_artifacts_complete ≡ true
  pub cleaned : claims_completion m.completion_status ≡ true → m.cleanup.completed ≡ true

abbrev pub OfResult : {F J : Type 0} → Option (Manifest F J) → Type 0
OfResult none = Unit
OfResult (some m) = IsHonestManifest m

pub record IsHonest {F J W : Type 0} (s : Session F J W) : Type 0 where
  pub honest : OfResult s.result

-- The session stays honest, and its report of the cleanup is the same.
pub record KeepsHonest {F J W : Type 0} (s t : Session F J W) : Type 0 where
  pub keeps : IsHonest s → IsHonest t
  pub same_report : t.cleanup_report ≡ s.cleanup_report

instance pub KeepsHonest-IsPreorder :
    {F J W : Type 0} → IsPreorder (KeepsHonest {F = F} {J = J} {W = W})
KeepsHonest-IsPreorder = record {
  refl_at = λ s. record { keeps = λ h. h; same_report = refl };
  trans_at = λ s t u p q. record {
    keeps = λ h. q.keeps (p.keeps h);
    same_report = q.same_report ∙ p.same_report;
  };
}

instance pub KeepsHonest-IsWorldly :
    {F J W : Type 0} → IsWorldly (KeepsHonest {F = F} {J = J} {W = W})
KeepsHonest-IsWorldly = record {
  world_at = λ s w. record { keeps = λ h. record { honest = h.honest }; same_report = refl };
}

module _ {F J W : Type 0} (s t : Session F J W) where
  pub kept_write : t.cleanup_report ≡ s.cleanup_report → t.result ≡ s.result → KeepsHonest s t
  kept_write e f = record {
    keeps = λ h. record { honest = subst (λ r. OfResult r) (sym f) h.honest };
    same_report = e;
  }

pub ruleset honest_rules = (quiet_rules, Moves-modify, kept_write)

module _ {F J W : Type 0} ⦃fl : Float F⦄ (env : Environment F J W) where
  pub begin-KeepsHonest : (b : Bool) → Moves KeepsHonest (begin_record env b)
  unfolding begin_record
  begin-KeepsHonest b = search honest_rules depth 20

  pub activate-KeepsHonest : Moves KeepsHonest (activate_record env)
  unfolding activate_record
  activate-KeepsHonest = search honest_rules depth 20

  pub end-KeepsHonest : (status reason : String) → Moves KeepsHonest (end_record env status reason)
  unfolding end_record
  end-KeepsHonest status reason = search honest_rules depth 24

  -- The manifest that `save` writes while the session runs.
  pub save-KeepsHonest : (audit : Audit) → Moves KeepsHonest (save env "RUNNING" audit)
  unfolding save manifest
  save-KeepsHonest audit = Moves-bind _ _ (Moves-snapshot env) (λ parts.
      Moves-bind _ _
        (Moves-modify _ (λ s. record {
          keeps = λ h. record { honest = record { audited = λ e. cc; cleaned = λ e. cc } };
          same_report = refl;
        }))
        (λ _. search honest_rules depth 16))

  close-KeepsHonest : Moves KeepsHonest (close env)
  unfolding close
  close-KeepsHonest = search honest_rules depth 16

  pub wind_up-KeepsHonest : Moves KeepsHonest (wind_up env)
  unfolding wind_up
  wind_up-KeepsHonest = search (honest_rules, close-KeepsHonest) depth 24

  pub note-KeepsHonest :
      (label : String) (m : Action F J W Unit)
      → Moves KeepsHonest m
      → Moves KeepsHonest (note env label m)
  unfolding note
  note-KeepsHonest label m k = Moves-try is_caught m _ k (λ e. search honest_rules)
