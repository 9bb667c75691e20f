-- ===== src/Session/Stages/Ends.antt =====
-- The end of a session, `_finalize` of src/p8/orchestrator.py, on the abstract machine.
use carla.Prelude.{◌≡◌, sym, subst, Bool, true, false, List, String}
use carla.Float.{Float}
use carla.Exec.Frame.{IsPreorder, Moves, Moves-modify}
use carla.Session.{Stage}
use carla.Session.Record.{Session, Environment, Audit, CleanupStep}
use carla.Session.Effects.{Action, save}
use carla.Session.Finalize.{shut, persist, wind_up, finalize}
use carla.Session.Moves.{IsWorldly, quiet_rules}
use carla.Session.Stages.{IsTerminal, give_up, seal, reject, Reach, here, next, Reach-trans}
use carla.Session.Stages.Same.{Same, wind_up-Same, save-Same}

-- From a terminal stage the session goes to a terminal stage, along the machine.
pub record Ends {F J W : Type 0} (s t : Session F J W) : Type 0 where
  pub terminal : IsTerminal s.state → IsTerminal t.state
  pub reached : IsTerminal s.state → Reach s.state s.closed t.state t.closed

instance Ends-IsPreorder : {F J W : Type 0} → IsPreorder (Ends {F = F} {J = J} {W = W})
Ends-IsPreorder = record {
  refl_at = λ s. record { terminal = λ h. h; reached = λ h. here };
  trans_at = λ s t u p q. record {
    terminal = λ h. q.terminal (p.terminal h);
    reached = λ h. Reach-trans (p.reached h) (q.reached (p.terminal h));
  };
}

instance Ends-IsWorldly : {F J W : Type 0} → IsWorldly (Ends {F = F} {J = J} {W = W})
Ends-IsWorldly = record { world_at = λ s w. record { terminal = λ h. h; reached = λ h. here } }

Reach-aborted : (a : Stage) (c : Bool) → IsTerminal a → Reach a c Stage.aborted c
Reach-aborted a true h = next here (reject a h)
Reach-aborted a false h = next here (give_up a)

Reach-sealed : (a : Stage) (c : Bool) → IsTerminal a → Reach a c a true
Reach-sealed a true h = here
Reach-sealed a false h = next here (seal a h)

pub Same-Reach :
    {F J W : Type 0} (s t : Session F J W) → Same s t → Reach s.state s.closed t.state t.closed
Same-Reach s t k =
    subst (λ c. Reach s.state s.closed t.state c) (sym k.closed_eq)
      (subst (λ a. Reach s.state s.closed a s.closed) (sym k.state_eq) here)

Same-Ends : {F J W : Type 0} (s t : Session F J W) → Same s t → Ends s t
Same-Ends s t k = record {
  terminal = λ h. subst (λ a. IsTerminal a) (sym k.state_eq) h;
  reached = λ h. Same-Reach s t k;
}

module _ {F J W A : Type 0} where
  Moves-Ends : (m : Action F J W A) → Moves Same m → Moves Ends m
  Moves-Ends m k = record { at = λ s. Same-Ends s (m s).1 (k.at s) }

module _ {F J W : Type 0} (s t : Session F J W) where
  aborted_write : t.state ≡ Stage.aborted → t.closed ≡ s.closed → Ends s t
  aborted_write e f = record {
    terminal = λ h. subst (λ a. IsTerminal a) (sym e) tt;
    reached = λ h.
        subst (λ a. Reach s.state s.closed a t.closed) (sym e)
          (subst (λ c. Reach s.state s.closed Stage.aborted c) (sym f)
            (Reach-aborted s.state s.closed h));
  }

  sealed_write : t.state ≡ s.state → t.closed ≡ true → Ends s t
  sealed_write e f = record {
    terminal = λ h. subst (λ a. IsTerminal a) (sym e) h;
    reached = λ h.
        subst (λ a. Reach s.state s.closed a t.closed) (sym e)
          (subst (λ c. Reach s.state s.closed s.state c) (sym f) (Reach-sealed s.state s.closed h));
  }

ruleset end_rules = (quiet_rules, Moves-modify, aborted_write, sealed_write)

module _ {F J W : Type 0} ⦃fl : Float F⦄ (env : Environment F J W) where
  shut-Ends : (errors : List String) (order : List CleanupStep) → Moves Ends (shut env errors order)
  unfolding shut
  shut-Ends errors order = search end_rules depth 16

  save-Ends : (status : String) (audit : Audit) → Moves Ends (save env status audit)
  save-Ends status audit = Moves-Ends _ (save-Same env status audit)

  wind_up-Ends : Moves Ends (wind_up env)
  wind_up-Ends = Moves-Ends _ (wind_up-Same env)

  persist-Ends : (status : String) → Moves Ends (persist env status)
  unfolding persist
  persist-Ends status = search (end_rules, save-Ends) depth 20

  pub finalize-Ends : (status : String) → Moves Ends (finalize env status)
  unfolding finalize
  finalize-Ends status = search (quiet_rules, wind_up-Ends, shut-Ends, persist-Ends) depth 20
