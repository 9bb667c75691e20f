-- ===== src/Session/Moves.antt =====
-- Rules for what the actions of src/p8/orchestrator.py do to a session: a relation between the
-- sessions before and after, whether the action returns or raises.
use carla.Prelude.{Bool, true, false, Option, none, some, List, String, if◌then◌else◌}
use carla.Float.{Float}
use carla.Exec.{Result, ok, err, Exec, zoom}
use carla.Exec.Frame.{IsPreorder, Moves, Moves-bind, Moves-pure, moves_rules}
use carla.Session.{Stage, Fault}
use carla.Session.Record.{Event, Session, Environment}
use carla.Session.Effects.{try_except, try_finally, on_world, emit, snapshot}
use carla.Session.Finalize.{collect, audit_of, export}
use carla.Session.Transition.{raise_blocker, check_blocker, check_elapsed, guard_contract, guard}

-- `R` does not look at the world.
pub record IsWorldly {F J W : Type 0} (R : Session F J W → Session F J W → Type 0) : Type 0 where
  pub world_at : (s : Session F J W) (w : W) → R s (record s { world = w })

module _ {S A : Type 0} where
  finished :
      (R : S → S → Type 0) (r : Result Fault A) (q : Result Fault Unit) (s t u : S)
      → R s u
      → R s (try_finally (λ x. (r, t)) (λ x. (q, u)) s).1
  unfolding try_finally
  finished R r (ok a) s t u k = k
  finished R r (err e) s t u k = k

module _ {S A : Type 0} {R : S → S → Type 0} ⦃p : IsPreorder R⦄ where
  pub handled :
      (catches : Fault → Bool) (r : Result Fault A) (h : Fault → Exec Fault S A) (s s' : S)
      → R s s'
      → ((e : Fault) → Moves R (h e))
      → R s (try_except catches (λ t. (r, s')) h s).1
  unfolding try_except
  handled catches (ok a) h s s' k l = k
  handled catches (err e) h s s' k l = chosen (catches e)
    where
      chosen : (b : Bool) → R s (if b then h e s' else (err e, s')).1
      chosen true = p.trans_at s s' (h e s').1 k ((l e).at s')
      chosen false = k

  pub Moves-try :
      (catches : Fault → Bool) (m : Exec Fault S A) (h : Fault → Exec Fault S A)
      → Moves R m
      → ((e : Fault) → Moves R (h e))
      → Moves R (try_except catches m h)
  unfolding try_except
  Moves-try catches m h km kh = record {
    at = λ s. let (r, s') = m s in handled catches r h s s' (km.at s) kh;
  }

  pub Moves-finally :
      (m : Exec Fault S A) (n : Exec Fault S Unit)
      → Moves R m
      → Moves R n
      → Moves R (try_finally m n)
  unfolding try_finally
  Moves-finally m n km kn = record {
    at = λ s.
        let (r, s') = m s in
        let (q, s'') = n s' in finished R r q s s' s'' (p.trans_at s s' s'' (km.at s) (kn.at s'));
  }

module _ {F J W A : Type 0} {R : Session F J W → Session F J W → Type 0} ⦃p : IsPreorder R⦄
    ⦃w : IsWorldly R⦄ where
  pub Moves-on_world : (m : Exec Fault W A) → Moves R (on_world m)
  unfolding on_world zoom
  Moves-on_world m = record { at = λ s. w.world_at s (m s.world).1 }

pub ruleset session_rules = (moves_rules, Moves-try, Moves-finally, Moves-on_world)

-- What changes the world at most, or raises.
module _ {F J W : Type 0} ⦃fl : Float F⦄ {R : Session F J W → Session F J W → Type 0}
    ⦃p : IsPreorder R⦄ ⦃w : IsWorldly R⦄ (env : Environment F J W) where
  pub Moves-emit : (e : Event F J) → Moves R (emit env e)
  unfolding emit
  Moves-emit e = search session_rules depth 16

  pub Moves-snapshot : Moves R (snapshot env)
  unfolding snapshot
  Moves-snapshot = search session_rules depth 16

  pub Moves-audit_of : (b : Bool) (parts : Option J) → Moves R (audit_of env b parts)
  unfolding audit_of
  Moves-audit_of b parts = search session_rules depth 16

  pub Moves-export : Moves R (export env)
  unfolding export
  Moves-export = search session_rules depth 16

  blocker-Moves : (o : Option String) → Moves R (raise_blocker env o)
  unfolding raise_blocker
  blocker-Moves none = search session_rules
  blocker-Moves (some b) = search session_rules

  pub Moves-check_blocker : (stage : Stage) → Moves R (check_blocker env stage)
  unfolding check_blocker
  Moves-check_blocker stage = search (session_rules, blocker-Moves) depth 16

  elapsed-Moves :
      (stage : Stage) (has : Bool) (t : F) (o : Option F)
      → Moves R (check_elapsed env stage has t o)
  unfolding check_elapsed
  elapsed-Moves stage has t none = search session_rules
  elapsed-Moves stage has t (some o) = search session_rules depth 16

  pub Moves-guard : Moves R (guard env)
  unfolding guard guard_contract
  Moves-guard = search (session_rules, Moves-check_blocker, elapsed-Moves) depth 20

  pub Moves-collect :
      (catches : Fault → Bool) (label : String) (m : Exec Fault (Session F J W) Unit)
      (errors : List String)
      → Moves R m
      → Moves R (collect env catches label m errors)
  unfolding collect
  Moves-collect catches label m errors k =
      Moves-try catches _ _ (Moves-bind _ _ k (λ u. Moves-pure errors)) (λ e. Moves-pure _)

pub ruleset quiet_rules = (
  session_rules, Moves-emit, Moves-snapshot, Moves-audit_of, Moves-export, Moves-check_blocker,
  Moves-guard, Moves-collect,
)
