-- ===== src/Session/Closing/Calls/Quiet.antt =====
-- What `abort` of src/p8/orchestrator.py does between the listed calls.
use carla.Prelude.{◌≡◌, refl, ◌∙◌, Bool, Option, none, some, List, String}
use carla.Float.{Float}
use carla.Exec.{Exec, zoom}
use carla.Exec.Frame.{IsPreorder, Moves, Moves-modify, moves_rules}
use carla.Exec.Takes.{Takes}
use carla.Session.{Stage, Fault}
use carla.Session.Record.{Event, Session, Environment, Audit, CleanupStep}
use carla.Session.Effects.{
  is_caught, Action, on_world, emit, entry_times, new_record, begin_record, duration, end_record,
  snapshot, save,
}
use carla.Session.Finalize.{audit_of, shut, export, persist, note}
use carla.Session.Moves.{Moves-try, Moves-finally}
use carla.Session.Closing.{RaisesOnly, IsRegular}
use carla.Session.Closing.Calls.{
  Call, flush_called, cleanup_called, log_close_called, unlisted, listed, watched,
}

module _ {catches : Fault → Bool} {W A : Type 0} (m : Exec Fault W A)
    (k : RaisesOnly catches m) where
  pub unlisted-RaisesOnly : RaisesOnly catches (unlisted m)
  unfolding unlisted
  unlisted-RaisesOnly = record { calm = λ (w, calls) e h. k.calm w e h }

  pub listed-RaisesOnly : (c : Call) → RaisesOnly catches (listed c m)
  unfolding listed
  listed-RaisesOnly c = record { calm = λ (w, calls) e h. k.calm w e h }

pub watched-IsRegular :
    {F J W : Type 0} (env : Environment F J W) → IsRegular env → IsRegular (watched env)
watched-IsRegular env regular = record {
  elapsed_calm = unlisted-RaisesOnly _ regular.elapsed_calm;
  write_calm = λ c e. unlisted-RaisesOnly _ (regular.write_calm c e);
  flush_calm = listed-RaisesOnly _ regular.flush_calm flush_called;
  cleanup_calm = listed-RaisesOnly _ regular.cleanup_calm cleanup_called;
  close_os = listed-RaisesOnly _ regular.close_os log_close_called;
}

-- The list of calls is the same.
pub record SameCalls {W : Type 0} (w v : W × List Call) : Type 0 where
  pub calls_eq : v.1 ≡ w.1

instance pub SameCalls-IsPreorder : {W : Type 0} → IsPreorder (SameCalls {W = W})
SameCalls-IsPreorder = record {
  refl_at = λ w. record { calls_eq = refl };
  trans_at = λ w v u p q. record { calls_eq = q.calls_eq ∙ p.calls_eq };
}

-- No listed call, and the two facts that decide on them are the same.
pub record Uncalled {F J W : Type 0} (s t : Session F J (W × List Call)) : Type 0 where
  pub has_eq : t.has_components ≡ s.has_components
  pub open_eq : t.services_closed ≡ s.services_closed
  pub list_eq : t.world.1 ≡ s.world.1

instance pub Uncalled-IsPreorder : {F J W : Type 0} → IsPreorder (Uncalled {F = F} {J = J} {W = W})
Uncalled-IsPreorder = record {
  refl_at = λ s. record { has_eq = refl; open_eq = refl; list_eq = refl };
  trans_at = λ s t u p q. record {
    has_eq = q.has_eq ∙ p.has_eq;
    open_eq = q.open_eq ∙ p.open_eq;
    list_eq = q.list_eq ∙ p.list_eq;
  };
}

pub uncalled_write :
    {F J W : Type 0} (s t : Session F J (W × List Call))
    → t.has_components ≡ s.has_components
    → t.services_closed ≡ s.services_closed
    → t.world.1 ≡ s.world.1
    → Uncalled s t
uncalled_write s t h o l = record { has_eq = h; open_eq = o; list_eq = l }

module _ {W A : Type 0} where
  pub unlisted-SameCalls : (m : Exec Fault W A) → Moves SameCalls (unlisted m)
  unfolding unlisted
  unlisted-SameCalls m = record { at = λ (w, calls). record { calls_eq = refl } }

module _ {F J W A : Type 0} where
  pub on_world-Uncalled :
      (m : Exec Fault (W × List Call) A)
      → Moves SameCalls m
      → Moves (Uncalled {F = F} {J = J}) (on_world m)
  unfolding on_world zoom
  on_world-Uncalled m k = record {
    at = λ s. record { has_eq = refl; open_eq = refl; list_eq = (k.at s.world).calls_eq };
  }

pub ruleset call_rules = (
  moves_rules, Moves-modify, Moves-try, Moves-finally, unlisted-SameCalls, on_world-Uncalled,
  uncalled_write,
)

module _ {F J W : Type 0} ⦃fl : Float F⦄ (env : Environment F J W) where
  pub emit-Uncalled : (e : Event F J) → Moves Uncalled (emit (watched env) e)
  unfolding emit
  emit-Uncalled e = search call_rules depth 16

  pub times-SameCalls : (b : Bool) → Moves SameCalls (entry_times (watched env) b)
  unfolding entry_times
  times-SameCalls b = search call_rules depth 16

  pub new_record-SameCalls :
      (a b : Stage) (has started : Bool)
      → Moves SameCalls (new_record (watched env) a b has started)
  unfolding new_record
  new_record-SameCalls a b has started = search (call_rules, times-SameCalls) depth 16

  pub begin-Uncalled : (b : Bool) → Moves Uncalled (begin_record (watched env) b)
  unfolding begin_record
  begin-Uncalled b = search (call_rules, new_record-SameCalls, emit-Uncalled) depth 20

  pub duration-SameCalls :
      (o : Option F) (t : F) (b : Bool) → Moves SameCalls (duration (watched env) o t b)
  unfolding duration
  duration-SameCalls none t b = search call_rules
  duration-SameCalls (some u) t b = search call_rules depth 16

  pub end-Uncalled :
      (status reason : String) → Moves Uncalled (end_record (watched env) status reason)
  unfolding end_record
  end-Uncalled status reason = search (call_rules, duration-SameCalls, emit-Uncalled) depth 24

  pub note-Uncalled :
      (label : String) (m : Action F J (W × List Call) Unit)
      → Moves Uncalled m
      → Moves Uncalled (note (watched env) label m)
  unfolding note
  note-Uncalled label m k = Moves-try is_caught m _ k (λ e. search call_rules)

  pub snapshot-Uncalled : Moves Uncalled (snapshot (watched env))
  unfolding snapshot
  snapshot-Uncalled = search call_rules depth 16

  pub save-Uncalled : (status : String) (a : Audit) → Moves Uncalled (save (watched env) status a)
  unfolding save
  save-Uncalled status a = search (call_rules, snapshot-Uncalled) depth 20

  pub audit-Uncalled :
      (b : Bool) (parts : Option J) → Moves Uncalled (audit_of (watched env) b parts)
  unfolding audit_of
  audit-Uncalled b parts = search call_rules depth 16

  pub export-Uncalled : Moves Uncalled (export (watched env))
  unfolding export
  export-Uncalled = search call_rules depth 16

  pub persist-Uncalled : (status : String) → Moves Uncalled (persist (watched env) status)
  unfolding persist
  persist-Uncalled status =
      search (call_rules, snapshot-Uncalled, audit-Uncalled, export-Uncalled, save-Uncalled) depth
        24

  pub shut-Uncalled :
      (errors : List String) (order : List CleanupStep)
      → Moves Uncalled (shut (watched env) errors order)
  unfolding shut
  shut-Uncalled errors order = search call_rules depth 16

-- The two facts, and the calls so far.
pub record Called {F J W : Type 0} (has log_closed : Bool) (calls : List Call)
    (s : Session F J (W × List Call)) : Type 0 where
  pub has_is : s.has_components ≡ has
  pub log_is : s.services_closed ≡ log_closed
  pub calls_are : s.world.1 ≡ calls

pub record HasCalls {F J W : Type 0} (calls : List Call) (s : Session F J (W × List Call))
    : Type 0 where
  pub calls_are : s.world.1 ≡ calls

module _ {F J W A : Type 0} (m : Action F J (W × List Call) A) (k : Moves Uncalled m) where
  pub Uncalled-Called :
      {has log_closed : Bool} {calls : List Call}
      → Takes (Called has log_closed calls) (Called has log_closed calls) m
  Uncalled-Called = record {
    takes = λ s h.
        let e = k.at s in
        record {
          has_is = e.has_eq ∙ h.has_is;
          log_is = e.open_eq ∙ h.log_is;
          calls_are = e.list_eq ∙ h.calls_are;
        };
  }

  pub Uncalled-HasCalls : {calls : List Call} → Takes (HasCalls calls) (HasCalls calls) m
  Uncalled-HasCalls = record {
    takes = λ s h. record { calls_are = (k.at s).list_eq ∙ h.calls_are };
  }
