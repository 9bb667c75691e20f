-- ===== src/Session/Closing.antt =====
-- How the cleanup of src/p8/orchestrator.py ends, where what it calls raises only the exceptions that
-- it catches.
pub mod Aborting
pub mod Calls
pub mod Failing
use carla.Prelude.{
  ◌≡◌, refl, sym, ◌∙◌, ap, subst, Bool, true, false, not, Option, none, some, List, [], ◌∷◌, String,
  Bool-cases, inl, inr, arith, if◌then◌else◌,
}
use carla.Prelude.Strings.{has_text}
use carla.Float.{Float}
use carla.Exec.{Result, ok, err, Exec, pure, raise, gets, lift, modify, when, ◌>>=◌, ◌>>◌, zoom}
use carla.Exec.Frame.{IsPreorder, Moves, Moves-modify}
use carla.Session.{Stage, aborted, Fault, p8_error}
use carla.Session.Segment.{SegmentContext, segment, checked, phase_admits, StudyRun}
use carla.Session.Record.{Event, Session, Environment, Audit}
use carla.Session.Effects.{
  is_caught, is_os_error, Action, try_except, on_world, emit, entry_times, new_record, begin_record,
  duration, end_record, save,
}
use carla.Session.Finalize.{
  is_empty, collect, close, shut, persist, wind_up, finalize, note, abort_open, abort,
}
use carla.Session.Moves.{IsWorldly, quiet_rules}
use carla.Exec.Takes.{Takes}

-- `m` raises only what `catches` tells.
pub record RaisesOnly {S A : Type 0} (catches : Fault → Bool) (m : Exec Fault S A) : Type 0 where
  pub calm : (s : S) (e : Fault) → (m s).0 ≡ err e → catches e ≡ true

-- What `m` raises is caught.
abbrev pub IsCalm : {S A : Type 0} → Exec Fault S A → Type 0
IsCalm = RaisesOnly is_caught

-- What the documented behaviour of the collaborators promises: they raise errors of the runtime, of
-- values and of the system only, and closing the log those of the system only.
pub record IsRegular {F J W : Type 0} (env : Environment F J W) : Type 0 where
  pub elapsed_calm : IsCalm env.elapsed
  pub write_calm : (c : SegmentContext) (e : Event F J) → IsCalm (env.write_event c e)
  pub flush_calm : IsCalm env.components.flush
  pub cleanup_calm : IsCalm env.components.cleanup
  pub close_os : RaisesOnly is_os_error env.close_logger

module _ {catches : Fault → Bool} {S A : Type 0} where
  pub IsCalm-pure : (a : A) → RaisesOnly {S = S} catches (pure a)
  unfolding pure
  IsCalm-pure a = record { calm = λ s e h. cc }

  pub IsCalm-gets : (f : S → A) → RaisesOnly catches (gets f)
  unfolding gets
  IsCalm-gets f = record { calm = λ s e h. cc }

  IsCalm-if :
      (b : Bool) (m n : Exec Fault S A)
      → RaisesOnly catches m
      → RaisesOnly catches n
      → RaisesOnly catches (if b then m else n)
  IsCalm-if true m n k l = k
  IsCalm-if false m n k l = l

  IsCalm-lift :
      (r : Result Fault A)
      → ((e : Fault) → r ≡ err e → catches e ≡ true)
      → RaisesOnly {S = S} catches (lift r)
  unfolding lift
  IsCalm-lift r h = record { calm = λ s e k. h e k }

module _ {catches : Fault → Bool} {S : Type 0} where
  pub IsCalm-modify : (f : S → S) → RaisesOnly catches (modify f)
  unfolding modify
  IsCalm-modify f = record { calm = λ s e h. cc }

  pub IsCalm-when :
      (b : Bool) (m : Exec Fault S Unit) → RaisesOnly catches m → RaisesOnly catches (when b m)
  unfolding when
  IsCalm-when true m k = record { calm = k.calm }
  IsCalm-when false m k = record { calm = λ s e h. cc }

module _ {S A B : Type 0} {catches : Fault → Bool} where
  calm_step :
      (r : Result Fault A) (f : A → Exec Fault S B) (s : S) (e : Fault)
      → ((x : Fault) → r ≡ err x → catches x ≡ true)
      → ((a : A) → RaisesOnly catches (f a))
      → ((lift r >>= f) s).0 ≡ err e
      → catches e ≡ true
  unfolding ◌>>=◌
  calm_step (ok a) f s e h k l = (k a).calm s e l
  calm_step (err x) f s e h k l = h e (cc)

  pub IsCalm-bind :
      (m : Exec Fault S A) (f : A → Exec Fault S B)
      → RaisesOnly catches m
      → ((a : A) → RaisesOnly catches (f a))
      → RaisesOnly catches (m >>= f)
  unfolding ◌>>=◌
  IsCalm-bind m f km kf = record {
    calm = λ s e h. let (r, s') = m s in calm_step r f s' e (km.calm s) kf h;
  }

module _ {catches : Fault → Bool} {F J W A : Type 0} where
  pub IsCalm-on_world :
      (m : Exec Fault W A)
      → RaisesOnly catches m
      → RaisesOnly {S = Session F J W} catches (on_world m)
  unfolding on_world zoom
  IsCalm-on_world m k = record { calm = λ s e h. k.calm s.world e h }

module _ {S A : Type 0} where
  IsCalm-raise : (m : String) → IsCalm {S = S} {A = A} (raise (p8_error m))
  unfolding raise
  IsCalm-raise m = record { calm = λ s e h. sym (ap raised h) }
    where
      raised : Result Fault A → Bool
      raised (ok a) = true
      raised (err e) = is_caught e

segment-caught :
    (run : StudyRun) (stage : Stage) (e : Fault) → segment run stage ≡ err e → is_caught e ≡ true
unfolding segment checked
segment-caught run stage e h = ground arith

ruleset calm_rules = (
  IsCalm-pure, IsCalm-gets, IsCalm-if, IsCalm-lift, IsCalm-raise, IsCalm-modify, IsCalm-when,
  IsCalm-bind, IsCalm-on_world, segment-caught,
)

module _ {F J W : Type 0} ⦃fl : Float F⦄ (env : Environment F J W) (regular : IsRegular env) where
  IsCalm-elapsed : IsCalm env.elapsed
  IsCalm-elapsed = regular.elapsed_calm

  IsCalm-write : (c : SegmentContext) (e : Event F J) → IsCalm (env.write_event c e)
  IsCalm-write = regular.write_calm

  pub emit-IsCalm : (e : Event F J) → IsCalm (emit env e)
  unfolding emit
  emit-IsCalm e = search (calm_rules, IsCalm-write) depth 16

  times-IsCalm : (b : Bool) → IsCalm (entry_times env b)
  unfolding entry_times
  times-IsCalm b = search (calm_rules, IsCalm-elapsed) depth 16

  new_record-IsCalm : (a b : Stage) (has started : Bool) → IsCalm (new_record env a b has started)
  unfolding new_record
  new_record-IsCalm a b has started = search (calm_rules, times-IsCalm) depth 16

  pub begin-IsCalm : (b : Bool) → IsCalm (begin_record env b)
  unfolding begin_record
  begin-IsCalm b = search (calm_rules, new_record-IsCalm, emit-IsCalm) depth 16

  duration-IsCalm : (o : Option F) (t : F) (b : Bool) → IsCalm (duration env o t b)
  unfolding duration
  duration-IsCalm none t b = search calm_rules
  duration-IsCalm (some u) t b = search (calm_rules, IsCalm-elapsed) depth 16

  pub end-IsCalm : (status reason : String) → IsCalm (end_record env status reason)
  unfolding end_record
  end-IsCalm status reason =
      search (calm_rules, IsCalm-elapsed, duration-IsCalm, emit-IsCalm) depth 24

  pub flush-IsCalm : (b : Bool) → IsCalm (when b (on_world {F = F} {J = J} env.components.flush))
  flush-IsCalm b = IsCalm-when b _ (IsCalm-on_world _ regular.flush_calm)

  pub cleanup-IsCalm :
      (b : Bool) → IsCalm (when b (on_world {F = F} {J = J} env.components.cleanup))
  cleanup-IsCalm b = IsCalm-when b _ (IsCalm-on_world _ regular.cleanup_calm)

  pub close-RaisesOnly : RaisesOnly is_os_error (close env)
  unfolding close
  close-RaisesOnly = IsCalm-bind _ _ (IsCalm-gets _) (λ s.
      IsCalm-when _ _ (IsCalm-bind _ _ (IsCalm-on_world _ regular.close_os) (λ _. IsCalm-modify _)))
