-- ===== src/Exit/Coordinator/Rules.antt =====
-- What the actions of the coordinator do to its core: rules for a relation between the core before
-- and after, whether the action returns or raises. `From c` is about an action that starts at the
-- core `c`, which it has just read.
use carla.Prelude.{◌≡◌, refl, sym, ◌∙◌, subst, Bool, true, false, Option, none, some, if◌then◌else◌}
use carla.Float.{Float}
use carla.Exec.{Result, ok, err, Exec, pure, raise, lift, when, ◌>>=◌}
use carla.Exec.Frame.{IsPreorder}
use carla.Context.{Fault}
use carla.Timestamp.{TimestampEnvelope}
use carla.Exit.Coordinator.{EventType, Details, Core, Environment, Coordinator}
use carla.Exit.Coordinator.Emit.{
  core, set, on_world, emit, core-emit, core-closed, core-eligible, is_time_closed,
  is_time_eligible,
}
use carla.Exit.Coordinator.Methods.{attempt}

pub record Along {F W A : Type 0} (R : Core F → Core F → Type 0)
    (m : Exec Fault (Coordinator F W) A) : Type 0 where
  pub at : (s : Coordinator F W) → R s.core (m s).1.core

pub record From {F W A : Type 0} (R : Core F → Core F → Type 0) (c : Core F)
    (m : Exec Fault (Coordinator F W) A) : Type 0 where
  pub at : (s : Coordinator F W) → s.core ≡ c → R c (m s).1.core

module _ {F W A : Type 0} {R : Core F → Core F → Type 0} ⦃p : IsPreorder R⦄ where
  pub Along-pure : (a : A) → Along {W = W} R (pure a)
  unfolding pure
  Along-pure a = record { at = λ s. p.refl_at s.core }

  pub Along-raise : (e : Fault) → Along {W = W} {A = A} R (raise e)
  unfolding raise
  Along-raise e = record { at = λ s. p.refl_at s.core }

  pub Along-lift : (r : Result Fault A) → Along {W = W} R (lift r)
  unfolding lift
  Along-lift r = record { at = λ s. p.refl_at s.core }

  pub Along-on_world : (m : Exec Fault W A) → Along R (on_world {F = F} m)
  unfolding on_world
  Along-on_world m = record { at = λ s. p.refl_at s.core }

  pub Along-if :
      (b : Bool) (m n : Exec Fault (Coordinator F W) A)
      → (b ≡ true → Along R m)
      → (b ≡ false → Along R n)
      → Along R (if b then m else n)
  Along-if true m n k l = k refl
  Along-if false m n k l = l refl

  pub From-if :
      (b : Bool) (c : Core F) (m n : Exec Fault (Coordinator F W) A)
      → (b ≡ true → From R c m)
      → (b ≡ false → From R c n)
      → From R c (if b then m else n)
  From-if true c m n k l = k refl
  From-if false c m n k l = l refl

  pub From-Along : (c : Core F) (m : Exec Fault (Coordinator F W) A) → Along R m → From R c m
  From-Along c m k = record { at = λ s e. subst (λ d. R d (m s).1.core) e (k.at s) }

  pub Along-core :
      (k : Core F → Exec Fault (Coordinator F W) A)
      → ((c : Core F) → From R c (k c))
      → Along R (core >>= k)
  unfolding core ◌>>=◌
  Along-core k h = record { at = λ s. (h s.core).at s refl }

  pub From-core :
      (c : Core F) (k : Core F → Exec Fault (Coordinator F W) A)
      → From R c (k c)
      → From R c (core >>= k)
  unfolding core ◌>>=◌
  From-core c k h = record { at = λ s e. subst (λ d. R c (k d s).1.core) (sym e) (h.at s e) }

module _ {F W : Type 0} {R : Core F → Core F → Type 0} ⦃p : IsPreorder R⦄ where
  pub Along-attempt : (m : Option (Exec Fault W Bool)) → Along R (attempt {F = F} m)
  unfolding attempt
  Along-attempt none = record { at = λ s. p.refl_at s.core }
  Along-attempt (some m) = record { at = λ s. p.refl_at s.core }

  pub Along-when :
      (b : Bool) (m : Exec Fault (Coordinator F W) Unit)
      → (b ≡ true → Along R m)
      → Along R (when b m)
  unfolding when
  Along-when true m k = record { at = (k refl).at }
  Along-when false m k = record { at = λ s. p.refl_at s.core }

  pub From-when :
      (b : Bool) (c : Core F) (m : Exec Fault (Coordinator F W) Unit)
      → (b ≡ true → From R c m)
      → From R c (when b m)
  unfolding when
  From-when true c m k = record { at = (k refl).at }
  From-when false c m k = record { at = λ s e. subst (λ d. R c d) (sym e) (p.refl_at c) }

  pub Along-set : (f : Core F → Core F) → ((c : Core F) → R c (f c)) → Along {W = W} R (set f)
  unfolding set
  Along-set f h = record { at = λ s. h s.core }

  pub From-set : (c : Core F) (f : Core F → Core F) → R c (f c) → From {W = W} R c (set f)
  unfolding set
  From-set c f h = record { at = λ s e. subst (λ d. R c (f d)) (sym e) h }

module _ {F W A B : Type 0} {R : Core F → Core F → Type 0} ⦃p : IsPreorder R⦄ where
  bind_step :
      (r : Result Fault A) (f : A → Exec Fault (Coordinator F W) B) (c : Core F)
      (s : Coordinator F W)
      → R c s.core
      → ((a : A) → Along R (f a))
      → R c ((lift r >>= f) s).1.core
  unfolding ◌>>=◌
  bind_step (ok a) f c s h k = p.trans_at c s.core (f a s).1.core h ((k a).at s)
  bind_step (err e) f c s h k = h

  pub Along-bind :
      (m : Exec Fault (Coordinator F W) A) (f : A → Exec Fault (Coordinator F W) B)
      → Along R m
      → ((a : A) → Along R (f a))
      → Along R (m >>= f)
  unfolding ◌>>=◌
  Along-bind m f km kf = record {
    at = λ s. let (r, s') = m s in bind_step r f s.core s' (km.at s) kf;
  }

  pub From-bind :
      (c : Core F) (m : Exec Fault (Coordinator F W) A) (f : A → Exec Fault (Coordinator F W) B)
      → From R c m
      → ((a : A) → Along R (f a))
      → From R c (m >>= f)
  unfolding ◌>>=◌
  From-bind c m f km kf = record {
    at = λ s e. let (r, s') = m s in bind_step r f c s' (km.at s e) kf;
  }

module _ {F W : Type 0} ⦃fl : Float F⦄ {R : Core F → Core F → Type 0} ⦃p : IsPreorder R⦄
    (env : Environment F W) where
  pub Along-emit :
      (k : EventType) (t : TimestampEnvelope) (d : Details F) → Along R (emit env k t d)
  Along-emit k t d = record {
    at = λ s. subst (λ c. R s.core c) (sym (core-emit env k t d s)) (p.refl_at s.core);
  }

  pub Along-closed : (t : TimestampEnvelope) → Along R (is_time_closed env t)
  Along-closed t = record {
    at = λ s. subst (λ c. R s.core c) (sym (core-closed env t s)) (p.refl_at s.core);
  }

  pub Along-eligible : (t : TimestampEnvelope) → Along R (is_time_eligible env t)
  Along-eligible t = record {
    at = λ s. subst (λ c. R s.core c) (sym (core-eligible env t s)) (p.refl_at s.core);
  }

-- `m` leaves the core as it is, so that what was read before it still holds.
pub record Still {F W A : Type 0} (m : Exec Fault (Coordinator F W) A) : Type 0 where
  pub same : (s : Coordinator F W) → (m s).1.core ≡ s.core

module _ {F W A : Type 0} where
  pub Still-pure : (a : A) → Still {F = F} {W = W} (pure a)
  unfolding pure
  Still-pure a = record { same = λ s. refl }

  pub Still-if :
      (b : Bool) (m n : Exec Fault (Coordinator F W) A)
      → Still m
      → Still n
      → Still (if b then m else n)
  Still-if true m n k l = k
  Still-if false m n k l = l

module _ {F W : Type 0} ⦃fl : Float F⦄ (env : Environment F W) where
  pub Still-eligible : (t : TimestampEnvelope) → Still (is_time_eligible env t)
  Still-eligible t = record { same = core-eligible env t }

  pub Still-closed : (t : TimestampEnvelope) → Still (is_time_closed env t)
  Still-closed t = record { same = core-closed env t }

module _ {F W A B : Type 0} {R : Core F → Core F → Type 0} ⦃p : IsPreorder R⦄ where
  still_step :
      (r : Result Fault A) (f : A → Exec Fault (Coordinator F W) B) (c : Core F)
      (s : Coordinator F W)
      → s.core ≡ c
      → ((a : A) → From R c (f a))
      → R c ((lift r >>= f) s).1.core
  unfolding ◌>>=◌
  still_step (ok a) f c s e k = (k a).at s e
  still_step (err x) f c s e k = subst (λ d. R c d) (sym e) (p.refl_at c)

  pub From-Still :
      (c : Core F) (m : Exec Fault (Coordinator F W) A) (f : A → Exec Fault (Coordinator F W) B)
      → Still m
      → ((a : A) → From R c (f a))
      → From R c (m >>= f)
  unfolding ◌>>=◌
  From-Still c m f k l = record {
    at = λ s e. let (r, s') = m s in still_step r f c s' (k.same s ∙ e) l;
  }

pub ruleset along_rules = (
  Along-pure, Along-raise, Along-lift, Along-on_world, Along-if, From-if, Along-core, From-core,
  Along-attempt, Along-when, From-when, From-set, Along-set, Along-bind, From-bind, Along-emit,
  From-Still, Still-pure, Still-if, Still-eligible, Still-closed, Along-closed, Along-eligible,
  From-Along,
)
