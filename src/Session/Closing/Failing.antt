-- ===== src/Session/Closing/Failing.antt =====
-- The methods of src/p8/orchestrator.py that abort the session when they fail.
use carla.Prelude.{
  ◌≡◌, refl, sym, subst, Bool-cases, inl, inr, Bool, true, false, not, String, arith,
}
use carla.Float.{Float}
use carla.Exec.{Result, ok, err, continue, raise, gets, when, ◌>>=◌, ◌>>◌}
use carla.Session.{Stage, Fault}
use carla.Session.Record.{Session, Environment}
use carla.Session.Effects.{is_caught, message, Action, try_except}
use carla.Session.Finalize.{abort, abort_open, set_up, give_up_setup, initialize}
use carla.Session.Transition.{move, give_up_move, permit, transition}
use carla.Session.Closing.{IsRegular}
use carla.Session.Closing.Aborting.{abort-IsSettled}

module _ {F J W : Type 0} ⦃fl : Float F⦄ (env : Environment F J W) (regular : IsRegular env) where
  abort_or_closed :
      (reason : String) (blocked c : Bool) (s : Session F J W)
      → s.closed ≡ c
      → (abort env reason blocked s).1.closed ≡ true
  unfolding abort gets when ◌>>=◌
  abort_or_closed reason blocked false s e =
      (abort-IsSettled env regular reason blocked s e).is_closed
  abort_or_closed reason blocked true s e =
      subst (λ c. (when (not c) (abort_open env reason blocked) s).1.closed ≡ true) (sym e) e

  abort-closed :
      (reason : String) (blocked : Bool) (s : Session F J W)
      → (abort env reason blocked s).1.closed ≡ true
  abort-closed reason blocked s = abort_or_closed reason blocked s.closed s refl

  after_abort :
      (r : Result Fault Unit) (e : Fault) (s : Session F J W)
      → s.closed ≡ true
      → (continue r (λ _. raise {A = Unit} e) s).1.closed ≡ true
  unfolding raise
  after_abort (ok u) e s h = h
  after_abort (err x) e s h = h

  abort_first :
      (reason : String) (blocked : Bool) (e : Fault) (s : Session F J W)
      → ((abort env reason blocked >> raise {A = Unit} e) s).1.closed ≡ true
  unfolding ◌>>=◌
  abort_first reason blocked e s =
      after_abort (abort env reason blocked s).0 e (abort env reason blocked s).1
        (abort-closed reason blocked s)

  unless_closed :
      (reason : String) (c : Bool) (e : Fault) (s : Session F J W)
      → s.closed ≡ c
      → ((when (not c) (abort env reason false) >> raise {A = Unit} e) s).1.closed ≡ true
  unfolding when raise ◌>>=◌
  unless_closed reason true e s h = h
  unless_closed reason false e s h = abort_first reason false e s

  handled_closed :
      (r : Result Fault Unit) (handler : Fault → Action F J W Unit) (s s' : Session F J W)
      (e : Fault)
      → ((x : Fault) → (handler x s').1.closed ≡ true)
      → (try_except is_caught (λ t. (r, s')) handler s).0 ≡ err e
      → is_caught e ≡ true
      → (try_except is_caught (λ t. (r, s')) handler s).1.closed ≡ true
  unfolding try_except
  handled_closed (ok a) handler s s' e k h c = cc
  handled_closed (err x) handler s s' e k h c = elim (Bool-cases (is_caught x)) [
    | inl caught ↦ rw caught (k x)
    | inr loose ↦ absurd (wrong loose)
  ]
    where
      wrong : is_caught x ≡ false → ⊥
      wrong loose = ground arith

  give_up_closed : (x : Fault) (s : Session F J W) → (give_up_move env x s).1.closed ≡ true
  unfolding gets ◌>>=◌
  give_up_closed x s = unless_closed (message x) s.closed x s refl

  permitted :
      (t : Stage) (e : Fault) (r : Result Fault Unit) (s s' : Session F J W)
      → r ≡ ok tt
      → (continue r (λ _. try_except is_caught (move env t) (give_up_move env)) s').0 ≡ err e
      → is_caught e ≡ true
      → (continue r (λ _. try_except is_caught (move env t) (give_up_move env)) s').1.closed ≡ true
  unfolding try_except
  permitted t e (err x) s s' p h c = cc
  permitted t e (ok u) s s' p h c =
      let (r, s'') = move env t s' in
      handled_closed r (give_up_move env) s' s'' e (λ x. give_up_closed x s'') h c

  -- If the collaborators of the cleanup raise errors of the runtime, of values and of the system
  -- only, and closing the log those of the system only, then `initialize` leaves the session closed whenever it raises such an error.
  pub initialize_failure :
      (s : Session F J W) (e : Fault)
      → (initialize env s).0 ≡ err e
      → is_caught e ≡ true
      → (initialize env s).1.closed ≡ true
  unfolding initialize try_except
  initialize_failure s e h c =
      let (r, s') = set_up env s in
      handled_closed r (give_up_setup env) s s' e (λ x. abort_first _ _ x s') h c

  -- If the collaborators of the cleanup raise errors of the runtime, of values and of the system
  -- only, and closing the log those of the system only, then `transition` to a target that it has
  -- permitted leaves the session closed whenever it raises such an error.
  pub transition_failure :
      (t : Stage) (s : Session F J W) (e : Fault)
      → (permit env t s).0 ≡ ok tt
      → (transition env t s).0 ≡ err e
      → is_caught e ≡ true
      → (transition env t s).1.closed ≡ true
  unfolding transition ◌>>=◌
  transition_failure t s e p h c = permitted t e (permit env t s).0 s (permit env t s).1 p h c
