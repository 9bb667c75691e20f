-- ===== src/Session/Closing/Aborting.antt =====
-- `abort` and the failing methods of src/p8/orchestrator.py, where what they call raises only the
-- exceptions that the cleanup catches.
use carla.Prelude.{
  ◌≡◌, refl, sym, ◌∙◌, ap, subst, Bool, true, false, not, List, [], ◌∷◌, ◌++◌, String,
}
use carla.Float.{Float}
use carla.Exec.{Result, ok, err, continue, Exec, pure, gets, modify, when, ◌>>=◌}
use carla.Exec.Frame.{IsPreorder, Moves, Moves-modify, past-gets, past-first}
use carla.Session.{aborted, Fault}
use carla.Session.Record.{
  Session, Environment, Audit, CleanupStep, logger_flush, owned_resource_cleanup,
  session_status_persist,
}
use carla.Session.Effects.{is_caught, Action, try_except, save}
use carla.Session.Finalize.{
  is_empty, collect, shut, persist, wind_up, finalize, note, abort_open, abort,
}
use carla.Session.Moves.{IsWorldly, quiet_rules}
use carla.Session.Stages.Same.{Same, wind_up-Same, begin-Same, end-Same, note-Same}
use carla.Exec.Takes.{Takes}
use carla.Session.Closing.{
  RaisesOnly, IsCalm, IsCalm-bind, IsCalm-pure, IsRegular, close-RaisesOnly, begin-IsCalm,
  end-IsCalm, emit-IsCalm, flush-IsCalm, cleanup-IsCalm,
}

-- Flush, cleanup and persistence, in this order.
abbrev pub all_steps : List CleanupStep
all_steps = logger_flush ∷ owned_resource_cleanup ∷ session_status_persist ∷ []

-- The session is closed and aborted, the cleanup went through all its steps, and its report calls
-- it completed just when it lists no error.
pub record IsSettled {F J W : Type 0} (s : Session F J W) : Type 0 where
  pub is_closed : s.closed ≡ true
  pub is_aborted : s.state ≡ aborted
  pub went_through : s.cleanup_report.order ≡ all_steps
  pub honest : s.cleanup_report.completed ≡ is_empty s.cleanup_report.errors

-- `m` returns.
pub record Succeeds {S A : Type 0} (m : Exec Fault S A) : Type 0 where
  pub value : (s : S) → (a : A) × ((m s).0 ≡ ok a)

module _ {S A : Type 0} where
  pub Succeeds-gets : (f : S → A) → Succeeds (gets f)
  unfolding gets
  Succeeds-gets f = record { value = λ s. (f s, refl) }

  pub Succeeds-pure : (a : A) → Succeeds {S = S} (pure a)
  unfolding pure
  Succeeds-pure a = record { value = λ s. (a, refl) }

  caught_value :
      (catches : Fault → Bool) (r : Result Fault A) (h : Fault → Exec Fault S A) (s s' : S)
      → ((e : Fault) → r ≡ err e → catches e ≡ true)
      → ((e : Fault) → Succeeds (h e))
      → (a : A) × ((try_except catches (λ t. (r, s')) h s).0 ≡ ok a)
  unfolding try_except
  caught_value catches (ok a) h s s' k l = (a, refl)
  caught_value catches (err e) h s s' k l = let (a, f) = (l e).value s' in (a, rw (k e refl) f)

  Succeeds-try :
      (catches : Fault → Bool) (m : Exec Fault S A) (h : Fault → Exec Fault S A)
      → ((s : S) (e : Fault) → (m s).0 ≡ err e → catches e ≡ true)
      → ((e : Fault) → Succeeds (h e))
      → Succeeds (try_except catches m h)
  unfolding try_except
  Succeeds-try catches m h k l = record {
    value = λ s. let (r, s') = m s in caught_value catches r h s s' (λ e f. k s e f) l;
  }

module _ {S : Type 0} where
  pub Succeeds-modify : (f : S → S) → Succeeds (modify f)
  unfolding modify
  Succeeds-modify f = record { value = λ s. (tt, refl) }

  Succeeds-when : (b : Bool) (m : Exec Fault S Unit) → Succeeds m → Succeeds (when b m)
  unfolding when
  Succeeds-when true m k = record { value = k.value }
  Succeeds-when false m k = record { value = λ s. (tt, refl) }

module _ {S A B : Type 0} where
  value_step :
      (r : Result Fault A) (f : A → Exec Fault S B) (s : S) (a : A)
      → r ≡ ok a
      → ((a : A) → Succeeds (f a))
      → (b : B) × ((continue r f s).0 ≡ ok b)
  value_step (ok a) f s a' e k = (k a).value s
  value_step (err x) f s a' e k = cc

  Succeeds-bind :
      (m : Exec Fault S A) (f : A → Exec Fault S B)
      → Succeeds m
      → ((a : A) → Succeeds (f a))
      → Succeeds (m >>= f)
  unfolding ◌>>=◌
  Succeeds-bind m f km kf = record {
    value = λ s. let (r, s') = m s in let (a, e) = km.value s in value_step r f s' a e kf;
  }

ruleset value_rules = (Succeeds-gets, Succeeds-pure, Succeeds-modify, Succeeds-when, Succeeds-bind)

module _ {F J W : Type 0} ⦃fl : Float F⦄ (env : Environment F J W) where
  pub collect-Succeeds :
      (catches : Fault → Bool) (label : String) (m : Action F J W Unit) (errors : List String)
      → RaisesOnly catches m
      → Succeeds (collect env catches label m errors)
  unfolding collect
  collect-Succeeds catches label m errors k =
      Succeeds-try catches _ _
        (λ s e f. (IsCalm-bind m (λ _. pure errors) k (λ _. IsCalm-pure errors)).calm s e f)
        (λ e. Succeeds-pure _)

  pub note-Succeeds :
      (label : String) (m : Action F J W Unit) → IsCalm m → Succeeds (note env label m)
  unfolding note
  note-Succeeds label m k =
      Succeeds-try is_caught _ _ (λ s e f. k.calm s e f) (λ e. Succeeds-modify _)

module _ {F J W : Type 0} ⦃fl : Float F⦄ (env : Environment F J W) (regular : IsRegular env) where
  pub wind_up-Succeeds : Succeeds (wind_up env)
  unfolding wind_up
  wind_up-Succeeds = Succeeds-bind _ _ (Succeeds-gets _) (λ s.
      Succeeds-bind _ _ (collect-Succeeds env _ _ _ _ (flush-IsCalm env regular _)) (λ e1.
        Succeeds-bind _ _ (collect-Succeeds env _ _ _ _ (emit-IsCalm env regular _)) (λ e2.
          Succeeds-bind _ _ (collect-Succeeds env _ _ _ _ (cleanup-IsCalm env regular _)) (λ e3.
            Succeeds-bind _ _ (collect-Succeeds env _ _ _ _ (emit-IsCalm env regular _)) (λ e4.
              Succeeds-bind _ _ (collect-Succeeds env _ _ _ _ (close-RaisesOnly env regular))
                (λ e5. Succeeds-pure _))))))

module _ {F J W : Type 0} ⦃fl : Float F⦄ (env : Environment F J W) where
  steps_passed : Result Fault (List String × List CleanupStep) → List CleanupStep
  steps_passed (ok a) = a.1
  steps_passed (err e) = []

  -- The steps that the end of the cleanup has passed before the status is persisted.
  wind_up-order :
      (s : Session F J W) (a : List String × List CleanupStep)
      → (wind_up env s).0 ≡ ok a
      → a.1 ++ session_status_persist ∷ [] ≡ all_steps
  unfolding wind_up pure steps_passed
  wind_up-order s a h =
      let (e1, p1, h1) = past-first _ _ s (past-gets _ _ s h) in
      let (e2, p2, h2) = past-first _ _ _ h1 in
      let (e3, p3, h3) = past-first _ _ _ h2 in
      let (e4, p4, h4) = past-first _ _ _ h3 in
      let (e5, p5, h5) = past-first _ _ _ h4 in
      ap (λ r. steps_passed r ++ session_status_persist ∷ []) (sym h5)

-- What `persist` does to a session that is settled.
record KeepsSettled {F J W : Type 0} (s t : Session F J W) : Type 0 where
  settles : IsSettled s → IsSettled t

instance KeepsSettled-IsPreorder :
    {F J W : Type 0} → IsPreorder (KeepsSettled {F = F} {J = J} {W = W})
KeepsSettled-IsPreorder = record {
  refl_at = λ s. record { settles = λ h. h };
  trans_at = λ s t u p q. record { settles = λ h. q.settles (p.settles h) };
}

instance KeepsSettled-IsWorldly :
    {F J W : Type 0} → IsWorldly (KeepsSettled {F = F} {J = J} {W = W})
KeepsSettled-IsWorldly = record {
  world_at = λ s w. record {
    settles = λ h. record {
      is_closed = h.is_closed;
      is_aborted = h.is_aborted;
      went_through = h.went_through;
      honest = h.honest;
    };
  };
}

module _ {F J W : Type 0} (s t : Session F J W) (c : t.closed ≡ s.closed)
    (r : t.cleanup_report ≡ s.cleanup_report) where
  kept_write : t.state ≡ s.state → KeepsSettled s t
  kept_write e = record {
    settles = λ h. record {
      is_closed = c ∙ h.is_closed;
      is_aborted = e ∙ h.is_aborted;
      went_through = ap (λ k. k.order) r ∙ h.went_through;
      honest = subst (λ k. k.completed ≡ is_empty k.errors) (sym r) h.honest;
    };
  }

  aborted_write : t.state ≡ aborted → KeepsSettled s t
  aborted_write e = record {
    settles = λ h. record {
      is_closed = c ∙ h.is_closed;
      is_aborted = e;
      went_through = ap (λ k. k.order) r ∙ h.went_through;
      honest = subst (λ k. k.completed ≡ is_empty k.errors) (sym r) h.honest;
    };
  }

module _ {S A B : Type 0} (Q : S → Type 0) {R : S → Type 0} where
  value_on :
      (r : Result Fault A) (f : A → Exec Fault S B) (s : S)
      → (a : A) × (r ≡ ok a)
      → Q s
      → ((a : A) → r ≡ ok a → Takes Q R (f a))
      → R (continue r f s).1
  value_on (ok a) f s v h k = (k a refl).takes s h
  value_on (err e) f s (a, v) h k = absurd (cc)

  pub Takes-value :
      {P : S → Type 0} (m : Exec Fault S A) (f : A → Exec Fault S B)
      → Succeeds m
      → Takes P Q m
      → ((a : A) → Takes Q R (f a))
      → Takes P R (m >>= f)
  unfolding ◌>>=◌
  Takes-value m f v k l = record {
    takes = λ s h. let (r, s') = m s in value_on r f s' (v.value s) (k.takes s h) (λ a e. l a);
  }

  -- The rest may rely on what is known of the value.
  Takes-value_of :
      {P : S → Type 0} (T : A → Type 0) (m : Exec Fault S A) (f : A → Exec Fault S B)
      → Succeeds m
      → ((s : S) (a : A) → (m s).0 ≡ ok a → T a)
      → Takes P Q m
      → ((a : A) → T a → Takes Q R (f a))
      → Takes P R (m >>= f)
  unfolding ◌>>=◌
  Takes-value_of T m f v t k l = record {
    takes = λ s h.
        let (r, s') = m s in value_on r f s' (v.value s) (k.takes s h) (λ a e. l a (t s a e));
  }

record IsAborted {F J W : Type 0} (s : Session F J W) : Type 0 where
  stage_is : s.state ≡ aborted

record IsAny {F J W : Type 0} (s : Session F J W) : Type 0 where

module _ {F J W A : Type 0} where
  Same-IsAborted : (m : Action F J W A) → Moves Same m → Takes IsAborted IsAborted m
  Same-IsAborted m k = record {
    takes = λ s h. record { stage_is = (k.at s).state_eq ∙ h.stage_is };
  }

  any : (m : Action F J W A) → Takes IsAny IsAny m
  any m = record { takes = λ s h. record {} }

module _ {F J W : Type 0} ⦃fl : Float F⦄ (env : Environment F J W) where
  save-KeepsSettled : (status : String) (a : Audit) → Moves KeepsSettled (save env status a)
  unfolding save
  save-KeepsSettled status a = search (quiet_rules, Moves-modify, kept_write) depth 20

  persist-KeepsSettled : (status : String) → Moves KeepsSettled (persist env status)
  unfolding persist
  persist-KeepsSettled status =
      search (quiet_rules, Moves-modify, aborted_write, save-KeepsSettled) depth 20

  pub shut-Succeeds :
      (errors : List String) (order : List CleanupStep) → Succeeds (shut env errors order)
  unfolding shut
  shut-Succeeds errors order = search value_rules depth 12

  shut-IsSettled :
      (errors : List String) (order : List CleanupStep)
      → order ++ session_status_persist ∷ [] ≡ all_steps
      → Takes IsAborted IsSettled (shut env errors order)
  unfolding shut modify when ◌>>=◌
  shut-IsSettled [] order e = record {
    takes = λ s h. record {
      is_closed = refl;
      is_aborted = h.stage_is;
      went_through = e;
      honest = refl;
    };
  }
  shut-IsSettled (x ∷ xs) order e = record {
    takes = λ s h. record { is_closed = refl; is_aborted = refl; went_through = e; honest = refl };
  }

  module _ (regular : IsRegular env) where
    finalize-IsSettled : (status : String) → Takes IsAborted IsSettled (finalize env status)
    unfolding finalize
    finalize-IsSettled status =
        Takes-value_of IsAborted (λ a. a.1 ++ session_status_persist ∷ [] ≡ all_steps) _ _
          (wind_up-Succeeds env regular) (wind_up-order env) (Same-IsAborted _ (wind_up-Same env))
          (λ (errors, order) e.
            Takes-value IsSettled _ _ (shut-Succeeds errors order) (shut-IsSettled errors order e)
              (λ _. record { takes = λ s h. ((persist-KeepsSettled _).at s).settles h }))

    abort_open-IsSettled :
        (reason : String) (blocked : Bool) → Takes IsAny IsSettled (abort_open env reason blocked)
    unfolding abort_open modify
    abort_open-IsSettled reason blocked = Takes-value IsAny _ _ (Succeeds-modify _) (any _) (λ _.
        Takes-value IsAny _ _ (note-Succeeds env _ _ (end-IsCalm env regular _ _)) (any _) (λ _.
          Takes-value IsAborted _ _ (Succeeds-modify _)
            (record { takes = λ s h. record { stage_is = refl } })
            (λ _.
              Takes-value IsAborted _ _ (note-Succeeds env _ _ (begin-IsCalm env regular _))
                (Same-IsAborted _ (note-Same env _ _ (begin-Same env _)))
                (λ _.
                  Takes-value IsAborted _ _ (note-Succeeds env _ _ (end-IsCalm env regular _ _))
                    (Same-IsAborted _ (note-Same env _ _ (end-Same env _ _)))
                    (λ _. finalize-IsSettled _)))))

    -- After `abort` of an open session.
    pub abort-IsSettled :
        (reason : String) (blocked : Bool) (s : Session F J W)
        → s.closed ≡ false
        → IsSettled (abort env reason blocked s).1
    unfolding abort gets when ◌>>=◌
    abort-IsSettled reason blocked s e =
        subst (λ c. IsSettled (when (not c) (abort_open env reason blocked) s).1) (sym e)
          ((abort_open-IsSettled reason blocked).takes s (record {}))
