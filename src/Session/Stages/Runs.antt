-- ===== src/Session/Stages/Runs.antt =====
-- The methods of a session of src/p8/orchestrator.py, and runs of them, on the abstract machine.
use carla.Prelude.{
  ◌≡◌, refl, sym, ◌∙◌, subst, ap, Bool, true, false, ◌||◌, not, some, List, [], ◌∷◌, ◌⊎◌, String,
  arith,
}
use carla.Float.{Float}
use carla.Exec.Takes.{Takes, Takes-via, Takes-if}
use carla.Exec.{Result, ok, err, continue, modify, gets, when, ◌>>=◌}
use carla.Exec.Frame.{IsPreorder, Moves, Moves-bind, Moves-raise, past-when, past-first}
use carla.Session.{Stage, session_complete, aborted, Fault, same_stage, successor}
use carla.Session.Record.{Session, Environment}
use carla.Session.Effects.{Action, try_except, is_caught, in_progress}
use carla.Session.Finalize.{finalize, abort_open, abort, set_up, initialize}
use carla.Session.Transition.{
  guard, is_successor, enter_stage, arrive, move, give_up_move, permit, transition,
}
use carla.Session.Outcomes.{acknowledge, approve_dev_outcome, record_execution_policy_outcome}
use carla.Session.Moves.{IsWorldly, handled, Moves-try, quiet_rules}
use carla.Session.Stages.{
  IsTerminal, advance, give_up, Reach, here, next, Reach-trans, Reach-closed, is_successor-eq,
}
use carla.Session.Stages.Same.{
  Same, Same-IsPreorder, Same-IsWorldly, same_rules, begin-Same, activate-Same, end-Same, save-Same,
  note-Same, depart-Same, acknowledge-Same, approve-Same, policy_outcome-Same,
}
use carla.Session.Stages.Ends.{Same-Reach, finalize-Ends}

-- The session goes along the machine.
pub record Reached {F J W : Type 0} (s t : Session F J W) : Type 0 where
  pub reach : Reach s.state s.closed t.state t.closed

instance Reached-IsPreorder : {F J W : Type 0} → IsPreorder (Reached {F = F} {J = J} {W = W})
Reached-IsPreorder = record {
  refl_at = λ s. record { reach = here };
  trans_at = λ s t u p q. record { reach = Reach-trans p.reach q.reach };
}

instance Reached-IsWorldly : {F J W : Type 0} → IsWorldly (Reached {F = F} {J = J} {W = W})
Reached-IsWorldly = record { world_at = λ s w. record { reach = here } }

module _ {F J W A : Type 0} where
  Moves-Reached : (m : Action F J W A) → Moves Same m → Moves Reached m
  Moves-Reached m k = record { at = λ s. record { reach = Same-Reach s (m s).1 (k.at s) } }

-- An open session in the stage `a`.
record At {F J W : Type 0} (a : Stage) (s : Session F J W) : Type 0 where
  at_state : s.state ≡ a
  at_open : s.closed ≡ false

-- A session that the machine reaches from an open one in the stage `a`.
record Since {F J W : Type 0} (a : Stage) (s : Session F J W) : Type 0 where
  since : Reach a false s.state s.closed

complete-IsTerminal : (t : Stage) → same_stage t session_complete ≡ true → IsTerminal t
complete-IsTerminal session_complete h = tt
complete-IsTerminal aborted h = tt
complete-IsTerminal _ h = cc

module _ {F J W : Type 0} {a : Stage} where
  Same-At : (s t : Session F J W) → Same s t → At a s → At a t
  Same-At s t k h = record { at_state = k.state_eq ∙ h.at_state; at_open = k.closed_eq ∙ h.at_open }

  Takes-Same : {A : Type 0} (m : Action F J W A) → Moves Same m → Takes (At a) (At a) m
  Takes-Same m k = record { takes = λ s h. Same-At s (m s).1 (k.at s) h }

  -- What the machine reaches in one step at most.
  At-Since : {b : Stage} → Reach a false b false → (s : Session F J W) → At b s → Since a s
  At-Since r s h = record {
    since =
        subst (λ c. Reach a false s.state c) (sym h.at_open)
          (subst (λ d. Reach a false d false) (sym h.at_state) r);
  }

  stay : (s : Session F J W) → At a s → Since a s
  stay = At-Since here

  gone : (s : Session F J W) → At aborted s → Since a s
  gone = At-Since (next here (give_up a))

  went : {t : Stage} → successor a ≡ some t → (s : Session F J W) → At t s → Since a s
  went {t} e = At-Since (next here (advance a t e))

  write_reason :
      (reason : String)
      → Takes {E = Fault} {S = Session F J W}
          (At a)
          (At a)
          (modify (λ s. record s { abort_reason = some reason }))
  unfolding modify
  write_reason reason = record {
    takes = λ s h. record { at_state = h.at_state; at_open = h.at_open };
  }

  abort_stage :
      Takes {E = Fault} {S = Session F J W}
        (At a)
        (At aborted)
        (modify (λ s. record s { state = aborted; services_stage = aborted }))
  unfolding modify
  abort_stage = record { takes = λ s h. record { at_state = refl; at_open = h.at_open } }

  write_stage :
      (t : Stage)
      → Takes {E = Fault} {S = Session F J W}
          (At a)
          (At t)
          (modify (λ s. record s { state = t; services_stage = t; receipts = [] }))
  unfolding modify
  write_stage t = record { takes = λ s h. record { at_state = refl; at_open = h.at_open } }

module _ {F J W : Type 0} ⦃fl : Float F⦄ (env : Environment F J W) where
  -- `_finalize` in a terminal stage.
  finalize-Since :
      {a b : Stage} (status : String)
      → IsTerminal b
      → Reach a false b false
      → Takes (At b) (Since a) (finalize env status)
  finalize-Since {a} {b} status t r = record {
    takes = λ s h. record {
      since =
          let k =
            ((finalize-Ends env status).at s).reached
              (subst (λ d. IsTerminal d) (sym h.at_state) t) in
          Reach-trans (At-Since r s h).since k;
    };
  }

  -- `abort` of a session that is open.
  abort_open-Since :
      (a : Stage) (reason : String) (blocked : Bool)
      → Takes (At a) (Since a) (abort_open env reason blocked)
  unfolding abort_open
  abort_open-Since a reason blocked =
      Takes-via (At a) _ _ (write_reason reason)
        (λ _.
          Takes-via (At a) _ _ (Takes-Same _ (note-Same env _ _ (end-Same env _ _)))
            (λ _.
              Takes-via (At aborted) _ _ abort_stage
                (λ _.
                  Takes-via (At aborted) _ _ (Takes-Same _ (note-Same env _ _ (begin-Same env _)))
                    (λ _.
                      Takes-via (At aborted) _ _
                        (Takes-Same _ (note-Same env _ _ (end-Same env _ _)))
                        (λ _. finalize-Since _ tt (next here (give_up a))) gone)
                    gone)
                gone)
            stay)
        stay

  abort_or_stay :
      (reason : String) (blocked c : Bool) (s : Session F J W)
      → s.closed ≡ c
      → Reached s (when (not c) (abort_open env reason blocked) s).1
  unfolding when
  abort_or_stay reason blocked true s e = record { reach = here }
  abort_or_stay reason blocked false s e = record {
    reach =
        subst (λ c. let t = (abort_open env reason blocked s).1 in Reach s.state c t.state t.closed)
          (sym e)
          ((abort_open-Since s.state reason blocked).takes s
            (record { at_state = refl; at_open = e })).since;
  }

  abort-Reached : (reason : String) (blocked : Bool) → Moves Reached (abort env reason blocked)
  unfolding abort gets ◌>>=◌
  abort-Reached reason blocked = record { at = λ s. abort_or_stay reason blocked s.closed s refl }

  -- `transition`, past its tests.
  arrive-Since : {a t : Stage} → successor a ≡ some t → Takes (At t) (Since a) (arrive env t)
  unfolding arrive
  arrive-Since {a} {t} e =
      Takes-if (same_stage t session_complete)
        (λ c.
          Takes-via (At t) _ _ (Takes-Same _ (end-Same env _ _))
            (λ _. finalize-Since _ (complete-IsTerminal t c) (next here (advance a t e))) (went e))
        (λ _. record {
          takes = λ s h.
              went e _ ((Takes-Same _ (save-Same env "RUNNING" (in_progress env))).takes s h);
        })

  enter-At : (a t : Stage) → Takes (At a) (At t) (enter_stage env t)
  unfolding enter_stage
  enter-At a t =
      Takes-via (At t) _ _ (write_stage t)
        (λ _. Takes-Same _ (search (same_rules, begin-Same, activate-Same) depth 16)) (λ s h. h)

  move-Since : {a t : Stage} → successor a ≡ some t → Takes (At a) (Since a) (move env t)
  unfolding move
  move-Since {a} {t} e =
      Takes-via (At a) _ _ (Takes-Same _ (depart-Same env))
        (λ _. Takes-via (At t) _ _ (enter-At a t) (λ _. arrive-Since e) (went e)) stay

  pub permit-Same : (t : Stage) → Moves Same (permit env t)
  unfolding permit
  permit-Same t = search same_rules depth 20

  -- What `transition` has tested when it moves.
  pub permit_ok :
      (t : Stage) (s : Session F J W)
      → (permit env t s).0 ≡ ok tt
      → (s.closed ≡ false) × (successor s.state ≡ some t) × ((guard env s).0 ≡ ok tt)
  unfolding permit gets ◌>>=◌
  permit_ok t s h =
      let p =
        past-when (s.closed || same_stage s.state aborted || same_stage s.state session_complete) _
          _ s h in
      let q = past-when (not (is_successor (successor s.state) t)) _ _ s p.1 in
      let (u, g, r) = past-first (guard env) _ s q.1 in
      (ground arith, is_successor-eq (successor s.state) t q.0, g)

  failed-Reached : (e : Fault) → Moves Reached (give_up_move env e)
  failed-Reached e = search (quiet_rules, abort-Reached) depth 12

  move-Reached :
      (t : Stage) (s : Session F J W)
      → s.closed ≡ false
      → successor s.state ≡ some t
      → Reached s (move env t s).1
  move-Reached t s c e = record {
    reach =
        subst (λ b. let u = (move env t s).1 in Reach s.state b u.state u.closed) (sym c)
          ((move-Since e).takes s (record { at_state = refl; at_open = c })).since;
  }

  -- `transition` after its tests, by what they gave.
  after_permit :
      (t : Stage) (s s' : Session F J W) (r : Result Fault Unit)
      → Same s s'
      → (r ≡ ok tt → (s.closed ≡ false) × (successor s.state ≡ some t))
      → Reached s (continue r (λ _. try_except is_caught (move env t) (give_up_move env)) s').1
  unfolding try_except
  after_permit t s s' (err e) k h = record { reach = Same-Reach s s' k }
  after_permit t s s' (ok u) k h =
      let p = h refl in
      let m = move-Reached t s' (k.closed_eq ∙ p.0) (ap successor k.state_eq ∙ p.1) in
      let (r, s'') = move env t s' in
      record {
        reach =
            Reach-trans (Same-Reach s s' k) (handled is_caught r _ s' s'' m failed-Reached).reach;
      }

  transition-Reached : (t : Stage) → Moves Reached (transition env t)
  unfolding transition ◌>>=◌
  transition-Reached t = record {
    at = λ s.
        after_permit t s (permit env t s).1 (permit env t s).0 ((permit-Same t).at s)
          (λ h. let (c, e, g) = permit_ok t s h in (c, e));
  }

  pub set_up-Same : Moves Same (set_up env)
  unfolding set_up
  set_up-Same = search (same_rules, save-Same) depth 24

  initialize-Reached : Moves Reached (initialize env)
  unfolding initialize
  initialize-Reached =
      Moves-try is_caught _ _ (Moves-Reached _ set_up-Same)
        (λ e. Moves-bind _ _ (abort-Reached _ _) (λ _. Moves-raise e))

-- What the program may do with a session: its public methods, returned or raised.
pub data Operation (J : Type 0) : Type 0 where
  initializes : Operation J
  acknowledges : String → String → J → Operation J
  approves : String → String → Operation J
  records_policy : String → String → Operation J
  transitions : Stage → Operation J
  aborts : String → Bool → Operation J

module _ {F J W : Type 0} ⦃fl : Float F⦄ (env : Environment F J W) where
  unfoldable pub perform : Operation J → Action F J W Unit
  perform initializes = initialize env
  perform (acknowledges name status value) = acknowledge env name status value
  perform (approves outcome reason) = approve_dev_outcome env outcome reason
  perform (records_policy outcome reason) = record_execution_policy_outcome env outcome reason
  perform (transitions target) = transition env target
  perform (aborts reason blocked) = abort env reason blocked

  unfoldable pub after_all : List (Operation J) → Session F J W → Session F J W
  after_all [] s = s
  after_all (o ∷ os) s = after_all os (perform o s).1

  perform-Reached : (o : Operation J) → Moves Reached (perform o)
  unfolding perform
  perform-Reached initializes = initialize-Reached env
  perform-Reached (acknowledges n s v) = Moves-Reached _ (acknowledge-Same env n s v)
  perform-Reached (approves o r) = Moves-Reached _ (approve-Same env o r)
  perform-Reached (records_policy o r) = Moves-Reached _ (policy_outcome-Same env o r)
  perform-Reached (transitions t) = transition-Reached env t
  perform-Reached (aborts r b) = abort-Reached env r b

  -- Any operations, in any order and whatever raised on the way, take the stage and the closing of
  -- a session along the abstract machine: the stages in their sequence, one at a time, or an abort;
  -- closed only at the end of the sequence or aborted; and after that at most the loss of the
  -- completion.
  pub run-Reach :
      (os : List (Operation J)) (s : Session F J W)
      → Reach s.state s.closed (after_all os s).state (after_all os s).closed
  unfolding after_all
  run-Reach [] s = here
  run-Reach (o ∷ os) s = Reach-trans ((perform-Reached o).at s).reach (run-Reach os (perform o s).1)

  -- A closed session stays closed through any operations, in its stage or aborted.
  pub closed_final :
      (os : List (Operation J)) (s : Session F J W)
      → s.closed ≡ true
      → (((after_all os s).state ≡ s.state) ⊎ ((after_all os s).state ≡ aborted))
        × ((after_all os s).closed ≡ true)
  closed_final os s h = Reach-closed (run-Reach os s) h
