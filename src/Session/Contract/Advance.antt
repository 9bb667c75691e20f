-- ===== src/Session/Contract/Advance.antt =====
-- What a session of src/p8/orchestrator.py that leaves a stage has met.
use carla.Prelude.{
  ◌≡◌, ◌≢◌, refl, ◌∙◌, ap, subst, Bool, true, false, not, Option, none, some, is_some, List, [],
  ◌∷◌, String, any, All, Bool-cases, inl, inr, arith, if◌then◌else◌,
}
use carla.Float.{Float}
use carla.Exec.{Result, ok, err, raise, when, continue, ◌>>=◌, ◌>>◌, zoom}
use carla.Exec.Frame.{past-gets, past-when, past-first}
use carla.Session.{Stage, Mode, Fault, is_rehearsal, receipts_of, minimum, same_stage}
use carla.Session.Record.{Approval, Policy, Session, Environment}
use carla.Session.Effects.{Action, is_bounded_rest, on_world}
use carla.Session.Transition.{
  lookup, is_status, receipt_satisfied, lacks_receipt, check_blocker, check_elapsed, raise_blocker,
  guard_contract, guard, permit, transition,
}
use carla.Session.Stages.Same.{Same}
use carla.Session.Stages.Runs.{Operation, after_all, permit_ok, permit-Same}
use carla.Session.Contract.{IsPlain, run-IsPlain}

-- A receipt that an operator confirmed, or a stub that stands for one in development.
abbrev pub IsAcknowledged : Option String → Type 0
IsAcknowledged status = is_status status ("DEV_STUB" ∷ "OPERATOR_CONFIRMED" ∷ []) ≡ true

-- The contract of the stage that a session is in, as it was when the session was asked to leave.
pub record MeetsContract {F J W : Type 0} ⦃fl : Float F⦄ (env : Environment F J W)
    (s : Session F J W) : Type 0 where
  -- Every receipt that the stage asks for.
  pub receipts : All (λ name. IsAcknowledged (lookup name s.receipts)) (receipts_of s.state)
  -- The clock was read, and the least time has passed since the stage's start.
  pub now : F
  pub start : F
  pub was_read : (env.elapsed s.world).0 ≡ ok now
  pub has_started : s.current.start_session_s ≡ some start
  pub long_enough :
      fl.lt (fl.sub now start) (
        if is_bounded_rest env s.state s.has_components
        then fl.of_ℕ 0
        else minimum env.profile s.state)
      ≡ false
  -- The components, which were then asked, see no blocker.
  pub unblocked : (env.components.completion_blocker s.state (env.elapsed s.world).1).0 ≡ ok none

satisfied-IsAcknowledged :
    (mode : Mode) (stage : Stage) (status : Option String)
    → is_rehearsal mode ≡ false
    → not (receipt_satisfied mode stage status) ≡ false
    → IsAcknowledged status
unfolding receipt_satisfied
satisfied-IsAcknowledged mode stage status m h = ground arith

All-IsAcknowledged :
    (mode : Mode) (stage : Stage) (held : List (String × String)) (names : List String)
    → is_rehearsal mode ≡ false
    → any (λ name. not (receipt_satisfied mode stage (lookup name held))) names ≡ false
    → All (λ name. IsAcknowledged (lookup name held)) names
All-IsAcknowledged mode stage held [] m h = tt
All-IsAcknowledged mode stage held (n ∷ ns) m h =
    elim (Bool-cases (not (receipt_satisfied mode stage (lookup n held)))) [
      | inl bad ↦ absurd (ground arith)
      | inr good ↦ (
        satisfied-IsAcknowledged mode stage (lookup n held) m good,
        All-IsAcknowledged mode stage held ns m (ground arith),
      )
    ]

module _ {F J W : Type 0} ⦃fl : Float F⦄ (env : Environment F J W) where
  -- The tests of a stage's time that have not raised.
  elapsed_ok :
      (stage : Stage) (has : Bool) (now : F) (start : Option F) (s : Session F J W)
      → (check_elapsed env stage has now start s).0 ≡ ok tt
      → (t : F) × (start ≡ some t)
        × (fl.lt
              (fl.sub now t)
              (if is_bounded_rest env stage has then fl.of_ℕ 0 else minimum env.profile stage)
            ≡ false)
  unfolding check_elapsed raise when
  elapsed_ok stage has now none s h = cc
  elapsed_ok stage has now (some t) s h = (t, refl, ground arith)

  elapsed_still :
      (stage : Stage) (has : Bool) (now : F) (start : Option F) (s : Session F J W)
      → (check_elapsed env stage has now start s).1 ≡ s
  unfolding check_elapsed raise when
  elapsed_still stage has now none s = refl
  elapsed_still stage has now (some t) s = ground arith

  blocker_ok :
      (o : Option String) (s : Session F J W) → (raise_blocker env o s).0 ≡ ok tt → o ≡ none
  unfolding raise_blocker raise
  blocker_ok none s h = refl
  blocker_ok (some b) s h = cc

  check_blocker_ok :
      (stage : Stage) (s : Session F J W)
      → (check_blocker env stage s).0 ≡ ok tt
      → (env.components.completion_blocker stage s.world).0 ≡ ok none
  unfolding check_blocker on_world zoom
  check_blocker_ok stage s h =
      let p = past-when (not s.has_components) _ _ s (past-gets (λ s. s) _ s h) in
      let (o, e, k) =
        past-first (on_world (env.components.completion_blocker stage)) (raise_blocker env) s p.1 in
      e ∙ ap ok (blocker_ok o _ k)

  contract_met :
      (s : Session F J W)
      → is_rehearsal env.mode ≡ false
      → (guard_contract env s).0 ≡ ok tt
      → MeetsContract env s
  unfolding guard_contract lacks_receipt on_world zoom
  contract_met s m h =
      let p =
        past-when (lacks_receipt env.mode s.state s.receipts) _ _ s (past-gets (λ s. s) _ s h) in
      let (now, e, k) =
        past-first (on_world env.elapsed)
          (λ now.
            check_elapsed env s.state s.has_components now s.current.start_session_s
            >> check_blocker env s.state)
          s p.1 in
      let (u, l, b) =
        past-first (check_elapsed env s.state s.has_components now s.current.start_session_s)
          (λ _. check_blocker env s.state) _ k in
      let (start, begun, late) = elapsed_ok s.state s.has_components now _ _ l in
      record {
        receipts = All-IsAcknowledged env.mode s.state s.receipts (receipts_of s.state) m p.0;
        now = now;
        start = start;
        was_read = e;
        has_started = begun;
        long_enough = late;
        unblocked =
            subst (λ t. (env.components.completion_blocker s.state t.world).0 ≡ ok none)
              (elapsed_still s.state s.has_components now s.current.start_session_s _)
              (check_blocker_ok s.state _ b);
      }

  plain_guard :
      (p : Option Policy) (a : Option Approval) (s : Session F J W)
      → p ≡ none
      → a ≡ none
      → ((if is_some p
            then when (same_stage s.state Stage.training) (check_blocker env Stage.training)
            else when (not (is_some a)) (guard_contract env))
          s).0
        ≡ ok tt
      → (guard_contract env s).0 ≡ ok tt
  unfolding when
  plain_guard none none s e f h = h
  plain_guard none (some a) s e f h = cc
  plain_guard (some p) a s e f h = cc

  guard_met :
      (s : Session F J W)
      → is_rehearsal env.mode ≡ false
      → IsPlain s
      → (guard env s).0 ≡ ok tt
      → MeetsContract env s
  unfolding guard
  guard_met s m plain h = contract_met s m (
      plain_guard s.current.execution_policy_outcome s.current.dev_approval s plain.no_policy
        plain.no_approval (past-gets (λ s. s) _ s h))

  refused :
      (r : Result Fault Unit) (k : Unit → Action F J W Unit) (s s' : Session F J W)
      → Same s s'
      → (continue r k s').1.state ≢ s.state
      → r ≡ ok tt
  refused (ok u) k s s' e h = refl
  refused (err x) k s s' e h = absurd (h e.state_eq)

  changed_permit :
      (t : Stage) (s : Session F J W)
      → (transition env t s).1.state ≢ s.state
      → (permit env t s).0 ≡ ok tt
  unfolding transition ◌>>=◌
  changed_permit t s h =
      refused (permit env t s).0 _ s (permit env t s).1 ((permit-Same env t).at s) h

  -- Outside the rehearsal mode, after any operations on a session whose record held no outcome: a
  -- `transition` that changes the stage at all, into the next one or, when it fails, into the
  -- aborted one, has found every receipt of the stage acknowledged, the least time of the stage
  -- passed by the clock that it read, and no blocker of the components.
  pub advance_contract :
      (os : List (Operation J)) (s : Session F J W) (t : Stage)
      → is_rehearsal env.mode ≡ false
      → IsPlain s
      → (transition env t (after_all env os s)).1.state ≢ (after_all env os s).state
      → MeetsContract env (after_all env os s)
  advance_contract os s t m plain h =
      let s' = after_all env os s in
      guard_met s' m (run-IsPlain env m os s plain) (permit_ok env t s' (changed_permit t s' h)).2
