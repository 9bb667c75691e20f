-- ===== src/Exit/Coordinator/Laws/Arming.antt =====
-- The conditions of a confirmation in `update` of src/experiment/exit_assistance.py, for the exit that
-- is not signal-guided.
use carla.Prelude.{
  ◌≡◌, refl, subst, Bool, true, false, ◌||◌, ◌&&◌, not, Option, none, some, is_none, is_some, arith,
}
use carla.Float.{Float}
use carla.Exec.{Exec, ◌>>◌, when}
use carla.Exec.Frame.{IsPreorder}
use carla.Context.{Fault}
use carla.Automation.{AutomationState}
use carla.Interaction.{DriverInput}
use carla.Timestamp.{TimestampEnvelope}
use carla.Exit.{ExitObservation}
use carla.Exit.Policy.{has_timed_out}
use carla.Exit.Coordinator.{Core, Environment, Coordinator, Reason, lc_driver_steering_onset, plain}
use carla.Exit.Coordinator.Emit.{set, emit}
use carla.Exit.Coordinator.Methods.{cancel_automatic_route, disarm, interrupt}
use carla.Exit.Coordinator.Update.{
  decided, emit_answer, accept, answer, driver_acts, in_confirmation, is_mode, is_presented,
  respond, update_confirmation, update,
}
use carla.Exit.Coordinator.Signal.{is_confirm}
use carla.Exit.Coordinator.Rules.{Along, From, along_rules}
use carla.Exit.Coordinator.Laws.Consent.{IsUnasked}

module _ {F W : Type 0} ⦃fl : Float F⦄ (env : Environment F W) (d : DriverInput F)
    (state : AutomationState) (commit : TimestampEnvelope) (fresh : Bool) where
  open env use {config}

  -- A recommendation is on the screen and the driver newly asks for it, hands off the controls, in
  -- the mode in which it was shown, before the vehicle moves sideways and inside the window.
  unfoldable pub invited : Core F → Bool
  invited c =
      fresh
      && is_presented c.status
      && c.automated
      && c.recommendation_presented
      && not (driver_acts env d)
      && not d.exit_reject_requested
      && is_mode state.control_mode c.frozen_mode
      && is_none c.lateral_timestamp
      && in_confirmation env c.latest_observation

  unfoldable pub may_confirm : Core F → Bool
  unfolding invited
  may_confirm c = invited c && not (has_timed_out c.t0 commit config.response_timeout_s)

  Barred : Core F → Core F → Type 0
  Barred c c' = invited c ≡ false → IsUnasked c → (invited c' ≡ false) × IsUnasked c'

  instance Barred-IsPreorder : IsPreorder Barred
  unfolding Barred
  Barred-IsPreorder = record {
    refl_at = λ c p u. (p, u);
    trans_at = λ c e f h k p u. let first = h p u in k first.0 first.1;
  }

  module _ (c c' : Core F) where
    barred_same :
        c'.status ≡ c.status
        → c'.automated ≡ c.automated
        → c'.recommendation_presented ≡ c.recommendation_presented
        → c'.frozen_mode ≡ c.frozen_mode
        → c'.lateral_timestamp ≡ c.lateral_timestamp
        → c'.latest_observation ≡ c.latest_observation
        → c'.decision ≡ c.decision
        → c'.route_was_armed ≡ c.route_was_armed
        → c'.route_choice ≡ c.route_choice
        → Barred c c'
    unfolding Barred invited
    barred_same p q r s t u v w x i h = ground arith

    barred_disarm :
        c'.status ≡ c.status
        → c'.automated ≡ c.automated
        → c'.recommendation_presented ≡ c.recommendation_presented
        → c'.frozen_mode ≡ c.frozen_mode
        → c'.lateral_timestamp ≡ c.lateral_timestamp
        → c'.latest_observation ≡ c.latest_observation
        → c'.decision ≡ c.decision
        → c'.route_was_armed ≡ false
        → c'.route_choice ≡ c.route_choice
        → Barred c c'
    unfolding Barred invited
    barred_disarm p q r s t u v w x i h = ground arith

    barred_closed :
        is_presented c'.status ≡ false
        → c'.decision ≡ c.decision
        → c'.route_was_armed ≡ c.route_was_armed
        → c'.route_choice ≡ c.route_choice
        → Barred c c'
    unfolding Barred invited
    barred_closed p q r s i h = ground arith

    barred_decided :
        is_presented c'.status ≡ false
        → is_confirm c'.decision ≡ false
        → c'.route_was_armed ≡ c.route_was_armed
        → c'.route_choice ≡ c.route_choice
        → Barred c c'
    unfolding Barred invited
    barred_decided p q r s i h = ground arith

  ruleset barred_rules =
      (along_rules, barred_same, barred_disarm, barred_closed, barred_decided, refl)

  cancel-Barred : (t : TimestampEnvelope) → Along {W = W} Barred (cancel_automatic_route env t)
  unfolding cancel_automatic_route
  cancel-Barred t = search barred_rules depth 16

  disarm-Barred : Along {W = W} Barred (disarm env)
  unfolding disarm
  disarm-Barred = search barred_rules depth 16

  interrupt-Barred : (t : TimestampEnvelope) (r : Reason) → Along {W = W} Barred (interrupt env t r)
  unfolding interrupt
  interrupt-Barred t r = search (barred_rules, cancel-Barred, disarm-Barred) depth 16

  event-Barred :
      (receipt : TimestampEnvelope) → Along {W = W} Barred (emit_answer env receipt commit)
  unfolding emit_answer
  event-Barred receipt = search barred_rules depth 16

  -- With an invitation, there is nothing to show; without one, the guards do not all hold.
  uninvited :
      (c : Core F) (m : Exec Fault (Coordinator F W) Unit) → invited c ≡ true → From Barred c m
  unfolding Barred
  uninvited c m g = record { at = λ s e i h. ground arith }

  accept-Barred :
      (c : Core F) (o : Option (ExitObservation F)) (receipt : TimestampEnvelope)
      → (not (in_confirmation env o) ≡ false → invited c ≡ true)
      → From {W = W} Barred c (accept env o receipt commit)
  unfolding accept decided in_confirmation
  accept-Barred c none receipt k = search (barred_rules, event-Barred) depth 16
  accept-Barred c (some o) receipt k = search (barred_rules, event-Barred, uninvited, k) depth 16

  -- What the tests on the way to the answer leave.
  all_hold :
      (c : Core F)
      → (is_presented c.status && fresh && driver_acts env d) ≡ false
      → not (is_mode state.control_mode c.frozen_mode) ≡ false
      → (fresh && is_presented c.status && c.recommendation_presented && c.automated) ≡ true
      → d.exit_reject_requested ≡ false
      → is_some c.lateral_timestamp ≡ false
      → not (in_confirmation env c.latest_observation) ≡ false
      → invited c ≡ true
  unfolding invited
  all_hold c p q r s t u = ground arith

  answer-Barred :
      (c : Core F) (receipt : TimestampEnvelope)
      → (is_presented c.status && fresh && driver_acts env d) ≡ false
      → not (is_mode state.control_mode c.frozen_mode) ≡ false
      → (fresh && is_presented c.status && c.recommendation_presented && c.automated) ≡ true
      → From {W = W} Barred c (answer env d receipt commit)
  unfolding answer decided
  answer-Barred c receipt p q r =
      search (barred_rules, event-Barred, accept-Barred, all_hold) depth 24

  respond-Barred :
      (receipt : TimestampEnvelope)
      → Along {W = W} Barred (respond env d state receipt commit fresh)
  unfolding respond decided
  respond-Barred receipt = search (barred_rules, interrupt-Barred, answer-Barred) depth 24

  -- The same with the time limit. Past the test of the limit, the two agree.
  Late : Core F → Core F → Type 0
  Late c c' = may_confirm c ≡ false → IsUnasked c → (may_confirm c' ≡ false) × IsUnasked c'

  instance Late-IsPreorder : IsPreorder Late
  unfolding Late
  Late-IsPreorder = record {
    refl_at = λ c p u. (p, u);
    trans_at = λ c e f h k p u. let first = h p u in k first.0 first.1;
  }

  late_same :
      (c c' : Core F)
      → c'.status ≡ c.status
      → c'.automated ≡ c.automated
      → c'.recommendation_presented ≡ c.recommendation_presented
      → c'.frozen_mode ≡ c.frozen_mode
      → c'.lateral_timestamp ≡ c.lateral_timestamp
      → c'.latest_observation ≡ c.latest_observation
      → c'.decision ≡ c.decision
      → c'.route_was_armed ≡ c.route_was_armed
      → c'.route_choice ≡ c.route_choice
      → c'.t0 ≡ c.t0
      → Late c c'
  unfolding Late may_confirm invited
  late_same c c' p q r s t u v w x y i h = ground arith

  late_decided :
      (c c' : Core F)
      → is_presented c'.status ≡ false
      → is_confirm c'.decision ≡ false
      → c'.route_was_armed ≡ c.route_was_armed
      → c'.route_choice ≡ c.route_choice
      → Late c c'
  unfolding Late may_confirm invited
  late_decided c c' p q r s i h = ground arith

  in_time :
      (c : Core F)
      → (is_presented c.status
          && c.automated
          && c.recommendation_presented
          && has_timed_out c.t0 commit config.response_timeout_s)
        ≡ false
      → may_confirm c ≡ false
      → invited c ≡ false
  unfolding may_confirm invited
  in_time c p q = ground arith

  weaker : (c : Core F) → invited c ≡ false → may_confirm c ≡ false
  unfolding may_confirm
  weaker c p = ground arith

  From-barred :
      (c : Core F) (m : Exec Fault (Coordinator F W) Unit)
      → (is_presented c.status
          && c.automated
          && c.recommendation_presented
          && has_timed_out c.t0 commit config.response_timeout_s)
        ≡ false
      → Along Barred m
      → From Late c m
  unfolding Late Barred
  From-barred c m p k = record {
    at = λ s e i h.
        let moved =
          subst
            (λ x.
              (invited x ≡ false)
              → IsUnasked x
              → (invited (m s).1.core ≡ false) × IsUnasked (m s).1.core)
            e (k.at s) (in_time c p i) h in
        (weaker _ moved.0, moved.1);
  }

  ruleset late_rules = (along_rules, late_same, late_decided, From-barred, refl)

  steered-Barred :
      (receipt : TimestampEnvelope) (b : Bool)
      → Along {W = W} Barred (
          when b (do
            set (λ c. record c { steering_timestamp = some receipt })
            emit env lc_driver_steering_onset receipt plain))
  steered-Barred receipt b = search barred_rules depth 16

  confirmation-Late :
      (receipt : TimestampEnvelope)
      → Along {W = W} Late (update_confirmation env d state receipt commit fresh)
  unfolding update_confirmation
  confirmation-Late receipt =
      search (late_rules, steered-Barred, barred_rules, respond-Barred) depth 24

  not_signalled :
      (m : Exec Fault (Coordinator F W) Unit) (b : Bool) → b ≡ false → b ≡ true → Along Late m
  not_signalled m b p q = ground arith

module _ {F W : Type 0} ⦃fl : Float F⦄ (env : Environment F W) (d : DriverInput F)
    (state : AutomationState) (receipt : TimestampEnvelope)
    (at_commit : Option TimestampEnvelope) where
  -- The time of the commit, and whether the driver asks anew.
  abbrev pub commit_time : TimestampEnvelope
  commit_time = elim at_commit [ none ↦ receipt | some t ↦ t ]

  abbrev pub asks_anew : Core F → Bool
  asks_anew c = (d.exit_confirm_requested || d.exit_reject_requested) && not c.input_was_held

  update-Late :
      (busy : Bool) (c : Core F)
      → env.config.signal_guided_exit ≡ false
      → From {W = W}
          (Late env d state commit_time (asks_anew c))
          c
          (update env d state receipt at_commit busy)
  unfolding update
  update-Late busy c p =
      search
        (
          along_rules,
          late_same env d state commit_time (asks_anew c),
          confirmation-Late,
          not_signalled,
          Late-IsPreorder,
        )
        depth 24

  -- In an exit that is not signal-guided, an update that `may_confirm` refuses brings no confirmation,
  -- arms no lane change and chooses no exit, whatever the callbacks do or raise: for those it takes a
  -- new request without a rejection, with the recommendation shown and not timed out, the mode of its
  -- presentation, no brake, wheel or lane change of the driver's, no lateral movement seen, and a
  -- last observation inside the confirmation window.
  pub uninvited_update :
      (busy : Bool) (s : Coordinator F W)
      → env.config.signal_guided_exit ≡ false
      → may_confirm env d state commit_time (asks_anew s.core) s.core ≡ false
      → IsUnasked s.core
      → IsUnasked (update env d state receipt at_commit busy s).1.core
  unfolding Late
  uninvited_update busy s p q u = ((update-Late busy s.core p).at s refl q u).1
