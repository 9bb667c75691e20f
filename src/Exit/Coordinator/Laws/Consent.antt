-- ===== src/Exit/Coordinator/Laws/Consent.antt =====
-- The driver's consent to the exit, along the methods of src/experiment/exit_assistance.py and
-- src/experiment/exit_signal.py.
use carla.Prelude.{
  ◌≡◌, refl, Bool, true, false, ◌||◌, ◌&&◌, not, Option, none, some, is_none, is_some, arith,
}
use carla.Float.{Float}
use carla.Exec.{Exec}
use carla.Exec.Frame.{IsPreorder}
use carla.Context.{Fault}
use carla.Automation.{AutomationState}
use carla.Interaction.{DriverInput}
use carla.Timestamp.{TimestampEnvelope}
use carla.Exit.{ExitTerminationReason, ExitObservation}
use carla.Exit.Route.{RoutePoint}
use carla.Exit.Coordinator.{
  Core, Environment, Coordinator, Reason, WindowStatus, RouteChoice, exit, through,
}
use carla.Exit.Coordinator.Methods.{
  start_active_drive, mark_not_presented, cancel_automatic_route, disarm, interrupt,
  fail_assisted_submission, finish,
}
use carla.Exit.Coordinator.Signal.{
  is_confirm, answer_missing, close_guidance, refresh_guidance, submit, branch, submit_branch,
  confirm_signal, ignore_late, follow_signal, update_signal_exit, retire, retire_abandoned_exit,
}
use carla.Exit.Coordinator.Update.{
  decided, emit_answer, answer, respond, update_confirmation, update,
}
use carla.Exit.Coordinator.Rules.{Along, From, along_rules}

abbrev pub chose_exit : Option RouteChoice → Bool
chose_exit (some exit) = true
chose_exit _ = false

-- There is no confirmation, no lane change is armed, and the exit is not the branch that was chosen.
pub record IsUnasked {F : Type 0} (c : Core F) : Type 0 where
  pub no_consent : is_confirm c.decision ≡ false
  pub no_lane_change : c.route_was_armed ≡ false
  pub no_exit : chose_exit c.route_choice ≡ false

unfoldable pub StaysUnasked : {F : Type 0} → Core F → Core F → Type 0
StaysUnasked c c' = IsUnasked c → IsUnasked c'

instance pub StaysUnasked-IsPreorder : {F : Type 0} → IsPreorder (StaysUnasked {F = F})
unfolding StaysUnasked
StaysUnasked-IsPreorder = record { refl_at = λ c h. h; trans_at = λ c d e h k u. k (h u) }

module _ {F : Type 0} (c c' : Core F) where
  pub unasked_same :
      c'.decision ≡ c.decision
      → c'.route_was_armed ≡ c.route_was_armed
      → c'.route_choice ≡ c.route_choice
      → StaysUnasked c c'
  unfolding StaysUnasked
  unasked_same a b d s = ground arith

  -- Another decision than a confirmation, or the end of a lane change.
  pub unasked_write :
      is_confirm c'.decision ≡ false
      → c'.route_was_armed ≡ c.route_was_armed
      → c'.route_choice ≡ c.route_choice
      → StaysUnasked c c'
  unfolding StaysUnasked
  unasked_write a b d s = ground arith

  pub unasked_disarm :
      c'.decision ≡ c.decision
      → c'.route_was_armed ≡ false
      → c'.route_choice ≡ c.route_choice
      → StaysUnasked c c'
  unfolding StaysUnasked
  unasked_disarm a b d s = ground arith

  pub unasked_choice :
      c'.decision ≡ c.decision
      → c'.route_was_armed ≡ c.route_was_armed
      → chose_exit c'.route_choice ≡ false
      → StaysUnasked c c'
  unfolding StaysUnasked
  unasked_choice a b d s = ground arith

module _ {F W : Type 0} (c : Core F) (m : Exec Fault (Coordinator F W) Unit) where
  -- What only a confirmed opportunity reaches.
  From-confirmed : (x : Bool) → (is_confirm c.decision && x) ≡ true → From StaysUnasked c m
  unfolding StaysUnasked
  From-confirmed x g = record { at = λ s e h. ground arith }

  From-never : (b : Bool) → b ≡ true → b ≡ false → From StaysUnasked c m
  From-never b p q = ground arith

pub ruleset unasked_rules =
    (along_rules, unasked_same, unasked_write, unasked_disarm, unasked_choice, refl)

module _ {F W : Type 0} ⦃fl : Float F⦄ (env : Environment F W) where
  pub cancel-StaysUnasked :
      (t : TimestampEnvelope) → Along StaysUnasked (cancel_automatic_route env t)
  unfolding cancel_automatic_route
  cancel-StaysUnasked t = search unasked_rules depth 16

  pub disarm-StaysUnasked : Along StaysUnasked (disarm env)
  unfolding disarm
  disarm-StaysUnasked = search unasked_rules depth 16

  interrupt-StaysUnasked :
      (t : TimestampEnvelope) (r : Reason) → Along StaysUnasked (interrupt env t r)
  unfolding interrupt
  interrupt-StaysUnasked t r =
      search (unasked_rules, cancel-StaysUnasked, disarm-StaysUnasked) depth 16

  pub start-StaysUnasked : (t : TimestampEnvelope) → Along StaysUnasked (start_active_drive env t)
  unfolding start_active_drive
  start-StaysUnasked t = search unasked_rules depth 16

  pub mark_not-StaysUnasked :
      (t : TimestampEnvelope) → Along StaysUnasked (mark_not_presented env t)
  unfolding mark_not_presented
  mark_not-StaysUnasked t = search unasked_rules depth 16

  pub fail-StaysUnasked :
      (t : TimestampEnvelope) → Along StaysUnasked (fail_assisted_submission env t)
  unfolding fail_assisted_submission
  fail-StaysUnasked t = search (unasked_rules, interrupt-StaysUnasked) depth 16

  pub finish-StaysUnasked :
      (r : ExitTerminationReason) (t : TimestampEnvelope) → Along StaysUnasked (finish env r t)
  unfolding finish
  finish-StaysUnasked r t =
      search (unasked_rules, cancel-StaysUnasked, disarm-StaysUnasked) depth 18

  close-StaysUnasked :
      (now : TimestampEnvelope) (r : WindowStatus) → Along StaysUnasked (close_guidance env now r)
  unfolding close_guidance answer_missing
  close-StaysUnasked now r = search unasked_rules depth 24

  pub refresh-StaysUnasked :
      (now : TimestampEnvelope) → Along StaysUnasked (refresh_guidance env now)
  unfolding refresh_guidance
  refresh-StaysUnasked now = search (unasked_rules, close-StaysUnasked) depth 24

  pub retire-StaysUnasked :
      (o : ExitObservation F) → Along StaysUnasked (retire_abandoned_exit env o)
  unfolding retire_abandoned_exit retire
  retire-StaysUnasked o = search (unasked_rules, interrupt-StaysUnasked) depth 24

  through-StaysUnasked :
      (m : Option (Exec Fault W Bool)) (now : TimestampEnvelope)
      → Along StaysUnasked (submit env through m now)
  unfolding submit
  through-StaysUnasked m now = search (unasked_rules, cancel-StaysUnasked) depth 24

  branch-StaysUnasked :
      (p : Option (RoutePoint F)) (c : Core F) (o : Option (ExitObservation F))
      (now : TimestampEnvelope)
      → From StaysUnasked c (branch env p c o now)
  unfolding branch
  branch-StaysUnasked none c o now = search unasked_rules
  branch-StaysUnasked (some p) c none now = search unasked_rules
  branch-StaysUnasked (some p) c (some o) now =
      search (unasked_rules, through-StaysUnasked, From-confirmed) depth 24

  submit_branch-StaysUnasked :
      (now : TimestampEnvelope) → Along StaysUnasked (submit_branch env now)
  unfolding submit_branch
  submit_branch-StaysUnasked now = search (unasked_rules, branch-StaysUnasked) depth 24

  late-StaysUnasked :
      (d : DriverInput F) (receipt : TimestampEnvelope)
      → Along StaysUnasked (ignore_late env d receipt)
  unfolding ignore_late
  late-StaysUnasked d receipt = search unasked_rules depth 24

  module _ (d : DriverInput F) (unasked : d.exit_confirm_requested ≡ false) where
    signal_write :
        (c c' : Core F) (x y z : Bool)
        → (x && y && d.exit_confirm_requested && z) ≡ true
        → StaysUnasked c c'
    unfolding StaysUnasked
    signal_write c c' x y z g s = ground arith

    confirm-StaysUnasked :
        (receipt now : TimestampEnvelope) → Along StaysUnasked (confirm_signal env d receipt now)
    unfolding confirm_signal
    confirm-StaysUnasked receipt now = search (unasked_rules, signal_write) depth 24

    follow-StaysUnasked :
        (receipt now : TimestampEnvelope) (busy : Bool)
        → Along StaysUnasked (follow_signal env d receipt now busy)
    unfolding follow_signal
    follow-StaysUnasked receipt now busy =
        search
          (
            unasked_rules, late-StaysUnasked, confirm-StaysUnasked, close-StaysUnasked,
            interrupt-StaysUnasked, submit_branch-StaysUnasked,
          )
          depth 24

    signal-StaysUnasked :
        (state : AutomationState) (receipt now : TimestampEnvelope) (busy : Bool)
        → Along StaysUnasked (update_signal_exit env d state receipt now busy)
    unfolding update_signal_exit
    signal-StaysUnasked state receipt now busy =
        search
          (
            unasked_rules, refresh-StaysUnasked, cancel-StaysUnasked, interrupt-StaysUnasked,
            follow-StaysUnasked,
          )
          depth 24

    rejected-StaysUnasked :
        (receipt commit : TimestampEnvelope)
        → d.exit_reject_requested ≡ true
        → Along StaysUnasked (answer env d receipt commit)
    unfolding answer decided emit_answer
    rejected-StaysUnasked receipt commit r = search (unasked_rules, From-never) depth 24

    fresh-StaysUnasked :
        (receipt commit : TimestampEnvelope) (fresh x y z : Bool)
        → (fresh ≡ true → d.exit_reject_requested ≡ true)
        → (fresh && x && y && z) ≡ true
        → Along StaysUnasked (answer env d receipt commit)
    fresh-StaysUnasked receipt commit fresh x y z k g =
        rejected-StaysUnasked receipt commit (ground (arith, k))

    respond-StaysUnasked :
        (state : AutomationState) (receipt commit : TimestampEnvelope) (fresh : Bool)
        → (fresh ≡ true → d.exit_reject_requested ≡ true)
        → Along StaysUnasked (respond env d state receipt commit fresh)
    unfolding respond decided
    respond-StaysUnasked state receipt commit fresh k =
        search (unasked_rules, interrupt-StaysUnasked, fresh-StaysUnasked) depth 24

    confirmation-StaysUnasked :
        (state : AutomationState) (receipt commit : TimestampEnvelope) (fresh : Bool)
        → (fresh ≡ true → d.exit_reject_requested ≡ true)
        → Along StaysUnasked (update_confirmation env d state receipt commit fresh)
    unfolding update_confirmation
    confirmation-StaysUnasked state receipt commit fresh k =
        search (unasked_rules, respond-StaysUnasked) depth 24

    only_reject :
        (held : Bool)
        → ((d.exit_confirm_requested || d.exit_reject_requested) && not held) ≡ true
        → d.exit_reject_requested ≡ true
    only_reject held g = ground arith

    -- An update whose driver does not ask for the exit.
    pub update-StaysUnasked :
        (state : AutomationState) (receipt : TimestampEnvelope) (t : Option TimestampEnvelope)
        (busy : Bool)
        → Along StaysUnasked (update env d state receipt t busy)
    unfolding update
    update-StaysUnasked state receipt t busy =
        search (unasked_rules, signal-StaysUnasked, confirmation-StaysUnasked, only_reject) depth 24
