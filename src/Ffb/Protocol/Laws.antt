-- ===== src/Ffb/Protocol/Laws.antt =====
-- The dispatcher of src/p8/ffb_protocol.py over an output that fails, and the receiver's refusals.
use carla.Prelude.{◌+◌, ◌≤◌, ◌≡◌, refl, true, false, Option, String, arith, List}
use carla.Float.{Float}
use carla.Exec.{Result, ok, err}
use carla.Context.{Fault}
use carla.Ffb.{FfbContext, FfbObservation, FfbCurve, zero_parameters}
use carla.Ffb.Safety.{
  FfbRequest, FfbLimits, FfbCommand, FfbSafety, is_evaluating, command, fault_command, fail,
}
use carla.Ffb.Safety.Step.{step}
use carla.Ffb.Safety.Laws.{Operation, perform, perform-IsAnswer}
use carla.Ffb.Safety.Runs.{after_all, numbered}
use carla.Ffb.Protocol.{
  FfbOutput, Dispatcher, is_valid_command, record_error, try_action, send, settle, dispatch, target,
  dispatcher_step,
}

module _ {F : Type 0} ⦃fl : Float F⦄ (limits : FfbLimits F) where
  -- A receiver that has seen a command of a run refuses every command that the machine issued before
  -- it, at any time and for any context.
  pub replay_refused :
      (ops more : List (Operation F)) (op next : Operation F) (s : FfbSafety F) (now : F)
      (context : FfbContext)
      → is_valid_command
          (perform limits op (after_all limits ops s)).0
          now
          context
          (perform limits next
            (after_all limits more (perform limits op (after_all limits ops s)).1)).0.sequence
          limits
        ≡ false
  unfolding is_valid_command
  replay_refused ops more op next s now context =
      let t : FfbSafety F = after_all limits ops s in
      ground
        (arith, perform-IsAnswer limits op t, numbered limits more next (perform limits op t).1)

module _ {F W : Type 0} ⦃fl : Float F⦄ (output : FfbOutput F W) (limits : FfbLimits F)
    (curve : FfbCurve F) where
  fail_off :
      (s : FfbSafety F) (reason : String) (now : F)
      → (is_evaluating (fail s reason now).0.state ≡ false)
        × (is_evaluating (fail s reason now).1.state ≡ false)
        × ((fail s reason now).0.parameters ≡ zero_parameters)
  unfolding fail fault_command command
  fail_off s reason now = ground arith

  try_action_lem :
      (m : W → Result Fault Unit × W) (d : Dispatcher F W)
      → ((try_action output limits curve m d).safety ≡ d.safety)
        × (d.backend_failure_count ≤ (try_action output limits curve m d).backend_failure_count)
  unfolding try_action record_error
  try_action_lem m d = ground arith

  settle_failed :
      (c : FfbCommand F) (now : F) (e : Fault) (d : Dispatcher F W)
      → let (r, d') = settle output limits curve c now (err e) d in
        (is_evaluating r.state ≡ false)
        × (r.parameters ≡ zero_parameters)
        × (is_evaluating d'.safety.state ≡ false)
        × (d.backend_failure_count + 1 ≤ d'.backend_failure_count)
  unfolding settle record_error
  settle_failed c now e d =
      let failed : Dispatcher F W = record_error output limits curve (err e) d in
      let (next, safety) = fail failed.safety "BACKEND_FAILURE" now in
      let told : Dispatcher F W =
        try_action output limits curve (output.record_fault next.reason)
          (record failed { safety = safety }) in
      ground (
        arith,
        fail_off failed.safety "BACKEND_FAILURE" now,
        try_action_lem (output.record_fault next.reason) (record failed { safety = safety }),
        try_action_lem (output.disable next) told,
      )

  -- A step of an open dispatcher whose output raises, on the command or on the stop, returns a command
  -- without strength, leaves the machine's evaluation off, and counts the failure.
  pub output_failure :
      (o : Option (FfbObservation F)) (now : F) (q : FfbRequest) (d : Dispatcher F W) (e : Fault)
      → d.closed ≡ false
      → (send output limits curve
          (step limits d.safety o (target output limits curve o) now q).0
          now
          d.world).0
        ≡ err e
      → let (r, d') = dispatcher_step output limits curve o now q d in
        (is_evaluating r.state ≡ false)
        × (r.parameters ≡ zero_parameters)
        × (is_evaluating d'.safety.state ≡ false)
        × (d.backend_failure_count + 1 ≤ d'.backend_failure_count)
  unfolding dispatcher_step dispatch
  output_failure o now q d e h k =
      let (c, s) = step limits d.safety o (target output limits curve o) now q in
      let w : W = (send output limits curve c now d.world).1 in
      ground (arith, settle_failed c now e (record d { safety = s; world = w }))

  settle_accepted :
      (c : FfbCommand F) (now : F) (r : Result Fault Unit) (d : Dispatcher F W)
      → is_evaluating (settle output limits curve c now r d).0.state ≡ true
      → (r ≡ ok tt) × ((settle output limits curve c now r d).0 ≡ c)
  unfolding settle
  settle_accepted c now (ok u) d h = (refl, refl)
  settle_accepted c now (err e) d h = ground (arith, settle_failed c now e d)

  send_accepted :
      (c : FfbCommand F) (now : F) (w : W)
      → is_evaluating c.state ≡ true
      → send output limits curve c now w ≡ output.apply c now w
  unfolding send
  send_accepted c now w h = ground arith

  -- A step of an open dispatcher that returns a command with the evaluation on has had that command,
  -- the machine's own, accepted by the output.
  pub evaluation_accepted :
      (o : Option (FfbObservation F)) (now : F) (q : FfbRequest) (d : Dispatcher F W)
      → d.closed ≡ false
      → is_evaluating (dispatcher_step output limits curve o now q d).0.state ≡ true
      → ((dispatcher_step output limits curve o now q d).0
          ≡ (step limits d.safety o (target output limits curve o) now q).0)
        × ((output.apply
              (step limits d.safety o (target output limits curve o) now q).0
              now
              d.world).0
            ≡ ok tt)
  unfolding dispatcher_step dispatch
  evaluation_accepted o now q d h k =
      let (c, s) = step limits d.safety o (target output limits curve o) now q in
      let (r, w) = send output limits curve c now d.world in
      ground (
        arith,
        settle_accepted c now r (record d { safety = s; world = w }),
        send_accepted c now d.world,
      )
