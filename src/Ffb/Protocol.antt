-- ===== src/Ffb/Protocol.antt =====
-- src/p8/ffb_protocol.py: the receiver's check of a command, and `OfflineFfbDispatcher`, which hands the
-- commands of the machine to an output. `W` is the world that the output acts on.
pub mod Laws
mod Tests
use carla.Prelude.{
  ℕ, ◌+◌, Bool, true, false, ◌&&◌, ◌||◌, not, Option, none, some, String, if◌then◌else◌, leb,
}
use carla.Float.{Float}
use carla.Exec.{Result, ok, err, Exec}
use carla.Context.{Fault}
use carla.Ffb.{
  FfbContext, FfbObservation, FfbParameters, FfbCurve, FfbValueError, same_context,
  calculate_parameters,
}
use carla.Ffb.Safety.{
  FfbRequest, FfbLimits, FfbCommand, FfbSafety, is_evaluating, is_fault, fail, close,
}
use carla.Ffb.Safety.Step.{step}

pub record FfbOutput (F W : Type 0) : Type 0 where
  pub apply : FfbCommand F → F → Exec Fault W Unit
  pub disable : FfbCommand F → Exec Fault W Unit
  pub record_fault : String → Exec Fault W Unit
  pub close_output : Exec Fault W Unit

pub record Dispatcher (F W : Type 0) : Type 0 where
  pub safety : FfbSafety F
  pub last_backend_error : Option Fault
  pub backend_failure_count : ℕ
  pub closed : Bool
  pub world : W

abbrev pub for_context : Option FfbContext → FfbContext → Bool
for_context none context = false
for_context (some c) context = same_context c context

abbrev target_of : {F : Type 0} → Result FfbValueError (FfbParameters F) → Option (FfbParameters F)
target_of (ok target) = some target
target_of (err e) = none

module _ {F : Type 0} ⦃fl : Float F⦄ where
  -- `0 <= value <= limit`, for a finite value.
  unfoldable pub is_strength : F → F → Bool
  is_strength value limit = fl.is_finite value && fl.le (fl.of_ℕ 0) value && fl.le value limit

  -- Does `validate_simulated_command` let the command pass?
  unfoldable pub is_valid_command : FfbCommand F → F → FfbContext → ℕ → FfbLimits F → Bool
  unfolding is_strength
  is_valid_command c now context previous_sequence limits =
      is_evaluating c.state
      && for_context c.context context
      && not (leb c.sequence previous_sequence)
      && fl.is_finite now
      && fl.is_finite c.issued_at
      && fl.is_finite c.valid_until
      && not (fl.lt c.issued_at (fl.of_ℕ 0))
      && fl.le c.issued_at now
      && fl.le now c.valid_until
      && not (fl.lt limits.max_update_gap_s (fl.sub c.valid_until c.issued_at))
      && is_strength c.parameters.spring limits.max_spring
      && is_strength c.parameters.damper limits.max_damper
      && fl.is_finite c.parameters.center
      && fl.eq c.parameters.center (fl.of_ℕ 0)

module _ {F W : Type 0} ⦃fl : Float F⦄ (output : FfbOutput F W) (limits : FfbLimits F)
    (curve : FfbCurve F) where
  unfoldable pub record_error : Result Fault Unit → Dispatcher F W → Dispatcher F W
  record_error (ok u) d = d
  record_error (err e) d = record d {
    last_backend_error = some e;
    backend_failure_count = d.backend_failure_count + 1;
  }

  -- `try: action() except Exception: self._record_error`.
  unfoldable pub try_action : Exec Fault W Unit → Dispatcher F W → Dispatcher F W
  unfolding record_error
  try_action action d = let (r, w) = action d.world in record_error r (record d { world = w })

  -- The fault is told after a stop that raised nothing.
  unfoldable pub after_stop : FfbCommand F → Result Fault Unit → W → Result Fault Unit × W
  after_stop command (err e) w = (err e, w)
  after_stop command (ok u) w =
      if is_fault command.state then output.record_fault command.reason w else (ok tt, w)

  unfoldable pub send : FfbCommand F → F → Exec Fault W Unit
  unfolding after_stop
  send command now w =
      if is_evaluating command.state
      then output.apply command now w
      else (let (r, w') = output.disable command w in after_stop command r w')

  -- What follows the attempt to send.
  unfoldable pub settle :
      FfbCommand F → F → Result Fault Unit → Dispatcher F W → FfbCommand F × Dispatcher F W
  unfolding record_error try_action
  settle command now (ok u) d = (command, d)
  settle command now (err e) d =
      let failed = record_error (err e) d in
      let (next, safety) = fail failed.safety "BACKEND_FAILURE" now in
      (
        next,
        try_action (output.disable next)
            (try_action (output.record_fault next.reason) (record failed { safety = safety })),
      )

  unfoldable pub dispatch : FfbCommand F → F → Dispatcher F W → FfbCommand F × Dispatcher F W
  unfolding send settle
  dispatch command now d =
      let (r, w) = send command now d.world in settle command now r (record d { world = w })

  unfoldable pub target : Option (FfbObservation F) → Option (FfbParameters F)
  target none = none
  target (some observation) = target_of (calculate_parameters observation curve)

  unfoldable pub dispatcher_step :
      Option (FfbObservation F) → F → FfbRequest → Dispatcher F W → FfbCommand F × Dispatcher F W
  unfolding dispatch target
  dispatcher_step observation now request d =
      if d.closed
      then (let (c, s) = close d.safety now in (c, record d { safety = s }))
      else (let (c, s) = step limits d.safety observation (target observation) now request in
          dispatch c now (record d { safety = s }))

  unfoldable pub dispatcher_close : F → Dispatcher F W → FfbCommand F × Dispatcher F W
  unfolding try_action
  dispatcher_close now d =
      let (c, s) = close d.safety now in
      let d' = record d { safety = s } in
      (
        c,
        if d.closed
            then d'
            else try_action output.close_output
                (try_action (output.disable c) (record d' { closed = true })),
      )
