-- ===== src/Timestamp.antt =====
-- src/experiment/timestamp.py and src/experiment/session_clock.py. The snapshot of the simulator and
-- the external clocks of an envelope are carried along and not read by the modelled code: they are
-- left out.
pub mod Laws
use carla.Prelude.{ℕ, ◌-◌, ltb, if◌then◌else◌, Option}
use carla.Prelude.Int.{pos}
use carla.Float.{Float}
use carla.Exec.{Result, ok, err}

pub record HostClockTimestamp : Type 0 where
  pub monotonic_ns : ℕ
  pub utc_ns : ℕ
  pub perf_counter_ns : Option ℕ

pub record TimestampEnvelope : Type 0 where
  pub host : HostClockTimestamp

pub record SessionClock : Type 0 where
  pub baseline_ns : ℕ
  pub latest_ns : ℕ

pub data SessionClockError : Type 0 where
  moved_backwards precedes_origin : SessionClockError

-- `__init__`.
unfoldable pub new_clock : HostClockTimestamp → SessionClock
new_clock baseline = record {
  baseline_ns = baseline.monotonic_ns;
  latest_ns = baseline.monotonic_ns;
}

module _ {F : Type 0} ⦃fl : Float F⦄ where
  -- `elapsed_seconds` moves the clock on; it never goes back.
  unfoldable pub elapsed_seconds :
      HostClockTimestamp → SessionClock → Result SessionClockError F × SessionClock
  elapsed_seconds timestamp clock =
      let current_ns = timestamp.monotonic_ns in
      if ltb current_ns clock.latest_ns then (err moved_backwards, clock) else (
        ok (fl.ratio (pos (current_ns - clock.baseline_ns)) 1_000_000_000),
        record clock { latest_ns = current_ns },
      )

  unfoldable pub project_elapsed_seconds :
      HostClockTimestamp → SessionClock → Result SessionClockError F
  project_elapsed_seconds timestamp clock =
      let current_ns = timestamp.monotonic_ns in
      if ltb current_ns clock.baseline_ns
      then err precedes_origin
      else ok (fl.ratio (pos (current_ns - clock.baseline_ns)) 1_000_000_000)
