-- ===== src/Gaze.antt =====
-- src/p6/gaze_duration.py: `GazeDuration`, with the greatest gap that its caller leaves at 0.1 s, so
-- that `max_gap_ns / 1000` is 100000. The sink of the intervals acts on the world and may raise; the
-- clocks and the device's times are natural numbers. `summary`, which only reports, is left out.
pub mod Laws
pub mod Classified
mod Tests
use text.Mathlib.Text.{◌==◌ as str_eq}
use carla.Prelude.{
  ℕ, ◌+◌, ◌-◌, Bool, true, false, ◌&&◌, ◌||◌, not, Option, none, some, List, [], ◌∷◌, String, ltb,
  leb, ◌==◌, if◌then◌else◌,
}
use carla.Prelude.Int.{sub_ℕ}
use carla.Float.{Float}
use carla.Exec.{Result, ok, err, Exec, pure, gets, modify, when, ◌>>=◌, ◌>>◌, zoom}
use carla.Session.{Fault}

pub record Interval : Type 0 where
  pub state : String
  pub reason : String
  pub start_clock_ns : ℕ
  pub end_clock_ns : ℕ

pub record Sample : Type 0 where
  pub sequence : ℕ
  pub device_us : ℕ
  pub state : String

-- `Counter`.
abbrev pub Counter : Type 0
Counter = List (String × ℕ)

pub record GazeDuration (W : Type 0) : Type 0 where
  pub start_ns : ℕ
  pub edge_ns : ℕ
  pub previous : Option Sample
  pub pending : Option Interval
  pub nanoseconds : Counter
  pub clock_anomalies : ℕ
  pub clock_gap_pending : Bool
  pub sample_count : ℕ
  pub world : W

abbrev pub max_gap_ns : ℕ
max_gap_ns = 100_000_000

abbrev pub max_gap_us : ℕ
max_gap_us = 100_000

-- `counter[state] += n`, and `counter[state]`.
unfoldable pub credit : String → ℕ → Counter → Counter
credit state n [] = (state, n) ∷ []
credit state n ((k, m) ∷ r) = if str_eq k state then (k, m + n) ∷ r else (k, m) ∷ credit state n r

unfoldable pub credited : String → Counter → ℕ
credited state [] = 0
credited state ((k, m) ∷ r) = if str_eq k state then m else credited state r

unfoldable pub new : {W : Type 0} → ℕ → W → GazeDuration W
new start_ns world = record {
  start_ns = start_ns;
  edge_ns = start_ns;
  previous = none;
  pending = none;
  nanoseconds = [];
  clock_anomalies = 0;
  clock_gap_pending = false;
  sample_count = 0;
  world = world;
}

-- Do the state and the reason of the pending interval agree with these?
abbrev pub extends : Option Interval → String → String → Bool
extends none state reason = false
extends (some p) state reason = str_eq p.state state && str_eq p.reason reason

-- The pending interval up to a later end.
abbrev pub prolonged : Option Interval → ℕ → Option Interval
prolonged none end = none
prolonged (some p) end = some (record p { end_clock_ns = end })

-- Has the pending interval become a second long?
abbrev pub is_long : Option Interval → ℕ → Bool
is_long none end = false
is_long (some p) end = leb 1_000_000_000 (end - p.start_clock_ns)

-- The test for a gap between two samples: of the clock, of the sequence, of the device, of the calls.
unfoldable pub has_gap : Bool → Sample → ℕ → ℕ → ℕ → ℕ → Bool
has_gap gap_pending before edge_ns time_ns sequence device_us =
    gap_pending
    || not (sequence == before.sequence + 1)
    || not (ltb before.device_us device_us && leb (device_us - before.device_us) max_gap_us)
    || ltb max_gap_ns (time_ns - edge_ns)

-- The state and the reason that `add` gives the time since the last edge.
unfoldable pub verdict : Option Sample → Bool → ℕ → ℕ → ℕ → ℕ → String → String × String
verdict none gap_pending edge_ns time_ns sequence device_us state =
    ("NO_DATA", "BEFORE_FIRST_SAMPLE")
verdict (some before) gap_pending edge_ns time_ns sequence device_us state =
    if has_gap gap_pending before edge_ns time_ns sequence device_us
    then ("NO_DATA", "SEQUENCE_CLOCK_OR_CALLBACK_GAP")
    else if not (str_eq state before.state)
    then ("TRANSITION_UNCERTAIN", "ADJACENT_STATES_DIFFER")
    else (state, "AGREEING_ADJACENT_SAMPLES")

-- `time_ns < self.edge_ns or (self.previous is not None and time_ns == self.edge_ns)`.
abbrev pub goes_back : Option Sample → ℕ → ℕ → Bool
goes_back none edge_ns time_ns = ltb time_ns edge_ns
goes_back (some before) edge_ns time_ns = ltb time_ns edge_ns || time_ns == edge_ns

-- `emit` gets the row and its `duration_s`.
module _ {F W : Type 0} ⦃fl : Float F⦄ (emit : Interval → F → Exec Fault W Unit) where
  flush_pending : Option Interval → Exec Fault (GazeDuration W) Unit
  unfolding zoom
  flush_pending none = pure tt
  flush_pending (some row) = do
    zoom (λ s. s.world) (λ s w. record s { world = w })
        (emit row (fl.ratio (sub_ℕ row.end_clock_ns row.start_clock_ns) 1_000_000_000))
    modify (λ s. record s { pending = none })

  unfoldable pub flush : Exec Fault (GazeDuration W) Unit
  unfolding flush_pending
  flush = do s ← gets (λ s. s); flush_pending s.pending

  -- The interval up to `end` joins the pending one, or begins another.
  unfoldable pub extend : ℕ → String → String → Exec Fault (GazeDuration W) Unit
  extend end state reason = do
    s ← gets (λ s. s)
    if extends s.pending state reason
        then modify (λ t. record t { pending = prolonged t.pending end })
        else (do
          flush
          modify (λ t. record t {
            pending = some (record {
              state = state;
              reason = reason;
              start_clock_ns = s.edge_ns;
              end_clock_ns = end;
            });
          }))

  -- `_interval`, past its test.
  unfoldable pub interval_live : ℕ → String → String → Exec Fault (GazeDuration W) Unit
  interval_live end state reason = do
    extend end state reason
    modify (λ s. record s {
      nanoseconds = credit state (end - s.edge_ns) s.nanoseconds;
      edge_ns = end;
    })
    s ← gets (λ s. s)
    when (is_long s.pending end) flush

  unfoldable pub interval : ℕ → String → String → Exec Fault (GazeDuration W) Unit
  interval end state reason = do
    s ← gets (λ s. s)
    when (ltb s.edge_ns end) (interval_live end state reason)

  -- `add`, past its test.
  unfoldable pub add_sample : ℕ → ℕ → ℕ → String → Exec Fault (GazeDuration W) Unit
  add_sample time_ns sequence device_us state = do
    s ← gets (λ s. s)
    let v = verdict s.previous s.clock_gap_pending s.edge_ns time_ns sequence device_us state
    interval time_ns v.0 v.1
    modify (λ t. record t {
      previous = some (record { sequence = sequence; device_us = device_us; state = state });
      clock_gap_pending = false;
      sample_count = t.sample_count + 1;
    })

  unfoldable pub add : ℕ → ℕ → ℕ → String → Exec Fault (GazeDuration W) Unit
  add time_ns sequence device_us state = do
    s ← gets (λ s. s)
    if goes_back s.previous s.edge_ns time_ns
        then modify
            (λ t. record t { clock_anomalies = t.clock_anomalies + 1; clock_gap_pending = true })
        else add_sample time_ns sequence device_us state

  unfoldable pub finish : ℕ → Exec Fault (GazeDuration W) Unit
  finish end_ns = do interval end_ns "NO_DATA" "AFTER_LAST_SAMPLE_OR_COLLECTION_STOPPED"; flush
