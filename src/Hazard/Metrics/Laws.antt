-- ===== src/Hazard/Metrics/Laws.antt =====
-- What an input of the driver leaves alone in the metrics of src/p7/metrics.py, and what the onsets
-- that it records come after.
use carla.Prelude.{◌≡◌, refl, Option, none, some, [], arith}
use carla.Float.{Float}
use carla.Interaction.{DriverInput}
use carla.Hazard.Metrics.{ResponseMetrics, observe_input, react, since_reveal, onsets}

-- The times of the trigger and of the reveal are the same.
pub record SameTimes {F : Type 0} (m n : ResponseMetrics F) : Type 0 where
  pub trigger_eq : n.trigger_t ≡ m.trigger_t
  pub reveal_eq : n.reveal_t ≡ m.reveal_t

module _ {F : Type 0} ⦃fl : Float F⦄ where
  onsets-SameTimes :
      (now : F) (before current : DriverInput F) (m : ResponseMetrics F)
      → SameTimes m (onsets now before current m).1
  unfolding onsets
  onsets-SameTimes now before current m = record {
    trigger_eq = ground arith;
    reveal_eq = ground arith;
  }

  since_reveal-SameTimes :
      (now : F) (current before : DriverInput F) (at : Option F) (reveal : F)
      (m : ResponseMetrics F)
      → SameTimes m (since_reveal now current before at reveal m).1
  unfolding since_reveal
  since_reveal-SameTimes now current before none reveal m = record {
    trigger_eq = refl;
    reveal_eq = refl;
  }
  since_reveal-SameTimes now current before (some at) reveal m =
      let k = onsets-SameTimes now before current m in
      record { trigger_eq = ground (arith, k.trigger_eq); reveal_eq = ground (arith, k.reveal_eq) }

  react-SameTimes :
      (now : F) (current before : Option (DriverInput F)) (at reveal : Option F)
      (m : ResponseMetrics F)
      → SameTimes m (react now current before at reveal m).1
  unfolding react
  react-SameTimes now (some c) (some b) at (some r) m = since_reveal-SameTimes now c b at r m
  react-SameTimes now (some c) (some b) at none m = record { trigger_eq = refl; reveal_eq = refl }
  react-SameTimes now (some c) none at r m = record { trigger_eq = refl; reveal_eq = refl }
  react-SameTimes now none b at r m = record { trigger_eq = refl; reveal_eq = refl }

  pub input-SameTimes :
      (now : F) (d : Option (DriverInput F)) (m : ResponseMetrics F)
      → SameTimes m (observe_input now d m).1
  unfolding observe_input
  input-SameTimes now d m =
      let k = react-SameTimes now d m.previous m.previous_at m.reveal_t _ in
      record { trigger_eq = k.trigger_eq; reveal_eq = k.reveal_eq }

  quiet_react :
      (now : F) (current before : Option (DriverInput F)) (at reveal : Option F)
      (m : ResponseMetrics F)
      → reveal ≡ none
      → (react now current before at reveal m).0 ≡ []
  unfolding react
  quiet_react now (some c) (some b) at (some r) m h = cc
  quiet_react now (some c) (some b) at none m h = refl
  quiet_react now (some c) none at r m h = refl
  quiet_react now none b at r m h = refl

  -- Before the reveal no input is a response.
  pub input_quiet :
      (now : F) (d : Option (DriverInput F)) (m : ResponseMetrics F)
      → m.reveal_t ≡ none
      → (observe_input now d m).0 ≡ []
  unfolding observe_input
  input_quiet now d m h = quiet_react now d m.previous m.previous_at m.reveal_t _ h
