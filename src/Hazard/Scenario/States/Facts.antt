-- ===== src/Hazard/Scenario/States/Facts.antt =====
-- What is known of a scenario of src/p7/hazard.py in a state, and what its times tell of it.
use carla.Prelude.{◌≡◌, refl, sym, subst, Bool, true, false, ◌&&◌, not, is_some, arith}
use carla.Exec.Frame.{Moves}
use carla.Exec.Takes.{Takes}
use carla.Hazard.{
  HazardState, idle, armed, triggered, lead_moving_aside, hazard_revealed, responded, completed,
  aborted,
}
use carla.Hazard.Scenario.{Scenario, Action, is_over, is_idle, is_armed}
use carla.Hazard.Scenario.States.{
  IsUnrevealed, IsRunning, responds, Reach, next, fits, Same, Same-IsPreorder,
}

-- A scenario whose state the machine reaches from `a`, is `C`, and goes with its times.
pub record Holds {F W : Type 0} (a : HazardState) (C : HazardState → Type 0) (s : Scenario F W)
    : Type 0 where
  pub reached : Reach a s.state
  pub state_is : C s.state
  pub fit : fits s.state (is_some s.metrics.trigger_t) (is_some s.metrics.reveal_t) ≡ true

abbrev pub IsAny : HazardState → Type 0
IsAny a = Unit

abbrev pub IsActive : HazardState → Type 0
IsActive a = is_over a ≡ false

abbrev pub IsArmed : HazardState → Type 0
IsArmed a = a ≡ armed

abbrev pub IsShown : HazardState → Type 0
IsShown hazard_revealed = Unit
IsShown responded = Unit
IsShown _ = ⊥

module _ {F W : Type 0} {a : HazardState} {C : HazardState → Type 0} where
  pub Same-Holds : (s t : Scenario F W) → Same s t → Holds a C s → Holds a C t
  Same-Holds s t k h = record {
    reached = subst (λ b. Reach a b) (sym k.state_eq) h.reached;
    state_is = subst (λ b. C b) (sym k.state_eq) h.state_is;
    fit = rw (k.state_eq, k.trigger_eq, k.reveal_eq) h.fit;
  }

  pub Takes-Same : {A : Type 0} (m : Action F W A) → Moves Same m → Takes (Holds a C) (Holds a C) m
  Takes-Same m k = record { takes = λ s h. Same-Holds s (m s).1 (k.at s) h }

  pub forget : (s : Scenario F W) → Holds a C s → Holds a IsAny s
  forget s h = record { reached = h.reached; state_is = tt; fit = h.fit }

pub Running-Active : (b : HazardState) → IsRunning b → IsActive b
Running-Active triggered h = refl
Running-Active lead_moving_aside h = refl
Running-Active hazard_revealed h = refl
Running-Active responded h = refl
Running-Active idle h = elim h [ ]
Running-Active armed h = elim h [ ]
Running-Active completed h = elim h [ ]
Running-Active aborted h = elim h [ ]

pub Shown-Running : (b : HazardState) → IsShown b → IsRunning b
Shown-Running hazard_revealed h = tt
Shown-Running responded h = tt
Shown-Running idle h = elim h [ ]
Shown-Running armed h = elim h [ ]
Shown-Running triggered h = elim h [ ]
Shown-Running lead_moving_aside h = elim h [ ]
Shown-Running completed h = elim h [ ]
Shown-Running aborted h = elim h [ ]

pub fire_fit :
    (b : HazardState) (t r : Bool) → b ≡ armed → fits b t r ≡ true → fits triggered true r ≡ true
fire_fit idle t r e h = cc
fire_fit armed t r e h = ground arith
fire_fit triggered t r e h = cc
fire_fit lead_moving_aside t r e h = cc
fire_fit hazard_revealed t r e h = cc
fire_fit responded t r e h = cc
fire_fit completed t r e h = cc
fire_fit aborted t r e h = cc

-- Armed, or after the trigger and under way.
abbrev pub IsUnderWay : HazardState → Type 0
IsUnderWay armed = Unit
IsUnderWay triggered = Unit
IsUnderWay lead_moving_aside = Unit
IsUnderWay hazard_revealed = Unit
IsUnderWay responded = Unit
IsUnderWay _ = ⊥

pub Running-UnderWay : (b : HazardState) → IsRunning b → IsUnderWay b
Running-UnderWay triggered h = tt
Running-UnderWay lead_moving_aside h = tt
Running-UnderWay hazard_revealed h = tt
Running-UnderWay responded h = tt
Running-UnderWay idle h = elim h [ ]
Running-UnderWay armed h = elim h [ ]
Running-UnderWay completed h = elim h [ ]
Running-UnderWay aborted h = elim h [ ]

-- What the times tell of a state under way.
pub IsRunning-of :
    (b : HazardState) (t r : Bool) → IsUnderWay b → fits b t r ≡ true → t ≡ true → IsRunning b
IsRunning-of armed t r u h e = absurd (ground arith)
IsRunning-of triggered t r u h e = tt
IsRunning-of lead_moving_aside t r u h e = tt
IsRunning-of hazard_revealed t r u h e = tt
IsRunning-of responded t r u h e = tt
IsRunning-of idle t r u h e = elim u [ ]
IsRunning-of completed t r u h e = elim u [ ]
IsRunning-of aborted t r u h e = elim u [ ]

pub IsUnrevealed-of :
    (b : HazardState) (t r : Bool) → IsRunning b → fits b t r ≡ true → r ≡ false → IsUnrevealed b
IsUnrevealed-of triggered t r u h e = tt
IsUnrevealed-of lead_moving_aside t r u h e = tt
IsUnrevealed-of hazard_revealed t r u h e = absurd (ground arith)
IsUnrevealed-of responded t r u h e = absurd (ground arith)
IsUnrevealed-of idle t r u h e = elim u [ ]
IsUnrevealed-of armed t r u h e = elim u [ ]
IsUnrevealed-of completed t r u h e = elim u [ ]
IsUnrevealed-of aborted t r u h e = elim u [ ]

pub IsShown-of :
    (b : HazardState) (t r : Bool) → IsUnderWay b → fits b t r ≡ true → r ≡ true → IsShown b
IsShown-of armed t r u h e = absurd (ground arith)
IsShown-of triggered t r u h e = absurd (ground arith)
IsShown-of lead_moving_aside t r u h e = absurd (ground arith)
IsShown-of hazard_revealed t r u h e = tt
IsShown-of responded t r u h e = tt
IsShown-of idle t r u h e = elim u [ ]
IsShown-of completed t r u h e = elim u [ ]
IsShown-of aborted t r u h e = elim u [ ]

pub trigger_known : (b : HazardState) (t r : Bool) → IsRunning b → fits b t r ≡ true → t ≡ true
trigger_known triggered t r u h = ground arith
trigger_known lead_moving_aside t r u h = ground arith
trigger_known hazard_revealed t r u h = ground arith
trigger_known responded t r u h = ground arith
trigger_known idle t r u h = elim u [ ]
trigger_known armed t r u h = elim u [ ]
trigger_known completed t r u h = elim u [ ]
trigger_known aborted t r u h = elim u [ ]

pub shown_fit :
    (b : HazardState) (t r : Bool) → IsShown b → fits b t r ≡ true → fits responded t r ≡ true
shown_fit hazard_revealed t r u h = h
shown_fit responded t r u h = h
shown_fit idle t r u h = elim u [ ]
shown_fit armed t r u h = elim u [ ]
shown_fit triggered t r u h = elim u [ ]
shown_fit lead_moving_aside t r u h = elim u [ ]
shown_fit completed t r u h = elim u [ ]
shown_fit aborted t r u h = elim u [ ]

pub responds_from : {a : HazardState} (b : HazardState) → IsShown b → Reach a b → Reach a responded
responds_from hazard_revealed u r = next r responds
responds_from responded u r = r
responds_from idle u r = elim u [ ]
responds_from armed u r = elim u [ ]
responds_from triggered u r = elim u [ ]
responds_from lead_moving_aside u r = elim u [ ]
responds_from completed u r = elim u [ ]
responds_from aborted u r = elim u [ ]

pub Shown-UnderWay : (b : HazardState) → IsShown b → IsUnderWay b
Shown-UnderWay b h = Running-UnderWay b (Shown-Running b h)

pub is_armed-eq : (b : HazardState) → is_armed b ≡ true → b ≡ armed
is_armed-eq armed h = refl
is_armed-eq _ h = cc

pub Armed-UnderWay : (b : HazardState) → IsArmed b → IsUnderWay b
Armed-UnderWay b h = subst (λ c. IsUnderWay c) (sym h) tt

pub under_way : (b : HazardState) → (not (is_idle b) && not (is_over b)) ≡ true → IsUnderWay b
under_way idle h = cc
under_way armed h = tt
under_way triggered h = tt
under_way lead_moving_aside h = tt
under_way hazard_revealed h = tt
under_way responded h = tt
under_way completed h = cc
under_way aborted h = cc
