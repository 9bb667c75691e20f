-- ===== src/Session/Stages.antt =====
-- The abstract machine of a session of src/p8/orchestrator.py: a stage, and whether the session is
-- closed.
pub mod Same
pub mod Ends
pub mod Runs
use carla.Prelude.{
  ◌≡◌, refl, ap, Bool, true, false, not, Option, none, some, [], ◌∷◌, ◌++◌, get_elem?, arith, ◌⊎◌,
  inl, inr,
}
use carla.Session.{Stage, session_complete, aborted, sequence, ordinal, same_stage, successor}
use carla.Session.Transition.{is_successor}

-- The stages in which a session may be closed.
abbrev pub IsTerminal : Stage → Type 0
IsTerminal session_complete = Unit
IsTerminal aborted = Unit
IsTerminal _ = ⊥

pub data Step : Stage → Bool → Stage → Bool → Type 0 where
  -- The next stage of the sequence.
  advance : (a b : Stage) → successor a ≡ some b → Step a false b false
  -- Any open session may be aborted.
  give_up : (a : Stage) → Step a false aborted false
  -- Only a session at its end is closed.
  seal : (a : Stage) → IsTerminal a → Step a false a true
  -- A closed session may still lose its completion.
  reject : (a : Stage) → IsTerminal a → Step a true aborted true

pub data Reach (a : Stage) (c : Bool) : Stage → Bool → Type 0 where
  here : Reach a c a c
  next : {b d : Stage} {e f : Bool} → Reach a c b e → Step b e d f → Reach a c d f

pub Reach-trans :
    {a b : Stage} {c e : Bool} {d : Stage} {f : Bool}
    → Reach a c b e
    → Reach b e d f
    → Reach a c d f
Reach-trans p here = p
Reach-trans p (next q s) = next (Reach-trans p q) s

-- A step from a closed session leaves it closed, in a terminal stage.
Step-closed : {a b : Stage} {c d : Bool} → Step a c b d → c ≡ true → (b ≡ aborted) × (d ≡ true)
Step-closed (advance a b s) h = cc
Step-closed (give_up a) h = cc
Step-closed (seal a t) h = cc
Step-closed (reject a t) h = (refl, refl)

pub Reach-closed :
    {a : Stage} {c : Bool} {b : Stage} {d : Bool}
    → Reach a c b d
    → c ≡ true
    → ((b ≡ a) ⊎ (b ≡ aborted)) × (d ≡ true)
Reach-closed here h = (inl refl, h)
Reach-closed (next r s) h = let k = Step-closed s (Reach-closed r h).1 in (inr k.0, k.1)

stage_at : (s : Stage) → get_elem? (sequence ++ aborted ∷ []) (ordinal s) ≡ some s
unfolding sequence
stage_at session_complete = refl
stage_at _ = refl

pub same_stage-eq : (s t : Stage) → same_stage s t ≡ true → s ≡ t
same_stage-eq s t h = cc (stage_at s, stage_at t, ordinals)
  where
    ordinals : ordinal s ≡ ordinal t
    ordinals = ground arith

pub is_successor-eq : (o : Option Stage) (t : Stage) → not (is_successor o t) ≡ false → o ≡ some t
unfolding is_successor
is_successor-eq none t h = cc
is_successor-eq (some s) t h = ap some (same_stage-eq s t (ground arith))
