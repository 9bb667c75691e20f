-- ===== src/Gaze/Laws.antt =====
-- The time that src/p6/gaze_duration.py credits.
use carla.Prelude.{
  ℕ, ◌+◌, ◌-◌, ◌≤◌, ◌<◌, ◌≡◌, refl, sym, ◌∙◌, ap, Option, none, some, List, [], ◌∷◌, String, arith,
  Bool-cases, inl, inr,
}
use text.Mathlib.Text.{◌==◌ as str_eq}
use carla.Float.{Float}
use carla.Exec.{Exec, modify, zoom}
use carla.Exec.Frame.{IsPreorder, Moves, Moves-modify, moves_rules}
use carla.Exec.Takes.{Takes, Takes-via, Takes-if, Takes-read, when_from}
use carla.Session.{Fault}
use carla.Gaze.{
  Interval, Counter, GazeDuration, credit, verdict, goes_back, flush_pending, flush, extend,
  interval_live, interval, add_sample, add, finish,
}

abbrev pub total : Counter → ℕ
total [] = 0
total ((k, m) ∷ r) = m + total r

total-credit : (state : String) (n : ℕ) (c : Counter) → total (credit state n c) ≡ total c + n
unfolding credit
total-credit state n [] = omega arith
total-credit state n ((k, m) ∷ r) =
    let rest = total-credit state n r in
    elim (Bool-cases (str_eq k state)) [
      | inl yes' ↦ rw yes' (omega arith)
      | inr no' ↦ rw no' (omega arith)
    ]

-- What is neither credited nor passed.
pub record Quiet {W : Type 0} (s t : GazeDuration W) : Type 0 where
  pub start_eq : t.start_ns ≡ s.start_ns
  pub edge_eq : t.edge_ns ≡ s.edge_ns
  pub credit_eq : t.nanoseconds ≡ s.nanoseconds

instance pub Quiet-IsPreorder : {W : Type 0} → IsPreorder (Quiet {W = W})
Quiet-IsPreorder = record {
  refl_at = λ s. record { start_eq = refl; edge_eq = refl; credit_eq = refl };
  trans_at = λ s t u p q. record {
    start_eq = q.start_eq ∙ p.start_eq;
    edge_eq = q.edge_eq ∙ p.edge_eq;
    credit_eq = q.credit_eq ∙ p.credit_eq;
  };
}

-- All time since the start is credited, to one state or another.
pub record IsTiled {W : Type 0} (start : ℕ) (s : GazeDuration W) : Type 0 where
  pub start_is : s.start_ns ≡ start
  pub tiled : start + total s.nanoseconds ≡ s.edge_ns

abbrev IsBefore : {W : Type 0} → ℕ → ℕ → ℕ → GazeDuration W → Type 0
IsBefore start least end s = IsTiled start s × (least ≤ s.edge_ns) × (s.edge_ns < end)

abbrev IsAt : {W : Type 0} → ℕ → ℕ → GazeDuration W → Type 0
IsAt start least s = IsTiled start s × (least ≤ s.edge_ns)

module _ {W : Type 0} {start : ℕ} (s t : GazeDuration W) (q : Quiet s t) where
  quiet-IsTiled : IsTiled start s → IsTiled start t
  quiet-IsTiled h = record {
    start_is = q.start_eq ∙ h.start_is;
    tiled = ap (λ c. start + total c) q.credit_eq ∙ h.tiled ∙ sym q.edge_eq;
  }

  quiet-IsAt : {least : ℕ} → IsAt start least s → IsAt start least t
  quiet-IsAt (h, l) = let e = q.edge_eq in (quiet-IsTiled h, omega (arith, e))

  quiet-IsBefore : {least end : ℕ} → IsBefore start least end s → IsBefore start least end t
  quiet-IsBefore (h, l, b) =
      let e = q.edge_eq in (quiet-IsTiled h, omega (arith, e), omega (arith, e))

module _ {F W : Type 0} ⦃fl : Float F⦄ (emit : Interval → F → Exec Fault W Unit) where
  world-Quiet :
      (m : Exec Fault W Unit) → Moves Quiet (zoom (λ s. s.world) (λ s w. record s { world = w }) m)
  unfolding zoom
  world-Quiet m = record { at = λ s. record { start_eq = refl; edge_eq = refl; credit_eq = refl } }

  pending-Quiet : (o : Option Interval) → Moves Quiet (flush_pending emit o)
  unfolding flush_pending zoom
  pending-Quiet none = search moves_rules
  pending-Quiet (some row) = search (moves_rules, Moves-modify, world-Quiet) depth 12

  pub flush-Quiet : Moves Quiet (flush emit)
  unfolding flush
  flush-Quiet = search (moves_rules, pending-Quiet)

  pub extend-Quiet : (end : ℕ) (state reason : String) → Moves Quiet (extend emit end state reason)
  unfolding extend
  extend-Quiet end state reason = search (moves_rules, Moves-modify, flush-Quiet) depth 16

  module _ {start least : ℕ} where
    credit-IsAt :
        (end : ℕ) (state : String)
        → Takes {E = Fault} (IsBefore {W = W} start least end) (IsAt start least) (
            modify (λ s. record s {
              nanoseconds = credit state (end - s.edge_ns) s.nanoseconds;
              edge_ns = end;
            }))
    unfolding modify
    credit-IsAt end state = record {
      takes = λ s (h, l, b).
          let e = total-credit state (end - s.edge_ns) s.nanoseconds in
          let t = h.tiled in
          (record { start_is = h.start_is; tiled = omega (arith, e, t) }, omega arith);
    }

    live-IsAt :
        (end : ℕ) (state reason : String)
        → Takes (IsBefore start least end) (IsAt start least) (interval_live emit end state reason)
    unfolding interval_live
    live-IsAt end state reason =
        Takes-via (IsBefore start least end) _ _
          (record { takes = λ s h. quiet-IsBefore s _ ((extend-Quiet end state reason).at s) h })
          (λ _.
            Takes-via (IsAt start least) _ _ (credit-IsAt end state)
              (λ _. Takes-read _ (λ s h.
                when_from (IsAt start least) _ _ s (λ e. quiet-IsAt s _ (flush-Quiet.at s) h)
                  (λ e. h)))
              (λ s h. h))
          (λ s h. (h.0, h.1))

    interval-IsAt :
        (end : ℕ) (state reason : String)
        → Takes (IsAt start least) (IsAt start least) (interval emit end state reason)
    unfolding interval
    interval-IsAt end state reason = Takes-read _ (λ s h.
        when_from (IsAt start least) _ _ s
          (λ e. (live-IsAt end state reason).takes s (h.0, h.1, ground arith)) (λ e. h))

    add-IsAt :
        (time sequence device : ℕ) (state : String)
        → Takes (IsAt start least) (IsAt start least) (add emit time sequence device state)
    unfolding add add_sample modify
    add-IsAt time sequence device state = Takes-read _ (λ s h.
        (Takes-if {P = IsAt start least} {Q = IsAt start least}
            (goes_back s.previous s.edge_ns time)
            (λ e. record {
              takes = λ t (g, l). (record { start_is = g.start_is; tiled = g.tiled }, l);
            })
            (λ e. Takes-read _ (λ t g.
              let v = verdict t.previous t.clock_gap_pending t.edge_ns time sequence device state in
              (Takes-via (IsAt start least) _ _ (interval-IsAt time v.0 v.1)
                  (λ _. record {
                    takes = λ u (d, l). (record { start_is = d.start_is; tiled = d.tiled }, l);
                  })
                  (λ u d. d)).takes
                t g))).takes
          s h)

    finish-IsAt : (end : ℕ) → Takes (IsAt start least) (IsAt start least) (finish emit end)
    unfolding finish
    finish-IsAt end =
        Takes-via (IsAt start least) _ _ (interval-IsAt end _ _)
          (λ _. record { takes = λ s h. quiet-IsAt s _ (flush-Quiet.at s) h }) (λ s h. h)

-- What is called of an instance, returned or raised.
pub data Operation : Type 0 where
  adds : ℕ → ℕ → ℕ → String → Operation
  flushes : Operation
  finishes : ℕ → Operation

module _ {F W : Type 0} ⦃fl : Float F⦄ (emit : Interval → F → Exec Fault W Unit) where
  unfoldable pub after : Operation → GazeDuration W → GazeDuration W
  after (adds time sequence device state) s = (add emit time sequence device state s).1
  after flushes s = (flush emit s).1
  after (finishes end) s = (finish emit end s).1

  unfoldable pub after_all : List Operation → GazeDuration W → GazeDuration W
  after_all [] s = s
  after_all (p ∷ ps) s = after_all ps (after p s)

  after-IsAt :
      {start least : ℕ} (p : Operation) (s : GazeDuration W)
      → IsAt start least s
      → IsAt start least (after p s)
  unfolding after
  after-IsAt (adds time sequence device state) s h =
      (add-IsAt emit time sequence device state).takes s h
  after-IsAt flushes s h = quiet-IsAt s _ ((flush-Quiet emit).at s) h
  after-IsAt (finishes end) s h = (finish-IsAt emit end).takes s h

  run-IsAt :
      {start least : ℕ} (ps : List Operation) (s : GazeDuration W)
      → IsAt start least s
      → IsAt start least (after_all ps s)
  unfolding after_all
  run-IsAt [] s h = h
  run-IsAt (p ∷ ps) s h = run-IsAt ps (after p s) (after-IsAt p s h)

  -- Through any operations, also where the sink of the intervals raises: the times credited to the
  -- states, where they added up to the time from the start to the last edge, still do, from the same
  -- start, and the edge has not gone back.
  pub credit-IsTiled :
      (ps : List Operation) (start : ℕ) (s : GazeDuration W)
      → IsTiled start s
      → IsTiled start (after_all ps s) × (s.edge_ns ≤ (after_all ps s).edge_ns)
  credit-IsTiled ps start s h = run-IsAt ps s (h, omega arith)
