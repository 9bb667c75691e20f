-- ===== src/Gaze/Classified.antt =====
-- What one sample of src/p6/gaze_duration.py credits to a state that a sample can have.
use text.Mathlib.Text.{◌==◌ as str_eq}
use text.Mathlib.TextEquality.{eq_iff}
use text.Mathlib.TextPositions.{eq_refl}
use carla.Prelude.{
  ℕ, ◌+◌, ◌-◌, ◌≤◌, ◌≡◌, refl, sym, ◌∙◌, ap, subst, Bool, true, false, ◌&&◌, not, Option, none,
  some, [], ◌∷◌, String, ltb, leb, ◌==◌, arith, Bool-cases, inl, inr, if◌then◌else◌,
}
use carla.Float.{Float}
use carla.Exec.{Exec, gets, modify, ◌>>=◌}
use carla.Exec.Takes.{Takes, Takes-via, Takes-read, when_from}
use carla.Session.{Fault}
use carla.Gaze.{
  Interval, Sample, Counter, GazeDuration, credit, credited, verdict, has_gap, goes_back,
  interval_live, interval, add_sample, add,
}
use carla.Gaze.Laws.{Quiet-IsPreorder, flush-Quiet, extend-Quiet}

credited_apart :
    (k state : String) (n : ℕ) (c : Counter)
    → str_eq state k ≡ false
    → credited k (credit state n c) ≡ credited k c
unfolding credit credited
credited_apart k state n [] h = rw h refl
credited_apart k state n ((j, m) ∷ r) h =
    let rest = credited_apart k state n r h in
    elim (Bool-cases (str_eq j state)) [
      | inl yes' ↦
          let apart' : str_eq j k ≡ false = ap (λ x. str_eq x k) ((eq_iff j state).0 yes') ∙ h in
          rw (yes', apart') refl
      | inr no' ↦ rw (no', rest) refl
    ]

credited_same :
    (state : String) (n : ℕ) (c : Counter)
    → credited state (credit state n c) ≡ credited state c + n
unfolding credit credited
credited_same state n [] = let e = eq_refl state in rw e (omega arith)
credited_same state n ((j, m) ∷ r) =
    let rest = credited_same state n r in
    elim (Bool-cases (str_eq j state)) [
      | inl yes' ↦ rw (yes', yes') refl
      | inr no' ↦ rw (no', no') rest
    ]

-- The time that a state is given, as far as it is the one in question.
abbrev share : Bool → ℕ → ℕ
share b n = if b then n else 0

credit-share :
    (k state : String) (n : ℕ) (c : Counter)
    → credited k (credit state n c) ≡ credited k c + share (str_eq state k) n
credit-share k state n c = elim (Bool-cases (str_eq state k)) [
  | inl same ↦
      let e = (eq_iff state k).0 same in
      subst (λ x. credited x (credit state n c) ≡ credited x c + share (str_eq state x) n) e
        (let t = eq_refl state in let q = credited_same state n c in rw t q)
  | inr apart' ↦ let q = credited_apart k state n c apart' in rw (apart', q) (omega arith)
]

-- Two samples agree on the state `k`, and no gap is between them.
abbrev joined : String → Bool → ℕ → ℕ → ℕ → ℕ → String → Option Sample → Bool
joined k gap_pending edge_ns time_ns sequence device_us state none = false
joined k gap_pending edge_ns time_ns sequence device_us state (some before) =
    not gap_pending
    && sequence == before.sequence + 1
    && ltb before.device_us device_us
    && leb (device_us - before.device_us) 100_000
    && leb (time_ns - edge_ns) 100_000_000
    && str_eq state before.state
    && str_eq state k

abbrev pub agrees : {W : Type 0} → String → ℕ → ℕ → ℕ → String → GazeDuration W → Bool
agrees k time_ns sequence device_us state s =
    joined k s.clock_gap_pending s.edge_ns time_ns sequence device_us state s.previous

-- The states that no sample has.
abbrev pub is_classified : String → Bool
is_classified k = not (str_eq "NO_DATA" k) && not (str_eq "TRANSITION_UNCERTAIN" k)

module _ (k : String) (c : is_classified k ≡ true) where
  picked :
      (gap same : Bool) (state : String)
      → str_eq
          (if◌then◌else◌ {A = String × String} gap
            ("NO_DATA", "SEQUENCE_CLOCK_OR_CALLBACK_GAP")
            (if not same
              then ("TRANSITION_UNCERTAIN", "ADJACENT_STATES_DIFFER")
              else (state, "AGREEING_ADJACENT_SAMPLES"))).0
          k
        ≡ true
      → (gap ≡ false) × (same ≡ true) × (str_eq state k ≡ true)
  picked true same state h = absurd (ground arith)
  picked false false state h = absurd (ground arith)
  picked false true state h = (refl, refl, h)

  verdict-joined :
      (o : Option Sample) (gap : Bool) (edge time sequence device : ℕ) (state : String)
      → str_eq (verdict o gap edge time sequence device state).0 k ≡ true
      → joined k gap edge time sequence device state o ≡ true
  unfolding verdict has_gap
  verdict-joined none gap edge time sequence device state h = absurd (ground arith)
  verdict-joined (some before) gap edge time sequence device state h =
      let (free, same, own) = picked _ (str_eq state before.state) state h in ground arith

share_le : (a b : Bool) (n : ℕ) → (a ≡ true → b ≡ true) → share a n ≤ share b n
share_le true true n h = omega arith
share_le true false n h = let e = h refl in cc
share_le false b n h = omega arith

module _ {F W : Type 0} ⦃fl : Float F⦄ (emit : Interval → F → Exec Fault W Unit) (k : String) where
  -- What is credited to `k` has a bound, whether more is to come or not.
  IsBelow : ℕ → GazeDuration W → Type 0
  IsBelow bound s = credited k s.nanoseconds ≤ bound

  IsOpen : ℕ → ℕ → Bool → ℕ → GazeDuration W → Type 0
  IsOpen bound edge b end s =
      (credited k s.nanoseconds + share b (end - edge) ≤ bound) × (s.edge_ns ≡ edge)

  open-IsBelow :
      (bound edge end : ℕ) (b : Bool) (s : GazeDuration W)
      → IsOpen bound edge b end s
      → IsBelow bound s
  unfolding IsOpen IsBelow
  open-IsBelow bound edge end b s (h, e) = omega arith

  live-IsBelow :
      (bound edge end : ℕ) (state reason : String)
      → Takes
          (IsOpen bound edge (str_eq state k) end)
          (IsBelow bound)
          (interval_live emit end state reason)
  unfolding interval_live modify IsOpen IsBelow
  live-IsBelow bound edge end state reason =
      Takes-via (IsOpen bound edge (str_eq state k) end) _ _
        (record {
          takes = λ s (h, e).
              let q = (extend-Quiet emit end state reason).at s in
              (
                subst (λ c. credited k c + share (str_eq state k) (end - edge) ≤ bound)
                    (sym q.credit_eq) h,
                q.edge_eq ∙ e,
              );
        })
        (λ _.
          Takes-via (IsBelow bound) _ _
            (record {
              takes = λ s (h, e).
                  let c = credit-share k state (end - s.edge_ns) s.nanoseconds in
                  subst (λ n. n ≤ bound) (sym c)
                    (subst
                      (λ d. credited k s.nanoseconds + share (str_eq state k) (end - d) ≤ bound)
                      (sym e) h);
            })
            (λ _. Takes-read _ (λ s h.
              when_from (IsBelow bound) _ _ s
                (λ e. subst (λ c. credited k c ≤ bound) (sym ((flush-Quiet emit).at s).credit_eq) h)
                (λ e. h)))
            (λ s h. h))
        (λ s h. open-IsBelow bound edge end _ s h)

  interval_bound :
      (end : ℕ) (state reason : String) (s : GazeDuration W)
      → credited k (interval emit end state reason s).1.nanoseconds
        ≤ credited k s.nanoseconds + share (str_eq state k) (end - s.edge_ns)
  unfolding interval gets ◌>>=◌ IsOpen IsBelow
  interval_bound end state reason s =
      let bound = credited k s.nanoseconds + share (str_eq state k) (end - s.edge_ns) in
      when_from (IsBelow bound) (ltb s.edge_ns end) (interval_live emit end state reason) s
        (λ e. (live-IsBelow bound s.edge_ns end state reason).takes s (omega arith, refl))
        (λ e. omega arith)

  IsBelow-sample :
      (time sequence device : ℕ) (state : String) (s : GazeDuration W)
      → is_classified k ≡ true
      → IsBelow
          (credited k s.nanoseconds
            + share (agrees k time sequence device state s) (time - s.edge_ns))
          (add_sample emit time sequence device state s).1
  unfolding add_sample gets modify ◌>>=◌ IsBelow
  IsBelow-sample time sequence device state s c =
      let v = verdict s.previous s.clock_gap_pending s.edge_ns time sequence device state in
      let bound =
        credited k s.nanoseconds
        + share (agrees k time sequence device state s) (time - s.edge_ns) in
      let more =
        share_le (str_eq v.0 k) (agrees k time sequence device state s) (time - s.edge_ns) (
          verdict-joined k c s.previous s.clock_gap_pending s.edge_ns time sequence device state) in
      let here = interval_bound time v.0 v.1 s in
      (Takes-via (IsBelow bound) {P = λ t. t ≡ s} (interval emit time v.0 v.1) _
          (record {
            takes = λ t e.
                subst (λ u. credited k (interval emit time v.0 v.1 u).1.nanoseconds ≤ bound) (sym e)
                  (omega (arith, more, here));
          })
          (λ _. record { takes = λ t h. h }) (λ t h. h)).takes
        s refl

  -- Whether the sink returns or raises: one sample credits a state that a sample can have with at
  -- most the time since the last edge, and with nothing unless it and the sample before it agree on
  -- the state, with consecutive numbers, device times at most 0.1 s apart and no anomaly of the clock
  -- between them, at most 0.1 s after that edge.
  pub sample_bound :
      (time sequence device : ℕ) (state : String) (s : GazeDuration W)
      → is_classified k ≡ true
      → credited k (add emit time sequence device state s).1.nanoseconds
        ≤ credited k s.nanoseconds
          + (if agrees k time sequence device state s then time - s.edge_ns else 0)
  unfolding add gets modify ◌>>=◌ IsBelow
  sample_bound time sequence device state s c = either (goes_back s.previous s.edge_ns time)
    where
      bound : ℕ
      bound =
          credited k s.nanoseconds
          + share (agrees k time sequence device state s) (time - s.edge_ns)

      either :
          (b : Bool)
          → credited k
              ((if b
                  then modify (λ t. record t {
                    clock_anomalies = t.clock_anomalies + 1;
                    clock_gap_pending = true;
                  })
                  else add_sample emit time sequence device state)
                s).1.nanoseconds
            ≤ bound
      either true = omega arith
      either false = IsBelow-sample time sequence device state s c
