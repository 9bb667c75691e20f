-- ===== src/Exec/Frame.antt =====
-- What an action does to the state, whether it returns or raises: a relation between the states
-- before and after, with one rule for each way to build an action.
use carla.Prelude.{◌≡◌, refl, Bool, true, false, if◌then◌else◌}
use carla.Exec.{Result, ok, continue, err, Exec, pure, raise, gets, lift, modify, when, ◌>>=◌, ◌>>◌}

pub record IsPreorder {ℓ} {S : Type ℓ} (R : S → S → Type ℓ) : Type ℓ where
  pub refl_at : (s : S) → R s s
  pub trans_at : (s t u : S) → R s t → R t u → R s u

-- `m` moves every state along `R`.
pub record Moves {ℓ} {E S A : Type ℓ} (R : S → S → Type ℓ) (m : Exec E S A) : Type ℓ where
  pub at : (s : S) → R s (m s).1

module _ {ℓ} {E S A : Type ℓ} {R : S → S → Type ℓ} ⦃p : IsPreorder R⦄ where
  pub Moves-pure : (a : A) → Moves R (pure {E = E} a)
  unfolding pure
  Moves-pure a = record { at = p.refl_at }

  pub Moves-raise : (e : E) → Moves R (raise {A = A} e)
  unfolding raise
  Moves-raise e = record { at = p.refl_at }

  pub Moves-gets : (f : S → A) → Moves R (gets {E = E} f)
  unfolding gets
  Moves-gets f = record { at = p.refl_at }

  pub Moves-lift : (r : Result E A) → Moves R (lift r)
  unfolding lift
  Moves-lift r = record { at = p.refl_at }

  pub Moves-if :
      (b : Bool) (m n : Exec E S A)
      → (b ≡ true → Moves R m)
      → (b ≡ false → Moves R n)
      → Moves R (if b then m else n)
  Moves-if true m n km kn = km refl
  Moves-if false m n km kn = kn refl

module _ {ℓ} {E S : Type ℓ} {R : S → S → Type ℓ} ⦃p : IsPreorder R⦄ where
  pub Moves-modify : (f : S → S) → ((s : S) → R s (f s)) → Moves R (modify {E = E} f)
  unfolding modify
  Moves-modify f h = record { at = h }

  pub Moves-when : (b : Bool) (m : Exec E S Unit) → (b ≡ true → Moves R m) → Moves R (when b m)
  unfolding when
  Moves-when true m k = record { at = (k refl).at }
  Moves-when false m k = record { at = p.refl_at }

module _ {ℓ} {E S A B : Type ℓ} {R : S → S → Type ℓ} ⦃p : IsPreorder R⦄ where
  bind_step :
      (r : Result E A) (f : A → Exec E S B) (s s' : S)
      → R s s'
      → ((a : A) → Moves R (f a))
      → R s ((lift r >>= f) s').1
  unfolding ◌>>=◌
  bind_step (ok a) f s s' h k = p.trans_at s s' (f a s').1 h ((k a).at s')
  bind_step (err e) f s s' h k = h

  pub Moves-bind :
      (m : Exec E S A) (f : A → Exec E S B)
      → Moves R m
      → ((a : A) → Moves R (f a))
      → Moves R (m >>= f)
  unfolding ◌>>=◌
  Moves-bind m f km kf = record { at = λ s. let (r, s') = m s in bind_step r f s s' (km.at s) kf }

-- What an action that begins by reading does.
pub past-gets {ℓ} :
    {E S A B : Type ℓ} (f : S → A) (k : A → Exec E S B) (s : S) {b : B}
    → ((gets f >>= k) s).0 ≡ ok b
    → (k (f s) s).0 ≡ ok b
unfolding gets ◌>>=◌
past-gets f k s h = h

-- A test that raises has let the code past it.
pub past-when {ℓ} :
    {E S A : Type ℓ} (b : Bool) (e : E) (k : Exec E S A) (s : S) {a : A}
    → ((when b (raise e) >> k) s).0 ≡ ok a
    → (b ≡ false) × ((k s).0 ≡ ok a)
unfolding when raise ◌>>=◌
past-when true e k s h = cc
past-when false e k s h = (refl, h)

after_first {ℓ} :
    {E S A B : Type ℓ} (r : Result E A) (k : A → Exec E S B) (s : S) {b : B}
    → (continue r k s).0 ≡ ok b
    → (a : A) × (r ≡ ok a) × ((k a s).0 ≡ ok b)
after_first (ok a) k s h = (a, refl, h)
after_first (err e) k s h = cc

-- An action that has returned, with more after it.
pub past-first {ℓ} :
    {E S A B : Type ℓ} (m : Exec E S A) (k : A → Exec E S B) (s : S) {b : B}
    → ((m >>= k) s).0 ≡ ok b
    → (a : A) × ((m s).0 ≡ ok a) × ((k a (m s).1).0 ≡ ok b)
unfolding ◌>>=◌
past-first m k s h = let (r, s') = m s in after_first r k s' h

module _ {ℓ} {E S A B : Type ℓ} {R : S → S → Type ℓ} ⦃p : IsPreorder R⦄ where
  known_step :
      (P : A → Type ℓ) (r : Result E A) (f : A → Exec E S B) (s s' : S)
      → R s s'
      → ((a : A) → r ≡ ok a → P a)
      → ((a : A) → P a → Moves R (f a))
      → R s ((lift r >>= f) s').1
  unfolding ◌>>=◌
  known_step P (ok a) f s s' h q k = p.trans_at s s' (f a s').1 h ((k a (q a refl)).at s')
  known_step P (err e) f s s' h q k = h

  -- The rest may rely on what the first action's result is known to be.
  pub Moves-known :
      (P : A → Type ℓ) (m : Exec E S A) (f : A → Exec E S B)
      → Moves R m
      → ((s : S) (a : A) → (m s).0 ≡ ok a → P a)
      → ((a : A) → P a → Moves R (f a))
      → Moves R (m >>= f)
  unfolding ◌>>=◌
  Moves-known P m f km q kf = record {
    at = λ s. let (r, s') = m s in known_step P r f s s' (km.at s) (λ a e. q s a e) kf;
  }

module _ {ℓ} {E S A : Type ℓ} {R : S → S → Type ℓ} ⦃p : IsPreorder R⦄ where
  -- The rest runs only where the test does not raise.
  pub Moves-past :
      (b : Bool) (e : E) (k : Exec E S A)
      → (b ≡ false → Moves R k)
      → Moves R (when b (raise e) >> k)
  unfolding when raise ◌>>=◌
  Moves-past true e k h = record { at = p.refl_at }
  Moves-past false e k h = record { at = λ s. (h refl).at s }

pub ruleset moves_rules =
    (Moves-pure, Moves-raise, Moves-gets, Moves-lift, Moves-if, Moves-when, Moves-bind)
