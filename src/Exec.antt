-- ===== src/Exec.antt =====
-- Methods that mutate objects and may raise. What was written before a raise stays written, so the
-- state comes back beside the error too.
pub mod Frame
pub mod Takes
use carla.Prelude.{Bool, true, false}

pub data Result {ℓ} (E A : Type ℓ) : Type ℓ where
  ok : A → Result E A
  err : E → Result E A

abbrev pub is_ok {ℓ} : {E A : Type ℓ} → Result E A → Bool
is_ok (ok a) = true
is_ok (err e) = false

abbrev pub Exec {ℓ} : Type ℓ → Type ℓ → Type ℓ → Type ℓ
Exec E S A = S → Result E A × S

module _ {ℓ} {E S A : Type ℓ} where
  unfoldable pub pure : A → Exec E S A
  pure a s = (ok a, s)

  unfoldable pub raise : E → Exec E S A
  raise e s = (err e, s)

  unfoldable pub gets : (S → A) → Exec E S A
  gets f s = (ok (f s), s)

  unfoldable pub lift : Result E A → Exec E S A
  lift r s = (r, s)

module _ {ℓ} {E S : Type ℓ} where
  unfoldable pub modify : (S → S) → Exec E S Unit
  modify f s = (ok tt, f s)

  -- `if b: m`, with nothing to do otherwise.
  unfoldable pub when : Bool → Exec E S Unit → Exec E S Unit
  when true m s = m s
  when false m s = (ok tt, s)

module _ {ℓ} {E S A B : Type ℓ} where
  abbrev pub continue : Result E A → (A → Exec E S B) → Exec E S B
  continue (ok a) f s = f a s
  continue (err e) f s = (err e, s)

  infixl 10 ◌>>=◌ ◌>>◌
  -- Opening this opens the actions above too.
  unfoldable pub ◌>>=◌ : Exec E S A → (A → Exec E S B) → Exec E S B
  unfolding pure raise gets lift modify when
  ◌>>=◌ m f s = let (r, s') = m s in continue r f s'

  abbrev pub ◌>>◌ : Exec E S A → Exec E S B → Exec E S B
  m >> n = m >>= λ _. n

-- A method of an object that `S` holds, by the way to reach it and to put it back.
unfoldable pub zoom {ℓ} : {E S T A : Type ℓ} → (S → T) → (S → T → S) → Exec E T A → Exec E S A
zoom get put m s = let (r, t) = m (get s) in (r, put s t)
