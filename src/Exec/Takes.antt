-- ===== src/Exec/Takes.antt =====
-- What an action guarantees of the state after it, returned or raised, by what held before it.
use carla.Prelude.{◌≡◌, refl, Bool, true, false, if◌then◌else◌}
use carla.Exec.{Result, ok, err, Exec, lift, gets, when, ◌>>=◌}

-- An action from states with `P` to ones with `Q`, returning or raising.
pub record Takes {E S A : Type 0} (P Q : S → Type 0) (m : Exec E S A) : Type 0 where
  pub takes : (s : S) → P s → Q (m s).1

module _ {E S A B : Type 0} (Q : S → Type 0) {R : S → Type 0} where
  take_on :
      (r : Result E A) (f : A → Exec E S B) (s : S)
      → Q s
      → ((a : A) → Takes Q R (f a))
      → ((t : S) → Q t → R t)
      → R ((lift r >>= f) s).1
  unfolding ◌>>=◌
  take_on (ok a) f s h k l = (k a).takes s h
  take_on (err e) f s h k l = l s h

  pub Takes-via :
      {P : S → Type 0} (m : Exec E S A) (f : A → Exec E S B)
      → Takes P Q m
      → ((a : A) → Takes Q R (f a))
      → ((t : S) → Q t → R t)
      → Takes P R (m >>= f)
  unfolding ◌>>=◌
  Takes-via m f km kf l = record {
    takes = λ s h. let (r, s') = m s in take_on r f s' (km.takes s h) kf l;
  }

module _ {E S A : Type 0} {P Q : S → Type 0} where
  pub Takes-if :
      (b : Bool) {m n : Exec E S A}
      → (b ≡ true → Takes P Q m)
      → (b ≡ false → Takes P Q n)
      → Takes P Q (if b then m else n)
  Takes-if true k l = k refl
  Takes-if false k l = l refl

module _ {E S B : Type 0} {P R : S → Type 0} where
  -- The state that is read is the one that the rest starts from.
  pub Takes-read :
      (k : S → Exec E S B) → ((s : S) → P s → R (k s s).1) → Takes P R (gets (λ s. s) >>= k)
  unfolding gets ◌>>=◌
  Takes-read k h = record { takes = h }

module _ {E S : Type 0} (Q : S → Type 0) where
  pub when_from :
      (b : Bool) (m : Exec E S Unit) (s : S)
      → (b ≡ true → Q (m s).1)
      → (b ≡ false → Q s)
      → Q (when b m s).1
  unfolding when
  when_from true m s k l = k refl
  when_from false m s k l = l refl

module _ {E S A B : Type 0} (Q : S → Type 0) {R : S → Type 0} where
  known_on :
      (T : A → Type 0) (r : Result E A) (f : A → Exec E S B) (s : S)
      → Q s
      → ((a : A) → r ≡ ok a → T a)
      → ((a : A) → T a → Takes Q R (f a))
      → ((t : S) → Q t → R t)
      → R ((lift r >>= f) s).1
  unfolding ◌>>=◌
  known_on T (ok a) f s h e k l = (k a (e a refl)).takes s h
  known_on T (err x) f s h e k l = l s h

  -- The rest may rely on what the result is known to be, from the state before.
  pub Takes-known :
      {P : S → Type 0} (T : A → Type 0) (m : Exec E S A) (f : A → Exec E S B)
      → Takes P Q m
      → ((s : S) (a : A) → P s → (m s).0 ≡ ok a → T a)
      → ((a : A) → T a → Takes Q R (f a))
      → ((t : S) → Q t → R t)
      → Takes P R (m >>= f)
  unfolding ◌>>=◌
  Takes-known T m f km e kf l = record {
    takes = λ s h. let (r, s') = m s in known_on T r f s' (km.takes s h) (λ a q. e s a h q) kf l;
  }
