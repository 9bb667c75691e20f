-- ===== src/Float/Example.antt =====
-- Whole numbers in place of floats, for the tests.
use carla.Prelude.{ℕ, ◌+◌, ◌-◌, ◌*◌, true, ltb, leb, ◌==◌}
use carla.Prelude.Int.{pos_part, leb_ℤ, pos}
use carla.Float.{Float}

instance abbrev pub whole : Float ℕ
whole = record {
  of_ℕ = λ n. n;
  lt = ltb;
  le = leb;
  eq = λ a b. a == b;
  is_finite = λ a. true;
  add = λ a b. a + b;
  sub = λ a b. a - b;
  mul = λ a b. a * b;
  div = λ a b. a;
  neg = λ a. 0;
  abs = λ a. a;
  sin = λ a. 0;
  cos = λ a. 1;
  radians = λ a. a;
  ratio = λ a n. pos_part a;
  le_ℤ = λ a n. leb_ℤ (pos a) n;
}
