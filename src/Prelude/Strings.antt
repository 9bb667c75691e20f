-- ===== src/Prelude/Strings.antt =====
-- Python's `str.strip`, of which the code asks whether anything is left, `+` and `str.join`.
use Prim.Native.Nat.{ℕ}
use Prim.Native.Char.{code}
use Prim.Native.String.{String, [], ◌∷◌, ◌++◌}
use mathlib.Core.List
use mathlib.Core.Bool.{Bool, true, false, ◌&&◌, ◌||◌}
use carla.Prelude.Tests.{leb, ◌==◌, if◌then◌else◌}

-- `str.isspace`, by code point.
abbrev pub is_space : ℕ → Bool
is_space n =
    (leb 9 n && leb n 13)
    || (leb 28 n && leb n 32)
    || n == 133
    || n == 160
    || n == 5760
    || (leb 8192 n && leb n 8202)
    || n == 8232
    || n == 8233
    || n == 8239
    || n == 8287
    || n == 12288

-- Is `s.strip()` other than the empty text?
unfoldable pub has_text : String → Bool
has_text [] = false
has_text (c ∷ s) = let rest = has_text s in if is_space (code c) then rest else true

-- `a + b` for two texts.
unfoldable pub text_append : String → String → String
text_append a b = a ++ b

-- `separator.join(texts)`.
unfoldable pub join : String → List.List String → String
join separator List.[] = ""
join separator (List.◌∷◌ a List.[]) = a
join separator (List.◌∷◌ a (List.◌∷◌ b r)) = a ++ separator ++ join separator (List.◌∷◌ b r)
