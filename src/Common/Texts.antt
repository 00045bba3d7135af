-- ===== src/Common/Texts.antt =====
-- The characters of a text as numbers.
use Prim.Native.Nat.{ℕ}
use Prim.Native.Char.{code}
use Prim.Native.String.{String}
use mathlib.Core.List.{List, [], ◌∷◌}

abbrev pub code_points : String → List ℕ
code_points String.[] = []
code_points (String.◌∷◌ letter rest) = code letter ∷ code_points rest
