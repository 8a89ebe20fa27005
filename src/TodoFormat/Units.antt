-- ===== src/TodoFormat/Units.antt =====
-- A literal of the source as UTF-16 code units: no literal has a character beyond the basic plane.
use Prim.Native.Char.{code}
use Prim.Native.Nat.{ℕ}
use Prim.Native.String.{String, [], ◌∷◌}
use mathlib.Core.List.{List}

abbrev pub units : String → List ℕ
units [] = List.[]
units (c ∷ s) = List.◌∷◌ (code c) (units s)
