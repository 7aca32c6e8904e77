-- ===== src/Task/Strokes.antt =====
-- src/task.rs: a way to print numbers, on which the theorems are tried.
use spraycc.Base.{ℕ, zero, suc, refl, ap, arith, String}
use spraycc.Task.Names.{Apart}

-- A number in strokes.
abbrev pub show : ℕ → String
show zero = ""
show (suc n) = String.◌∷◌ "|" (show n)

abbrev tail : String → String
tail String.[] = ""
tail (String.◌∷◌ c s) = s

abbrev size : String → ℕ
size String.[] = 0
size (String.◌∷◌ c s) = 1

pub show-Apart : Apart show
show-Apart zero zero e = refl
show-Apart zero (suc j) e = omega (arith, ap size e)
show-Apart (suc i) zero e = omega (arith, ap size e)
show-Apart (suc i) (suc j) e = ap suc (show-Apart i j (ap tail e))
