-- ===== src/Base/Results.antt =====
-- Code that can fail: `Result` with `do` blocks, and inversion lemmas.
use mathlib.Core.Path.{◌≡◌, refl}
use mathlib.Core.Bool.{Bool, true, false}
use mathlib.Core.Option.{Option, none, some}

pub data Result {ℓ} (E : Type 0) (A : Type ℓ) : Type ℓ where
  ok : A → Result E A
  err : E → Result E A

infixl 5 ◌>>=◌ ◌>>◌
abbrev pub ◌>>=◌ {ℓ κ} :
    {Failure : Type 0} {X : Type ℓ} {Y : Type κ}
    → Result Failure X
    → (X → Result Failure Y)
    → Result Failure Y
err failure >>= next = err failure
ok x >>= next = next x

abbrev pub require : {Failure : Type 0} → Bool → Failure → Result Failure (Unit {0})
require false failure = err failure
require true failure = ok tt

-- A step whose result is of no use.
abbrev pub ◌>>◌ {ℓ} :
    {Failure : Type 0} {Y : Type ℓ}
    → Result Failure (Unit {0})
    → Result Failure Y
    → Result Failure Y
step >> rest = step >>= λ done. rest

abbrev pub or_fail {ℓ} : {E : Type 0} {A : Type ℓ} → Option A → E → Result E A
or_fail none e = err e
or_fail (some a) e = ok a

-- A chain that succeeds has a first step that does.
pub >>=-eq-ok {ℓ κ} :
    {Failure : Type 0} {X : Type ℓ} {Y : Type κ} (first : Result Failure X)
    (next : X → Result Failure Y) {end : Y}
    → (first >>= next) ≡ ok end
    → (x : X) × (first ≡ ok x) × (next x ≡ ok end)
>>=-eq-ok (err failure) next found = cc
>>=-eq-ok (ok x) next found = (x, refl, found)

-- The kinds of `std::io::Error` that the code tells apart.
pub data IoError : Type 0 where
  not_found invalid_data other : IoError
