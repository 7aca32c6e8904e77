-- ===== src/Server/Safety/Ensures.antt =====
-- A postcondition of code that may fail, but must not panic.
use spraycc.Base.{◌≡◌, Bool, true, false, Result, ok, err, ◌>>=◌, ◌>>◌, require, refl}
use spraycc.Server.State.{Fault, panics}

module _ {ℓ} {A : Type ℓ} where
  abbrev pub Ensures : (A → Type 0) → Result Fault A → Type 0
  Ensures P (ok a) = P a
  Ensures P (err f) = panics f ≡ false

  pub Ensures-ok : (P : A → Type 0) (m : Result Fault A) {a : A} → Ensures P m → m ≡ ok a → P a
  Ensures-ok P m h e = rw e at h

  pub Ensures-err :
      (P : A → Type 0) (m : Result Fault A) {f : Fault} → Ensures P m → m ≡ err f → panics f ≡ false
  Ensures-err P m h e = rw e at h

  pub Ensures-mono :
      (P R : A → Type 0) (m : Result Fault A) → Ensures P m → ((a : A) → P a → R a) → Ensures R m
  Ensures-mono P R (ok a) h k = k a h
  Ensures-mono P R (err e) h k = h

  pub Ensures-require :
      (R : A → Type 0) (b : Bool) (f : Fault) (m : Result Fault A)
      → panics f ≡ false
      → (b ≡ true → Ensures R m)
      → Ensures R (require b f >> m)
  Ensures-require R true f m h k = k refl
  Ensures-require R false f m h k = h

pub Ensures->>= {ℓ κ} :
    {A : Type ℓ} {B : Type κ} (P : A → Type 0) (R : B → Type 0) (m : Result Fault A)
    (f : A → Result Fault B)
    → Ensures P m
    → ((a : A) → P a → Ensures R (f a))
    → Ensures R (m >>= f)
Ensures->>= P R (ok a) f h k = k a h
Ensures->>= P R (err e) f h k = h
