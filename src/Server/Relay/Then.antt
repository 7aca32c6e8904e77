-- ===== src/Server/Relay/Then.antt =====
-- A postcondition of code that may fail: it says nothing of a failure.
use spraycc.Base.{refl, ◌≡◌, Bool, true, false, Result, ok, err, ◌>>=◌, ◌>>◌, require}
use spraycc.Server.State.{Fault}

-- What holds if a result is there.
abbrev pub Then {ℓ} : {A : Type ℓ} → (A → Type 0) → Result Fault A → Type 0
Then P (ok a) = P a
Then P (err fault) = Unit

pub Then->>= {ℓ κ} :
    {A : Type ℓ} {B : Type κ} (P : A → Type 0) (R : B → Type 0) (m : Result Fault A)
    (f : A → Result Fault B)
    → Then P m
    → ((a : A) → P a → Then R (f a))
    → Then R (m >>= f)
Then->>= P R (ok a) f h k = k a h
Then->>= P R (err fault) f h k = tt

pub Then-mono {ℓ} :
    {A : Type ℓ} (P R : A → Type 0) (m : Result Fault A)
    → Then P m
    → ((a : A) → P a → R a)
    → Then R m
Then-mono P R (ok a) h k = k a h
Then-mono P R (err fault) h k = tt

pub anything {ℓ} : {A : Type ℓ} (m : Result Fault A) → Then (λ a. Unit) m
anything (ok a) = tt
anything (err fault) = tt

pub Then-require {ℓ} :
    {A : Type ℓ} (R : A → Type 0) (b : Bool) (fault : Fault) (m : Result Fault A)
    → Then R m
    → Then R (require b fault >> m)
Then-require R true fault m h = h
Then-require R false fault m h = tt

pub Then-ok {ℓ} :
    {A : Type ℓ} (P : A → Type 0) (m : Result Fault A) {a : A} → m ≡ ok a → Then P m → P a
Then-ok P m e h = rw e at h

-- What is required holds after it.
pub Then-guard {ℓ} :
    {A : Type ℓ} (R : A → Type 0) (b : Bool) (fault : Fault) (m : Result Fault A)
    → (b ≡ true → Then R m)
    → Then R (require b fault >> m)
Then-guard R true fault m h = h refl
Then-guard R false fault m h = tt
