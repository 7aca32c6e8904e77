-- ===== src/Config/Limits.antt =====
-- src/config.rs: the limit on open files. The crate rlimit is a parameter.
pub mod Laws
use spraycc.Base.{ℕ, ◌-◌, min, Bool, true, false, Option, none, some, ltb, if◌then◌else◌}

-- The limits of the process, `none` where `getrlimit` fails, and whether `setrlimit` accepts a soft
-- limit.
pub record Limits : Type 0 where
  pub soft_limit : ℕ
  pub hard_limit : ℕ

-- What is printed.
pub data Notice : Type 0 where
  nothing hard_is_low soft_is_low increased : Notice

abbrev pub new_limit : Limits → ℕ
new_limit limits = min 4096 limits.hard_limit

unfoldable pub set_soft : (ℕ → Bool) → Limits → Limits
set_soft accepts limits =
    if accepts (new_limit limits) then record limits { soft_limit = new_limit limits } else limits

abbrev pub told : Bool → Bool → Notice
told false verbose = soft_is_low
told true verbose = if verbose then increased else nothing

unfoldable pub setup_process_file_limit : Bool → (ℕ → Bool) → Option Limits → Option Limits × Notice
unfolding set_soft
setup_process_file_limit verbose accepts none = (none, nothing)
setup_process_file_limit verbose accepts (some limits) =
    if ltb limits.hard_limit 2048
    then (some limits, hard_is_low)
    else (if ltb limits.soft_limit 2048
        then (some (set_soft accepts limits), told (accepts (new_limit limits)) verbose)
        else (some limits, nothing))
