-- ===== src/Config/Limits/Laws.antt =====
-- src/config.rs: the limit on open files is never lowered.
use spraycc.Base.{
  ℕ, ◌≤◌, ◌<◌, Bool, false, some, ltb, ltb→lt, ◌≡◌, ◌⊎◌, inl, inr, refl, arith, Bool-cases,
}
use spraycc.Config.Limits.{Limits, setup_process_file_limit, set_soft, new_limit}

-- The limits after are no lower, valid, and enough for 2048 files unless the system stands in the way.
pub record Raised (accepts : ℕ → Bool) (limits limits' : Limits) : Type 0 where
  pub higher : limits.soft_limit ≤ limits'.soft_limit
  pub within : limits'.soft_limit ≤ limits'.hard_limit
  pub same : limits'.hard_limit ≡ limits.hard_limit
  pub enough :
      (2048 ≤ limits'.soft_limit)
      ⊎ ((limits.hard_limit < 2048) ⊎ (accepts (new_limit limits) ≡ false))

module _ (accepts : ℕ → Bool) (limits : Limits)
    (valid : limits.soft_limit ≤ limits.hard_limit) where
  set_soft-Raised :
      (low : limits.soft_limit < 2048) (high : 2048 ≤ limits.hard_limit)
      → Raised accepts limits (set_soft accepts limits)
  unfolding set_soft
  set_soft-Raised low high = elim (Bool-cases (accepts (new_limit limits))) [
    | inl taken ↦ rw taken (record {
      higher = omega arith;
      within = omega arith;
      same = refl;
      enough = inl (omega arith);
    })
    | inr refused ↦
        rw refused
          (record { higher = omega arith; within = valid; same = refl; enough = inr (inr refused) })
  ]

  -- Setting up the limit of a process, whose soft limit is at most its hard one, never lowers the soft
  -- limit and keeps it within the hard limit, which stays. Afterwards the soft limit is at least 2048,
  -- or the hard limit is less than that, or the system refuses the new one.
  pub setup_process_file_limit-Raised :
      (verbose : Bool)
      → (limits' : Limits) × ((setup_process_file_limit verbose accepts (some limits)).0
          ≡ some limits')
        × Raised accepts limits limits'
  unfolding setup_process_file_limit
  setup_process_file_limit-Raised verbose = elim (Bool-cases (ltb limits.hard_limit 2048)) [
    | inl low ↦ (
      limits,
      rw low refl,
      record {
        higher = omega arith;
        within = valid;
        same = refl;
        enough = inr (inl (ltb→lt limits.hard_limit 2048 low));
      },
    )
    | inr high ↦ elim (Bool-cases (ltb limits.soft_limit 2048)) [
      | inl low ↦ (
        set_soft accepts limits,
        rw (high, low) refl,
        set_soft-Raised (ltb→lt limits.soft_limit 2048 low) (ground (arith, high)),
      )
      | inr fine ↦ (
        limits,
        rw (high, fine) refl,
        record {
          higher = omega arith;
          within = valid;
          same = refl;
          enough = inl (ground (arith, fine));
        },
      )
    ]
  ]
