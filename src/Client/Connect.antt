-- ===== src/Client/Connect.antt =====
-- src/client.rs: `connect_w_retry`. Whether an attempt reaches the server is told by its number.
use mathlib.Core.Path.{subst}
use spraycc.Base.{
  ℕ, zero, suc, ◌+◌, ◌<◌, ◌≡◌, ◌⊎◌, inl, inr, refl, Bool, true, false, ◌&&◌, not, ltb,
  if◌then◌else◌, arith, Bool-cases,
}

pub data Attempts : Type 0 where
  connected : ℕ → Attempts
  unable still_trying : Attempts

-- The loop, from `count` on, for at most `fuel` rounds.
unfoldable pub connect_from : (ℕ → Bool) → ℕ → ℕ → Attempts
connect_from reaches zero count = still_trying
connect_from reaches (suc fuel) count =
    let rest = connect_from reaches fuel (suc count) in
    if reaches count then connected count else if ltb count 5 then rest else unable

unfoldable pub connect_w_retry : (ℕ → Bool) → Attempts
unfolding connect_from
connect_w_retry reaches = connect_from reaches 6 0

-- No attempt before the `n`th reaches the server.
abbrev pub none_before : (ℕ → Bool) → ℕ → Bool
none_before reaches zero = true
none_before reaches (suc n) = not (reaches n) && none_before reaches n

missed_before :
    (reaches : ℕ → Bool) (count : ℕ)
    → reaches count ≡ false
    → none_before reaches count ≡ true
    → none_before reaches (suc count) ≡ true
missed_before reaches count missed before = ground (arith, missed, before)

-- How the attempts end, `found` being the result.
abbrev Ends : (ℕ → Bool) → Attempts → Type 0
Ends reaches found =
    ((n : ℕ) × (n < 6)
      × (reaches n ≡ true)
      × (none_before reaches n ≡ true)
      × (found ≡ connected n))
    ⊎ ((none_before reaches 6 ≡ true) × (found ≡ unable))

at_last :
    (reaches : ℕ → Bool) → none_before reaches 5 ≡ true → Ends reaches (connect_from reaches 1 5)
unfolding connect_from
at_last reaches before = elim (Bool-cases (reaches 5)) [
  | inl reached ↦ inl (5, omega arith, reached, before, rw reached refl)
  | inr missed ↦ inr (missed_before reaches 5 missed before, rw missed refl)
]

again :
    (reaches : ℕ → Bool) (fuel count : ℕ)
    → reaches count ≡ false
    → count < 5
    → connect_from reaches (suc fuel) count ≡ connect_from reaches fuel (suc count)
unfolding connect_from
again reaches fuel count missed early = ground (arith, missed)

connect_from_lem :
    (reaches : ℕ → Bool) (fuel count : ℕ)
    → suc fuel + count ≡ 6
    → none_before reaches count ≡ true
    → Ends reaches (connect_from reaches (suc fuel) count)
unfolding connect_from
connect_from_lem reaches zero count six before =
    let five : 5 ≡ count = omega arith in
    subst (λ n. none_before reaches n ≡ true → Ends reaches (connect_from reaches 1 n)) five
      (at_last reaches) before
connect_from_lem reaches (suc fuel) count six before = elim (Bool-cases (reaches count)) [
  | inl reached ↦ inl (count, omega arith, reached, before, rw reached refl)
  | inr missed ↦ rw (again reaches (suc fuel) count missed (omega arith)) (
      connect_from_lem reaches fuel (suc count) (omega arith)
        (missed_before reaches count missed before))
]

-- The client connects by the first of six attempts that reaches the server, and gives up when none
-- does.
pub connect_w_retry_lem :
    (reaches : ℕ → Bool)
    → ((n : ℕ) × (n < 6)
        × (reaches n ≡ true)
        × (none_before reaches n ≡ true)
        × (connect_w_retry reaches ≡ connected n))
      ⊎ ((none_before reaches 6 ≡ true) × (connect_w_retry reaches ≡ unable))
unfolding connect_w_retry
connect_w_retry_lem reaches = connect_from_lem reaches 5 0 refl refl
