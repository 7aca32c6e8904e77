-- ===== src/Ipc/Framing/Bytes.antt =====
-- Lists of bytes, cut in two ways, and the header of a message.
use spraycc.Base.{ℕ, ◌/◌, ◌%◌, ◌^◌, ◌≤◌, ◌<◌, ◌≡◌, refl, List, [], ◌∷◌, ◌++◌, arith, length}
use spraycc.Ipc.Framing.{as_usize, drop}

-- Where a list is cut in two ways, the longer first part is the shorter one and a middle.
pub append_split :
    (xs ys us vs : List ℕ)
    → xs ++ ys ≡ us ++ vs
    → length us ≤ length xs
    → (mid : List ℕ) × (xs ≡ us ++ mid) × (mid ++ ys ≡ vs)
append_split xs ys [] vs e h = (xs, refl, e)
append_split [] ys (u ∷ us) vs e h = absurd (omega arith)
append_split (x ∷ xs) ys (u ∷ us) vs e h =
    let (mid, p, q) = append_split xs ys us vs (cc) (omega arith) in (mid, (cc), q)

pub drop-append : (xs ys : List ℕ) → drop (length xs) (xs ++ ys) ≡ ys
drop-append [] ys = refl
drop-append (x ∷ xs) ys = drop-append xs ys

-- The length of a message below 2 ^ 31 bytes is read as it was written.
pub header_lem :
    (n : ℕ)
    → n < 2 ^ 31
    → as_usize (n / 2 ^ 24 % 256) (n / 2 ^ 16 % 256) (n / 2 ^ 8 % 256) (n % 256) ≡ n
unfolding as_usize
header_lem n h = ground arith
