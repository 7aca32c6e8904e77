-- ===== src/Config/Files/Laws.antt =====
-- src/config.rs: what is on a disk after a write and a removal.
use spraycc.Base.{
  ℕ, ◌≤◌, ◌+◌, max, ◌↔◌, length-append, String, true, none, some, List, [], ◌∷◌, ok, length, ◌≡◌,
  refl, ap, eq_iff, str_eq, arith, if◌then◌else◌, append-nil,
}
use spraycc.Base.Maps.{lookup, lookup-insert}
use spraycc.Config.Files.{Disk, read_text, drop, overwrite, content_of, put, write_text, remove}

-- A disk that lets the program write, and read what it has written.
pub record Usable (disk : Disk) (path : String) : Type 0 where
  pub opened : disk.opens path ≡ true
  pub read : disk.reads path ≡ true
  pub created : disk.creates path ≡ true
  pub written : disk.writes path ≡ true

drop-nil : (n : ℕ) (bs : List ℕ) → length bs ≤ n → drop n bs ≡ []
drop-nil ℕ.zero [] h = refl
drop-nil ℕ.zero (b ∷ bs) h = ground arith
drop-nil (ℕ.suc n) [] h = refl
drop-nil (ℕ.suc n) (b ∷ bs) h = drop-nil n bs (omega arith)

pub overwrite_fits : (new old : List ℕ) → length old ≤ length new → overwrite new old ≡ new
overwrite_fits new old h = rw (drop-nil (length new) old h, append-nil new) refl

module _ (disk : Disk) (path : String) (text : List ℕ) (usable : Usable disk path) where
  abbrev pub after : Disk
  after = put path (overwrite text (content_of disk path)) disk

  pub write_text_lem : write_text path text disk ≡ (after, ok tt)
  unfolding write_text
  write_text_lem = rw (usable.created, usable.written) refl

  pub written_at : lookup path after.files ≡ some (overwrite text (content_of disk path))
  written_at = ground (
    arith,
    eq_iff path path,
    lookup-insert path path (overwrite text (content_of disk path)) disk.files,
  )

  pub content_after : content_of after path ≡ overwrite text (content_of disk path)
  content_after = ap (λ o. elim o [ none ↦ [] | some bytes ↦ bytes ]) written_at

  pub read_text_lem : read_text after path ≡ ok (overwrite text (content_of disk path))
  unfolding read_text
  read_text_lem = rw (written_at, usable.opened, usable.read) refl

length-drop : (n : ℕ) (bs : List ℕ) → n + length (drop n bs) ≡ max n (length bs)
length-drop ℕ.zero bs = ground arith
length-drop (ℕ.suc n) [] = ground arith
length-drop (ℕ.suc n) (b ∷ bs) = ground (arith, length-drop n bs)

pub overwrite_iff : (new old : List ℕ) → (overwrite new old ≡ new) ↔ (length old ≤ length new)
overwrite_iff new old = (
  λ same. omega (
    arith,
    ap length same,
    length-append new (drop (length new) old),
    length-drop (length new) old,
  ),
  overwrite_fits new old,
)

pub lookup-remove :
    (path asked : String) (files : List (String × List ℕ))
    → lookup asked (remove path files) ≡ (if str_eq path asked then none else lookup asked files)
unfolding lookup remove
lookup-remove path asked [] = ground arith
lookup-remove path asked ((name, content) ∷ files) =
    ground (
      arith,
      lookup-remove path asked files,
      eq_iff name path,
      eq_iff name asked,
      eq_iff path asked,
    )
