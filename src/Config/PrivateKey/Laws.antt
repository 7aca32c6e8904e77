-- ===== src/Config/PrivateKey/Laws.antt =====
-- src/config.rs: the key that is made once is the key that is read later.
use spraycc.Base.{
  ℕ, ◌/◌, ◌^◌, ◌<◌, String, Bool, true, none, some, List, [], Result, ok, err, or_fail, ◌>>=◌,
  IoError, not_found, invalid_data, other, ◌≡◌, ◌≢◌, refl, ap, ◌∙◌, arith,
}
use spraycc.Base.Maps.{lookup}
use spraycc.Config.Contact.{Toml}
use spraycc.Config.Files.{Disk, read_text, overwrite}
use spraycc.Config.Files.Laws.{Usable, after, write_text_lem, read_text_lem, overwrite_fits}
use spraycc.Config.PrivateKey.{
  key_path, load_user_private_key_internal, write_user_private_key, key_or_default,
  load_user_private_key, made_or_default,
}

no_file :
    (disk : Disk) (path : String)
    → lookup path disk.files ≡ none
    → read_text disk path ≡ err not_found
unfolding read_text
no_file disk path absent = rw absent refl

internal_absent :
    (toml : Toml ℕ) (disk : Disk) (path : String)
    → lookup path disk.files ≡ none
    → load_user_private_key_internal toml disk path ≡ err not_found
unfolding load_user_private_key_internal
internal_absent toml disk path absent =
    ap (λ r. r >>= λ text. or_fail (toml.from_str text) invalid_data) (no_file disk path absent)

internal_present :
    (toml : Toml ℕ) (disk : Disk) (path : String) (text : List ℕ) (key : ℕ)
    → read_text disk path ≡ ok text
    → toml.from_str text ≡ some key
    → load_user_private_key_internal toml disk path ≡ ok key
unfolding load_user_private_key_internal
internal_present toml disk path text key found parsed =
    ap (λ r. r >>= λ text. or_fail (toml.from_str text) invalid_data) found
    ∙ ap (λ o. or_fail o invalid_data) parsed

written :
    (toml : Toml ℕ) (path : String) (random : ℕ) (text : List ℕ) (disk : Disk)
    (usable : Usable disk path)
    → toml.to_string (random / 2) ≡ some text
    → write_user_private_key toml path random disk
      ≡ (after disk path text usable, some (ok (random / 2)))
unfolding write_user_private_key
written toml path random text disk usable printed =
    rw (usable.created, printed, write_text_lem disk path text usable) refl

module _ (toml : Toml ℕ) (home_dir : String) (random : ℕ) (text : List ℕ) (disk : Disk)
    (absent : lookup (key_path home_dir) disk.files ≡ none)
    (usable : Usable disk (key_path home_dir)) (printed : toml.to_string (random / 2) ≡ some text)
    (parsed : toml.from_str text ≡ some (random / 2)) (drawn : random < 2 ^ 64) where
  first_load :
      load_user_private_key toml true (some home_dir) random disk
      ≡ (after disk (key_path home_dir) text usable, some (random / 2))
  unfolding load_user_private_key
  first_load =
      ap (key_or_default toml true (key_path home_dir) random disk)
        (internal_absent toml disk (key_path home_dir) absent)
      ∙ ap (made_or_default toml) (written toml (key_path home_dir) random text disk usable printed)

  reads_text : read_text (after disk (key_path home_dir) text usable) (key_path home_dir) ≡ ok text
  reads_text =
      read_text_lem disk (key_path home_dir) text usable
      ∙ ap (λ o. ok (overwrite text (elim o [ none ↦ [] | some bytes ↦ bytes ]))) absent
      ∙ ap ok (overwrite_fits text [] (omega arith))

  -- Where there is no key file yet and one can be made, written and read back, a first load with
  -- leave to create gives half of the random number that is drawn, which is below 2 ^ 63, and leaves
  -- a key file with the text of it; every later load gives the same key and leaves the files alone,
  -- with leave to create or without, whatever random number it could draw.
  pub load_user_private_key_again :
      (create : Bool) (later : ℕ)
      → (key : ℕ) × ((load_user_private_key toml true (some home_dir) random disk).1 ≡ some key)
        × (key ≡ random / 2)
        × (key < 2 ^ 63)
        × (read_text
              (load_user_private_key toml true (some home_dir) random disk).0
              (key_path home_dir)
            ≡ ok text)
        × (load_user_private_key toml create
              (some home_dir)
              later
              (load_user_private_key toml true (some home_dir) random disk).0
            ≡ ((load_user_private_key toml true (some home_dir) random disk).0, some key))
  unfolding load_user_private_key
  load_user_private_key_again create later = rw first_load (
    random / 2,
    refl,
    refl,
    omega arith,
    reads_text,
    ap
        (key_or_default toml create (key_path home_dir) later
          (after disk (key_path home_dir) text usable))
        (internal_present toml (after disk (key_path home_dir) text usable) (key_path home_dir) text
          (random / 2) reads_text parsed),
  )

internal_found :
    (toml : Toml ℕ) (disk : Disk) (path : String) (content : List ℕ)
    → lookup path disk.files ≡ some content
    → load_user_private_key_internal toml disk path ≢ err not_found
unfolding load_user_private_key_internal read_text
internal_found toml disk path content present = ground (arith, present)

kept :
    (toml : Toml ℕ) (create : Bool) (path : String) (random : ℕ) (disk : Disk)
    (r : Result IoError ℕ)
    → r ≢ err not_found
    → (key_or_default toml create path random disk r).0 ≡ disk
kept toml create path random disk (ok key) other_error = refl
kept toml create path random disk (err not_found) other_error = absurd (other_error refl)
kept toml create path random disk (err invalid_data) other_error = ground arith
kept toml create path random disk (err other) other_error = ground arith

-- A key file that is there is never written again, whatever is wrong with it.
pub load_user_private_key_keeps :
    (toml : Toml ℕ) (create : Bool) (home_dir : String) (random : ℕ) (content : List ℕ)
    (disk : Disk) (present : lookup (key_path home_dir) disk.files ≡ some content)
    → (load_user_private_key toml create (some home_dir) random disk).0 ≡ disk
unfolding load_user_private_key
load_user_private_key_keeps toml create home_dir random content disk present =
    kept toml create (key_path home_dir) random disk
      (load_user_private_key_internal toml disk (key_path home_dir))
      (internal_found toml disk (key_path home_dir) content present)
