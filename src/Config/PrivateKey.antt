-- ===== src/Config/PrivateKey.antt =====
-- src/config.rs: the key of a user, in ~/.spraycc.private.
pub mod Laws
use spraycc.Base.{
  ℕ, ◌/◌, String, ◌<>◌, Bool, true, false, ◌&&◌, Option, none, some, List, [], ◌∷◌, Result, ok, err,
  or_fail, ◌>>=◌, if◌then◌else◌, IoError, not_found, invalid_data, other,
}
use spraycc.Config.Files.{Disk, read_text, write_text, put, content_of}
use spraycc.Config.Contact.{Toml}

abbrev pub key_path : String → String
key_path home_dir = home_dir <> "/.spraycc.private"

abbrev pub is_not_found : IoError → Bool
is_not_found not_found = true
is_not_found _ = false

module _ (toml : Toml ℕ) where
  unfoldable pub load_user_private_key_internal : Disk → String → Result IoError ℕ
  unfolding read_text
  load_user_private_key_internal disk path = do
    text ← read_text disk path
    or_fail (toml.from_str text) invalid_data

  -- The key written, or the error of the write.
  abbrev pub generated : ℕ → Disk × Result IoError (Unit {0}) → Disk × Option (Result IoError ℕ)
  generated key (disk, ok u) = (disk, some (ok key))
  generated key (disk, err e) = (disk, some (err e))

  -- `rand::random::<u64>() >> 1`, and the text of it when the file is open. `none` is the panic of `unwrap`.
  unfoldable pub write_user_private_key : String → ℕ → Disk → Disk × Option (Result IoError ℕ)
  unfolding write_text
  write_user_private_key path random disk =
      if disk.creates path
      then elim (toml.to_string (random / 2)) [
        | none ↦ (put path (content_of disk path) disk, none)
        | some text ↦ generated (random / 2) (write_text path text disk)
      ]
      else (disk, some (err other))

  -- The key after an attempt to make one.
  abbrev pub made_or_default : Disk × Option (Result IoError ℕ) → Disk × Option ℕ
  made_or_default (disk, none) = (disk, none)
  made_or_default (disk, some (ok key)) = (disk, some key)
  made_or_default (disk, some (err e)) = (disk, some 13)

  -- The arms of the match on the first reading.
  abbrev pub key_or_default : Bool → String → ℕ → Disk → Result IoError ℕ → Disk × Option ℕ
  key_or_default create path random disk (ok key) = (disk, some key)
  key_or_default create path random disk (err e) =
      if create && is_not_found e
      then made_or_default (write_user_private_key path random disk)
      else (disk, some 13)

  -- The key; `none` is a panic. Without a home directory it is 13.
  unfoldable pub load_user_private_key : Bool → Option String → ℕ → Disk → Disk × Option ℕ
  unfolding load_user_private_key_internal write_user_private_key
  load_user_private_key create none random disk = (disk, some 13)
  load_user_private_key create (some home_dir) random disk =
      key_or_default create (key_path home_dir) random disk
        (load_user_private_key_internal disk (key_path home_dir))
