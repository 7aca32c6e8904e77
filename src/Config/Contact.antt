-- ===== src/Config/Contact.antt =====
-- src/config.rs: the file by which clients find the server. A directory is the list of the names on
-- its path, the innermost first. The crate toml is a parameter.
pub mod Paths
pub mod Laws
use spraycc.Base.{
  ℕ, String, ◌<>◌, Bool, true, false, Option, none, some, List, [], ◌∷◌, Result, ok, err, require,
  ◌>>=◌, ◌>>◌, or_fail, if◌then◌else◌, IoError, other,
}
use spraycc.Base.Maps
use spraycc.Ipc.{CallMe}
use spraycc.Config.Files.{Disk, read_text, write_text, remove, put, content_of}

-- `toml::to_string` and `toml::from_str`; `none` is an error.
pub record Toml (A : Type 0) : Type 0 where
  pub to_string : A → Option (List ℕ)
  pub from_str : List ℕ → Option A

abbrev pub path_of : List String → String
path_of [] = ""
path_of (name ∷ dirs) = path_of dirs <> ("/" <> name)

-- `CONNECT_FILE` in a directory.
abbrev pub contact_path : List String → String
contact_path dirs = path_of dirs <> "/.spraycc-server"

-- `toml::to_string(…).unwrap()` panics.
pub data ContactFault : Type 0 where
  io : IoError → ContactFault
  unserializable : ContactFault

abbrev pub exists : Disk → String → Bool
exists disk path = elim (Maps.lookup path disk.files) [ none ↦ false | some content ↦ true ]

abbrev pub ok_value {ℓ} : {E : Type 0} {A : Type ℓ} → Result E A → Option A
ok_value (ok a) = some a
ok_value (err e) = none

abbrev pub from_io : Disk × Result IoError (Unit {0}) → Disk × Result ContactFault (Unit {0})
from_io (disk, ok u) = (disk, ok u)
from_io (disk, err e) = (disk, err (io e))

module _ (toml : Toml CallMe) where
  -- The text is made when the file is open.
  unfoldable pub write_server_contact_info :
      List String → CallMe → Disk → Disk × Result ContactFault (Unit {0})
  unfolding write_text
  write_server_contact_info cwd callme disk =
      if disk.creates (contact_path cwd)
      then elim (toml.to_string callme) [
        | none ↦
            (put (contact_path cwd) (content_of disk (contact_path cwd)) disk, err unserializable)
        | some text ↦ from_io (write_text (contact_path cwd) text disk)
      ]
      else (disk, err (io other))

  -- The errors differ only in what is printed.
  unfoldable pub deserialize_contact_info : Disk → String → Option CallMe
  unfolding read_text
  deserialize_contact_info disk path = elim (read_text disk path) [
    | ok text ↦ toml.from_str text
    | err e ↦ none
  ]

  -- A step to the parent stops at the root.
  unfoldable pub read_server_contact_info_from : Disk → List String → Option CallMe
  unfolding deserialize_contact_info
  read_server_contact_info_from disk [] =
      if exists disk (contact_path [])
      then deserialize_contact_info disk (contact_path [])
      else none
  read_server_contact_info_from disk (name ∷ dirs) =
      if exists disk (contact_path (name ∷ dirs))
      then deserialize_contact_info disk (contact_path (name ∷ dirs))
      else read_server_contact_info_from disk dirs

-- `ServerConfigCleanup::drop`, whose error is dropped. `can` is whether the file can be removed.
unfoldable pub drop_cleanup : Bool → List String → Disk → Disk
unfolding remove
drop_cleanup can cwd disk =
    if can then record disk { files = remove (contact_path cwd) disk.files } else disk
