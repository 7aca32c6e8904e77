-- ===== src/Config/Checks.antt =====
-- src/config.rs: the tests of the file, as functions into Bool, and that they pass with any crate that
-- reads back what it wrote. The mode of a file is left out.
use spraycc.Base.{
  ℕ, ◌/◌, ◌≡◌, refl, arith, String, Bool, true, false, ◌&&◌, Option, none, some, List, [], ◌∷◌,
  Result, ok, err, IoError, ◌==◌, str_eq,
}
use spraycc.Base.Maps
use spraycc.Ipc.{CallMe}
use spraycc.Config.Files.{Disk, read_text, write_text, remove}
use spraycc.Config.Files.Laws.{overwrite_fits}
use spraycc.Config.Contact.{
  Toml, write_server_contact_info, read_server_contact_info_from, deserialize_contact_info,
  drop_cleanup,
}
use spraycc.Config.PrivateKey.{write_user_private_key, load_user_private_key_internal}

-- A disk without files, on which every call succeeds.
abbrev pub empty_disk : Disk
empty_disk = record {
  files = [];
  opens = λ path. true;
  reads = λ path. true;
  creates = λ path. true;
  writes = λ path. true;
}

abbrev is_none : Option CallMe → Bool
is_none none = true
is_none (some c) = false

abbrev same_info : CallMe → Option CallMe → Bool
same_info config none = false
same_info config (some c2) = str_eq c2.addr config.addr && c2.access_code == config.access_code

-- In the directory /d.
unfoldable pub config_read_write_callme : Toml CallMe → Bool
unfolding write_server_contact_info read_server_contact_info_from drop_cleanup
config_read_write_callme toml =
    let config : CallMe = record { addr = "192.168.5.6:1234"; access_code = 6789 } in
    let cwd = "d" ∷ [] in
    let written = write_server_contact_info toml cwd config empty_disk in
    same_info config (read_server_contact_info_from toml written.0 cwd)
    && is_none (read_server_contact_info_from toml (drop_cleanup true cwd written.0) cwd)

abbrev is_err : Result IoError ℕ → Bool
is_err (ok key) = false
is_err (err e) = true

abbrev same_key : Option (Result IoError ℕ) → Result IoError ℕ → Bool
same_key (some (ok value_new)) (ok value_reread) = value_new == value_reread
same_key _ _ = false

unfoldable pub config_read_write_private_key : Toml ℕ → ℕ → Bool
unfolding write_user_private_key load_user_private_key_internal
config_read_write_private_key toml random =
    let private_file : String = "./tmp/private" in
    let (disk, value_new) = write_user_private_key toml private_file random empty_disk in
    is_err (load_user_private_key_internal toml empty_disk private_file)
    && same_key value_new (load_user_private_key_internal toml disk private_file)

-- The crate toml reads back what it wrote.
abbrev ReadsBack : {A : Type 0} → Toml A → Type 0
ReadsBack {A} toml =
    (a : A) → (text : List ℕ) × (toml.to_string a ≡ some text) × (toml.from_str text ≡ some a)

config_read_write_callme_lem :
    (toml : Toml CallMe) → ReadsBack toml → config_read_write_callme toml ≡ true
unfolding config_read_write_callme write_server_contact_info read_server_contact_info_from
    deserialize_contact_info drop_cleanup remove read_text write_text Maps.lookup Maps.insert
config_read_write_callme_lem toml back =
    let (text, wrote, read) = back (record { addr = "192.168.5.6:1234"; access_code = 6789 }) in
    rw (wrote, overwrite_fits text [] (omega arith), read) refl

config_read_write_private_key_lem :
    (toml : Toml ℕ) (random : ℕ) → ReadsBack toml → config_read_write_private_key toml random ≡ true
unfolding config_read_write_private_key write_user_private_key load_user_private_key_internal
    read_text write_text Maps.lookup Maps.insert
config_read_write_private_key_lem toml random back =
    let (text, wrote, read) = back (random / 2) in
    rw (wrote, overwrite_fits text [] (omega arith), read) (ground arith)
