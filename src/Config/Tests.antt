-- ===== src/Config/Tests.antt =====
-- src/config.rs: a small disk, and the theorems on it.
use spraycc.Base.{
  ℕ, ◌≤◌, ◌<◌, ◌^◌, ◌⊎◌, ◌↔◌, String, Bool, true, false, Option, none, some, List, [], ◌∷◌, ◌++◌,
  Result, ok, err, length, ◌≡◌, refl, arith, if◌then◌else◌, str_eq,
}
use spraycc.Base.Maps.{lookup, or_else}
use spraycc.Ipc.{CallMe}
use spraycc.Config
use spraycc.Config.{ExecConfig}
use spraycc.Config.Files.{Disk, content_of, read_text}
use spraycc.Config.Files.Laws.{Usable}
use spraycc.Config.Contact.{
  Toml, contact_path, write_server_contact_info, read_server_contact_info_from, drop_cleanup,
}
use spraycc.Config.Contact.Laws.{
  write_server_contact_info-read_server_contact_info_from, write_server_contact_info_lem,
  drop_cleanup-write_server_contact_info,
}
use spraycc.Config.PrivateKey.{load_user_private_key}
use spraycc.Config.PrivateKey.Laws.{load_user_private_key_again, load_user_private_key_keeps}
use spraycc.Config.Options.{load_config_file}
use spraycc.Config.Options.Laws.{config_at, config_at_home, value_or, load_config_file_lem}
use spraycc.Config.Limits.{increased, setup_process_file_limit}

abbrev callme : CallMe
callme = record { addr = "host:1"; access_code = 7 }

-- The text is the access code, twice.
abbrev printed_callme : CallMe → Option (List ℕ)
printed_callme c = some (c.access_code ∷ c.access_code ∷ [])

abbrev parsed_callme : List ℕ → Option CallMe
parsed_callme (code ∷ _ ∷ []) = some (record { addr = "host:1"; access_code = code })
parsed_callme _ = none

abbrev callme_toml : Toml CallMe
callme_toml = record { to_string = printed_callme; from_str = parsed_callme }

abbrev disk_with : List (String × List ℕ) → Disk
disk_with files = record {
  files = files;
  opens = λ path. true;
  reads = λ path. true;
  creates = λ path. true;
  writes = λ path. true;
}

abbrev disk : Disk
disk = disk_with (("/src/.spraycc-server", 5 ∷ []) ∷ ("/src/main.c", 1 ∷ 2 ∷ []) ∷ [])

usable : (files : List (String × List ℕ)) (path : String) → Usable (disk_with files) path
usable files path = record { opened = refl; read = refl; created = refl; written = refl }

write_server_contact_info-read_server_contact_info_from_example :
    ((write_server_contact_info callme_toml ("src" ∷ []) callme disk).1 ≡ ok tt)
    × (read_server_contact_info_from callme_toml
          (write_server_contact_info callme_toml ("src" ∷ []) callme disk).0
          (("lib" ∷ []) ++ "src" ∷ [])
        ≡ some callme)
unfolding lookup
write_server_contact_info-read_server_contact_info_from_example =
    write_server_contact_info-read_server_contact_info_from callme_toml ("lib" ∷ []) ("src" ∷ [])
      callme (7 ∷ 7 ∷ []) disk (usable _ _) refl refl (omega arith) (refl, tt)

write_server_contact_info_lem_example :
    (content_of
        (write_server_contact_info callme_toml ("src" ∷ []) callme disk).0
        (contact_path ("src" ∷ []))
      ≡ 7 ∷ 7 ∷ [])
    ↔ (length (content_of disk (contact_path ("src" ∷ []))) ≤ 2)
write_server_contact_info_lem_example =
    write_server_contact_info_lem callme_toml ("src" ∷ []) callme (7 ∷ 7 ∷ []) disk (usable _ _)
      refl

drop_cleanup-write_server_contact_info_example :
    lookup "/src/main.c"
      (drop_cleanup true
        ("src" ∷ [])
        (write_server_contact_info callme_toml ("src" ∷ []) callme disk).0).files
    ≡ (if str_eq (contact_path ("src" ∷ [])) "/src/main.c"
        then none
        else lookup "/src/main.c" disk.files)
drop_cleanup-write_server_contact_info_example =
    drop_cleanup-write_server_contact_info callme_toml ("src" ∷ []) callme (7 ∷ 7 ∷ []) disk
      (usable _ _) refl "/src/main.c"

-- The tail of a longer file is left behind the new text.
stale :
    content_of
      (write_server_contact_info callme_toml [] callme
        (disk_with (("/.spraycc-server", 1 ∷ 2 ∷ 3 ∷ []) ∷ []))).0
      "/.spraycc-server"
    ≡ 7 ∷ 7 ∷ 3 ∷ []
unfolding write_server_contact_info lookup spraycc.Base.Maps.insert
stale = refl

abbrev parsed_key : List ℕ → Option ℕ
parsed_key (key ∷ []) = some key
parsed_key _ = none

abbrev key_toml : Toml ℕ
key_toml = record { to_string = λ key. some (key ∷ []); from_str = parsed_key }

load_user_private_key_again_example :
    (key : ℕ) × ((load_user_private_key key_toml true (some "/home/me") 9 disk).1 ≡ some key)
    × (key ≡ 4)
    × (key < 2 ^ 63)
    × (read_text
          (load_user_private_key key_toml true (some "/home/me") 9 disk).0
          "/home/me/.spraycc.private"
        ≡ ok (4 ∷ []))
    × (load_user_private_key key_toml false
          (some "/home/me")
          5
          (load_user_private_key key_toml true (some "/home/me") 9 disk).0
        ≡ ((load_user_private_key key_toml true (some "/home/me") 9 disk).0, some key))
unfolding lookup
load_user_private_key_again_example =
    load_user_private_key_again key_toml "/home/me" 9 (4 ∷ []) disk refl (usable _ _) refl refl
      (omega arith) false 5

abbrev with_key : Disk
with_key = disk_with (("/home/me/.spraycc.private", 1 ∷ 2 ∷ []) ∷ [])

load_user_private_key_keeps_example :
    (load_user_private_key key_toml true (some "/home/me") 9 with_key).0 ≡ with_key
unfolding lookup
load_user_private_key_keeps_example =
    load_user_private_key_keeps key_toml true "/home/me" 9 (1 ∷ 2 ∷ []) with_key refl

abbrev parsed_options : List ℕ → Option ExecConfig
parsed_options (n ∷ []) = some (record Config.default { max_count = n })
parsed_options _ = none

abbrev with_options : Disk
with_options = disk_with (("/src/.spraycc", []) ∷ ("/home/me/.spraycc", 8 ∷ []) ∷ [])

load_config_file_lem_example :
    load_config_file parsed_options with_options "/src" (some "/home/me")
    ≡ value_or
        (or_else
          (config_at parsed_options with_options "/src")
          (config_at_home parsed_options with_options (some "/home/me")))
        Config.default
load_config_file_lem_example =
    load_config_file_lem parsed_options with_options "/src" (some "/home/me")

options_of_home :
    load_config_file parsed_options with_options "/src" (some "/home/me")
    ≡ record Config.default { max_count = 8 }
unfolding load_config_file lookup
options_of_home = refl

raised_limit :
    setup_process_file_limit true
      (λ n. true)
      (some (record { soft_limit = 1024; hard_limit = 3000 }))
    ≡ (some (record { soft_limit = 3000; hard_limit = 3000 }), increased)
unfolding setup_process_file_limit
raised_limit = refl
