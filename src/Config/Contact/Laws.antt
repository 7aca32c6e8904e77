-- ===== src/Config/Contact/Laws.antt =====
-- src/config.rs: the contact file, written, found and removed.
use spraycc.Base.{
  ℕ, ◌≤◌, ◌↔◌, String, true, none, some, List, [], ◌∷◌, ◌++◌, ok, err, length, ◌≡◌, refl, ap,
  eq_iff, str_eq, arith, if◌then◌else◌, ◌∙◌,
}
use spraycc.Base.Maps.{lookup, insert, lookup-insert}
use spraycc.Ipc.{CallMe}
use spraycc.Config.Files.{Disk, overwrite, content_of, put}
use spraycc.Config.Contact.{
  Toml, contact_path, write_server_contact_info, deserialize_contact_info,
  read_server_contact_info_from, drop_cleanup,
}
use spraycc.Config.Files.Laws.{
  Usable, after, write_text_lem, read_text_lem, written_at, content_after, overwrite_fits,
  overwrite_iff, lookup-remove,
}
use spraycc.Config.Contact.Paths.{contact_path_apart}

module _ (toml : Toml CallMe) (cwd : List String) (callme : CallMe) (text : List ℕ) (disk : Disk)
    (usable : Usable disk (contact_path cwd)) (printed : toml.to_string callme ≡ some text) where
  contact_written :
      write_server_contact_info toml cwd callme disk
      ≡ (after disk (contact_path cwd) text usable, ok tt)
  unfolding write_server_contact_info
  contact_written =
      rw (usable.created, printed, write_text_lem disk (contact_path cwd) text usable) refl

  contact_read :
      deserialize_contact_info toml (after disk (contact_path cwd) text usable) (contact_path cwd)
      ≡ toml.from_str (overwrite text (content_of disk (contact_path cwd)))
  unfolding deserialize_contact_info
  contact_read =
      ap (λ r. elim r [ ok t ↦ toml.from_str t | err e ↦ none ])
        (read_text_lem disk (contact_path cwd) text usable)

module _ (toml : Toml CallMe) where
  -- No contact file in the directories between `cwd` and the one below it.
  abbrev pub NoneBetween : List String → List String → Disk → Type 0
  NoneBetween [] cwd disk = Unit
  NoneBetween (name ∷ below) cwd disk =
      (lookup (contact_path (name ∷ below ++ cwd)) disk.files ≡ none) × NoneBetween below cwd disk

  found_at :
      (disk : Disk) (dirs : List String) (content : List ℕ)
      → lookup (contact_path dirs) disk.files ≡ some content
      → read_server_contact_info_from toml disk dirs
        ≡ deserialize_contact_info toml disk (contact_path dirs)
  unfolding read_server_contact_info_from
  found_at disk [] content h = ground arith
  found_at disk (name ∷ dirs) content h = ground arith

  found_below :
      (disk : Disk) (below cwd : List String) (text : List ℕ)
      → NoneBetween below cwd disk
      → lookup (contact_path cwd) disk.files ≡ some text
      → read_server_contact_info_from toml disk (below ++ cwd)
        ≡ deserialize_contact_info toml disk (contact_path cwd)
  unfolding read_server_contact_info_from
  found_below disk [] cwd text clear h = found_at disk cwd text h
  found_below disk (name ∷ below) cwd text (gone, clear) h =
      ground (arith, gone, found_below disk below cwd text clear h)

  still_clear :
      (disk : Disk) (below cwd : List String) (content : List ℕ)
      → NoneBetween below cwd disk
      → NoneBetween below cwd (put (contact_path cwd) content disk)
  still_clear disk [] cwd content clear = tt
  still_clear disk (name ∷ below) cwd content (gone, clear) = (
    ground (
      arith,
      gone,
      contact_path_apart name below cwd,
      eq_iff (contact_path cwd) (contact_path (name ∷ below ++ cwd)),
      lookup-insert (contact_path cwd) (contact_path (name ∷ below ++ cwd)) content disk.files,
    ),
    still_clear disk below cwd content clear,
  )

  -- Once the server has written its address where a client can read it back (the file opens, is written
  -- and is read, the text parses back, and no older file is longer), a client in that directory, or in
  -- one below it with no contact file between, finds the address.
  pub write_server_contact_info-read_server_contact_info_from :
      (below cwd : List String) (callme : CallMe) (text : List ℕ) (disk : Disk)
      (usable : Usable disk (contact_path cwd)) (printed : toml.to_string callme ≡ some text)
      (parsed : toml.from_str text ≡ some callme)
      (fits : length (content_of disk (contact_path cwd)) ≤ length text)
      (clear : NoneBetween below cwd disk)
      → ((write_server_contact_info toml cwd callme disk).1 ≡ ok tt)
        × (read_server_contact_info_from toml
              (write_server_contact_info toml cwd callme disk).0
              (below ++ cwd)
            ≡ some callme)
  write_server_contact_info-read_server_contact_info_from below cwd callme text disk usable printed
        parsed fits clear =
      rw (contact_written toml cwd callme text disk usable printed) (
        refl,
        found_below (after disk (contact_path cwd) text usable) below cwd
              (overwrite text (content_of disk (contact_path cwd)))
              (still_clear disk below cwd _ clear) (written_at disk (contact_path cwd) text usable)
            ∙ contact_read toml cwd callme text disk usable printed
            ∙ rw (overwrite_fits text (content_of disk (contact_path cwd)) fits) parsed,
      )

-- When the server writes its address over an older contact file, the file then holds the new text
-- alone exactly when the old one was not longer. The file is not truncated.
pub write_server_contact_info_lem :
    (toml : Toml CallMe) (cwd : List String) (callme : CallMe) (text : List ℕ) (disk : Disk)
    (usable : Usable disk (contact_path cwd)) (printed : toml.to_string callme ≡ some text)
    → (content_of (write_server_contact_info toml cwd callme disk).0 (contact_path cwd) ≡ text)
      ↔ (length (content_of disk (contact_path cwd)) ≤ length text)
write_server_contact_info_lem toml cwd callme text disk usable printed =
    rw
      (
        contact_written toml cwd callme text disk usable printed,
        content_after disk (contact_path cwd) text usable,
      )
      (overwrite_iff text (content_of disk (contact_path cwd)))

-- Once the address is written, the cleanup when the server ends removes the contact file, when it can
-- be removed, and every other file is as before the server started.
pub drop_cleanup-write_server_contact_info :
    (toml : Toml CallMe) (cwd : List String) (callme : CallMe) (text : List ℕ) (disk : Disk)
    (usable : Usable disk (contact_path cwd)) (printed : toml.to_string callme ≡ some text)
    (asked : String)
    → lookup asked (drop_cleanup true cwd (write_server_contact_info toml cwd callme disk).0).files
      ≡ (if str_eq (contact_path cwd) asked then none else lookup asked disk.files)
unfolding drop_cleanup
drop_cleanup-write_server_contact_info toml cwd callme text disk usable printed asked =
    let path = contact_path cwd in
    let content = overwrite text (content_of disk path) in
    rw
      (
        contact_written toml cwd callme text disk usable printed,
        lookup-remove path asked (insert path content disk.files),
      )
      (ground (arith, lookup-insert path asked content disk.files))
