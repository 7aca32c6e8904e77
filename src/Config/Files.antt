-- ===== src/Config/Files.antt =====
-- src/config.rs: the files of a host, as `OpenOptions`, `read_to_string` and `write_all` see them. A
-- path is a text, and the content of a file is its bytes.
pub mod Laws
use spraycc.Base.{
  ℕ, zero, suc, String, Bool, true, false, Option, none, some, List, [], ◌∷◌, ◌++◌, Result, ok, err,
  or_fail, require, ◌>>=◌, ◌>>◌, length, IoError, not_found, invalid_data, other, str_eq,
  if◌then◌else◌,
}
use spraycc.Base.Maps
use spraycc.Base.Maps.{Map}

-- The files, and on which paths the calls succeed: opening to read, reading a text, opening to write
-- (which makes a file that is not there) and writing. A write that fails is taken to write nothing.
pub record Disk : Type 0 where
  pub files : Map (List ℕ)
  pub opens : String → Bool
  pub reads : String → Bool
  pub creates : String → Bool
  pub writes : String → Bool

-- `OpenOptions::new().read(true).open(path)?` and `read_to_string(…)?`
unfoldable pub read_text : Disk → String → Result IoError (List ℕ)
read_text disk path = do
  content ← or_fail (Maps.lookup path disk.files) not_found
  require (disk.opens path) other
  require (disk.reads path) invalid_data
  ok content

abbrev pub drop : ℕ → List ℕ → List ℕ
drop zero bs = bs
drop (suc n) [] = []
drop (suc n) (b ∷ bs) = drop n bs

-- A write at the start of a file that is not truncated.
abbrev pub overwrite : List ℕ → List ℕ → List ℕ
overwrite new old = new ++ drop (length new) old

abbrev pub content_of : Disk → String → List ℕ
content_of disk path = elim (Maps.lookup path disk.files) [ none ↦ [] | some bytes ↦ bytes ]

abbrev pub put : String → List ℕ → Disk → Disk
put path content disk = record disk { files = Maps.insert path content disk.files }

-- `OpenOptions::new().create(true).write(true).open(path)?` and `write_all(content)?`
unfoldable pub write_text : String → List ℕ → Disk → Disk × Result IoError (Unit {0})
write_text path content disk =
    if disk.creates path
    then (if disk.writes path
        then (put path (overwrite content (content_of disk path)) disk, ok tt)
        else (put path (content_of disk path) disk, err other))
    else (disk, err other)

-- `std::fs::remove_file`
unfoldable pub remove : String → Map (List ℕ) → Map (List ℕ)
remove path [] = []
remove path ((name, content) ∷ files) =
    let rest = remove path files in if str_eq name path then rest else (name, content) ∷ rest
