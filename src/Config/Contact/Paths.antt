-- ===== src/Config/Contact/Paths.antt =====
-- src/config.rs: the paths of the contact files of a directory and of those below it differ.
use spraycc.Base.{◌≤◌, String, ◌<>◌, List, [], ◌∷◌, ◌++◌, ◌≢◌, ap, arith}
use Prim.Native.String.{count}
use text.Mathlib.TextLemmas.{length-append}
use spraycc.Config.Contact.{path_of, contact_path}

path_of_le : (below dirs : List String) → count (path_of dirs) ≤ count (path_of (below ++ dirs))
path_of_le [] dirs = omega arith
path_of_le (name ∷ below) dirs =
    omega (arith, path_of_le below dirs, length-append (path_of (below ++ dirs)) ("/" <> name))

pub contact_path_apart :
    (name : String) (below dirs : List String)
    → contact_path dirs ≢ contact_path (name ∷ below ++ dirs)
contact_path_apart name below dirs e = omega (
  arith,
  ap count e,
  path_of_le below dirs,
  length-append (path_of dirs) "/.spraycc-server",
  length-append (path_of (name ∷ below ++ dirs)) "/.spraycc-server",
  length-append (path_of (below ++ dirs)) ("/" <> name),
  length-append "/" name,
)
