-- ===== src/History.antt =====
-- src/history.rs: elapsed times by target. Times are nanoseconds since the epoch. The crate
-- serde_json is a parameter; the home directory is a small record of what its one file holds and
-- of the operations on it that fail.
mod Laws
mod Checks
mod Tests
use mathlib.Core.Option
use spraycc.Base.{
  ℕ, ◌+◌, ◌*◌, ◌/◌, String, Bool, true, false, Option, none, some, List, [], ◌∷◌, Result, ok, err,
  ◌>>=◌, ◌>>◌, require, ltb, if◌then◌else◌,
}
pub use spraycc.Base.{IoError, not_found, invalid_data, other}
use spraycc.Base.Maps
use spraycc.Base.Maps.{Map}

-- The elapsed time and the time of the record.
pub record Timing : Type 0 where
  pub elapsed : ℕ
  pub as_of : ℕ

pub record History : Type 0 where
  pub version : ℕ
  pub history : Map Timing

-- `History::default`
abbrev pub default : History
default = record { version = 1; history = [] }

is_nil : Map Timing → Bool
is_nil [] = true
is_nil (x ∷ m) = false

unfoldable pub is_empty : History → Bool
unfolding is_nil
is_empty h = is_nil h.history

unfoldable pub get : History → String → Option ℕ
get h target = Option.map (λ (v : Timing). v.elapsed) (Maps.lookup target h.history)

-- `now` is what SystemTime::now() returns.
unfoldable pub update : History → String → ℕ → ℕ → History
update h target elapsed now = record h {
  history = Maps.insert target (record { elapsed = elapsed; as_of = now }) h.history;
}

unfoldable pub merge : History → History → History
merge h incoming = record h { history = Maps.extend h.history incoming.history }

-- 3600 * 24 * 366 / 2 seconds.
abbrev pub six_months : ℕ
six_months = 3600 * 24 * 366 / 2 * 1_000_000_000

-- `as_of > now - six_months`, where the difference may lie before the epoch.
abbrev pub is_recent : ℕ → Timing → Bool
is_recent now v = ltb now (v.as_of + six_months)

unfoldable pub purge : ℕ → History → History
purge now h = record h { history = Maps.retain (is_recent now) h.history }

-- What serde_json does.
pub record Json : Type 0 where
  pub from_str : String → Option History
  pub to_vec_pretty : History → Option String

-- The content of ~/.spraycc.history, if it is there, and which operations succeed.
pub record Home : Type 0 where
  pub file : Option String
  pub can_read : Bool
  pub can_create : Bool
  pub can_write : Bool
  pub can_rename : Bool

-- `tmp.as_file().write_all(…)?; tmp.persist(…)?`
unfoldable pub persist : Home → Option String → Result IoError Home
persist home none = ok home
persist home (some text) = do
  require home.can_write other
  require home.can_rename other
  ok (record home { file = some text })

unfoldable pub unwrap_or_default : Result IoError History → History
unwrap_or_default (ok h) = h
unwrap_or_default (err e) = default

module _ (json : Json) where
  unfoldable pub read_history_file : Home → Result IoError History
  read_history_file home = elim home.file [
    | none ↦ err not_found
    | some buf ↦
        if home.can_read
        then elim (json.from_str buf) [ none ↦ err invalid_data | some h ↦ ok h ]
        else err other
  ]

  -- The branches of `load_history_internal` differ only in what they print.
  unfoldable pub load_history_internal : Home → Result IoError History
  unfolding read_history_file
  load_history_internal home = elim (read_history_file home) [
    | ok history ↦ ok history
    | err e ↦ err e
  ]

  -- `none` is a user without a home directory.
  unfoldable pub load_current_history : Option Home → History
  unfolding load_history_internal unwrap_or_default
  load_current_history none = default
  load_current_history (some home) = unwrap_or_default (load_history_internal home)

  -- The file after the call, or the error. Where it fails the file is as it was.
  unfoldable pub write_history_file_internal : History → ℕ → Home → Result IoError Home
  unfolding load_history_internal unwrap_or_default merge purge persist
  write_history_file_internal history now home = do
    require home.can_create other
    let total = merge (unwrap_or_default (load_history_internal home)) history
    persist home (json.to_vec_pretty (purge now total))

  unfoldable pub write_history_file : History → ℕ → Option Home → Result IoError (Option Home)
  unfolding write_history_file_internal
  write_history_file history now none = ok none
  write_history_file history now (some home) = do
    home' ← write_history_file_internal history now home
    ok (some home')
