-- ===== src/Config/Options.antt =====
-- src/config.rs: where the executor options are read from.
pub mod Laws
use spraycc.Base.{
  ℕ, String, ◌<>◌, Option, none, some, List, Result, ok, err, or_fail, ◌>>=◌, IoError, not_found,
  invalid_data, ◌≡◌, refl,
}
use spraycc.Base.Maps
use spraycc.Config
use spraycc.Config.{ExecConfig}
use spraycc.Config.Files.{Disk, read_text}

-- `.spraycc` in a directory.
abbrev pub options_path : String → String
options_path dir = dir <> "/.spraycc"

-- `from_str` is `toml::from_str::<ConfigWrapper>` and the field `exec`.
module _ (from_str : List ℕ → Option ExecConfig) where
  unfoldable pub read_config_file : Disk → String → Result IoError ExecConfig
  unfolding read_text
  read_config_file disk path = do text ← read_text disk path; or_fail (from_str text) invalid_data

  -- The branches differ only in what is printed.
  unfoldable pub load_config_file_internal : Disk → String → Result IoError ExecConfig
  unfolding read_config_file
  load_config_file_internal disk path = read_config_file disk path

  abbrev pub config_or : Result IoError ExecConfig → ExecConfig → ExecConfig
  config_or (ok config) otherwise = config
  config_or (err e) otherwise = otherwise

  -- The file of the home directory is tried next.
  abbrev pub load_from_home : Disk → Option String → ExecConfig
  load_from_home disk none = Config.default
  load_from_home disk (some home_dir) =
      config_or (load_config_file_internal disk (options_path home_dir)) Config.default

  -- With the directory that the program runs in.
  unfoldable pub load_config_file : Disk → String → Option String → ExecConfig
  unfolding load_config_file_internal
  load_config_file disk cwd home =
      config_or (load_config_file_internal disk (options_path cwd)) (load_from_home disk home)
