-- ===== src/Config/Options/Laws.antt =====
-- src/config.rs: the first file that can be read gives the options.
use spraycc.Base.{
  arith, IoError, invalid_data, ◌∙◌, ℕ, String, Option, none, some, List, Result, ok, err, ◌≡◌,
  refl, ◌>>=◌, or_fail, ap,
}
use spraycc.Base.Maps.{or_else}
use spraycc.Config
use spraycc.Config.{ExecConfig}
use spraycc.Config.Files.{Disk, read_text}
use spraycc.Config.Options.{
  options_path, config_or, load_from_home, load_config_file, load_config_file_internal,
  read_config_file,
}

-- The options in a file, when it can be read and parsed.
abbrev pub config_at : (List ℕ → Option ExecConfig) → Disk → String → Option ExecConfig
config_at from_str disk dir = elim (read_text disk (options_path dir)) [
  | ok text ↦ from_str text
  | err e ↦ none
]

abbrev pub config_at_home : (List ℕ → Option ExecConfig) → Disk → Option String → Option ExecConfig
config_at_home from_str disk none = none
config_at_home from_str disk (some home_dir) = config_at from_str disk home_dir

-- What it holds, if anything, with a default.
abbrev pub value_or : Option ExecConfig → ExecConfig → ExecConfig
value_or none c = c
value_or (some c) other = c

parsed_lem :
    (from_str : List ℕ → Option ExecConfig) (r : Result IoError (List ℕ)) (otherwise : ExecConfig)
    → config_or from_str (r >>= λ text. or_fail (from_str text) invalid_data) otherwise
      ≡ value_or (elim r [ ok text ↦ from_str text | err e ↦ none ]) otherwise
parsed_lem from_str (ok text) otherwise = ground arith
parsed_lem from_str (err e) otherwise = refl

home_lem :
    (from_str : List ℕ → Option ExecConfig) (disk : Disk) (home : Option String)
    → load_from_home from_str disk home
      ≡ value_or (config_at_home from_str disk home) Config.default
unfolding load_config_file_internal read_config_file
home_lem from_str disk none = refl
home_lem from_str disk (some home_dir) =
    parsed_lem from_str (read_text disk (options_path home_dir)) Config.default

value_or-or_else :
    (o o' : Option ExecConfig) (c : ExecConfig)
    → value_or o (value_or o' c) ≡ value_or (or_else o o') c
value_or-or_else none o' c = refl
value_or-or_else (some v) o' c = refl

-- The options are those of the first file that can be read and parsed, of the current directory and
-- then of the home directory, and the defaults when neither can.
pub load_config_file_lem :
    (from_str : List ℕ → Option ExecConfig) (disk : Disk) (cwd : String) (home : Option String)
    → load_config_file from_str disk cwd home
      ≡ value_or
          (or_else (config_at from_str disk cwd) (config_at_home from_str disk home))
          Config.default
unfolding load_config_file load_config_file_internal read_config_file
load_config_file_lem from_str disk cwd home =
    parsed_lem from_str (read_text disk (options_path cwd)) (load_from_home from_str disk home)
    ∙ ap (value_or (config_at from_str disk cwd)) (home_lem from_str disk home)
    ∙ value_or-or_else (config_at from_str disk cwd) (config_at_home from_str disk home)
        Config.default
