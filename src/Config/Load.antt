-- ===== src/Config/Load.antt =====
-- LoadConfigFile and LoadWithFile of pkg/config/file.go. The file system, the home directory, path
-- joining and the YAML library are an environment; `none` stands for an error.
use single_proxy.Base.{
  Str, codes, List, [], ◌∷◌, Bool, Option, none, some, ◌==◌, nat_key, str_key, if◌then◌else◌,
}
use single_proxy.Config.Types.{Config, FileConfig}
use single_proxy.Config.Merge.{merge_with_file_config}

pub record Env : Type 0 where
  -- os.IsNotExist of the error of os.Stat
  pub not_exist : Str → Bool
  pub read_file : Str → Option Str
  pub unmarshal : Str → Option FileConfig
  pub home_dir : Option Str
  pub join : Str → Str → Str

module _ (env : Env) where
  unfoldable pub load_config_file : Str → Option FileConfig
  load_config_file filename =
      if env.not_exist filename
      then none
      else elim (env.read_file filename) [ none ↦ none | some bytes ↦ env.unmarshal bytes ]

  abbrev pub possible_paths : List Str
  possible_paths =
      codes "./singleproxy.yaml"
      ∷ codes "./config/singleproxy.yaml"
      ∷ codes "~/.singleproxy.yaml"
      ∷ codes "/etc/singleproxy.yaml"
      ∷ []

  -- path[0] == '~': the rest is joined to the home directory, if that is known.
  unfoldable pub expand : Str → Str
  expand [] = []
  expand (c ∷ path) =
      if c == b'~'
      then elim env.home_dir [ none ↦ c ∷ path | some home ↦ env.join home path ]
      else c ∷ path

  -- The loop over the places, which ends at the first file that loads.
  unfoldable pub search_paths : List Str → Config → Config
  search_paths [] config = config
  search_paths (path ∷ paths) config = elim (load_config_file (expand path)) [
    | none ↦ search_paths paths config
    | some file ↦ merge_with_file_config config file config.mode
  ]

  unfoldable pub load_with_file : Str → Config → Option Config
  load_with_file [] base = some (search_paths possible_paths base)
  load_with_file (c ∷ path) base = elim (load_config_file (c ∷ path)) [
    | none ↦ none
    | some file ↦ some (merge_with_file_config base file base.mode)
  ]
