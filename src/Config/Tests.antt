-- ===== src/Config/Tests.antt =====
-- Configurations at concrete flags and files.
use single_proxy.Base.{Str, codes, [], false, none, some, ◌≡◌, ◌≢◌, ◌⊎◌, refl}
use single_proxy.Config.Types.{FileConfig, default_flags, server_mode, client_mode, validate}
use single_proxy.Config.Merge.{merge_with_file_config}
use single_proxy.Config.Load.{Env, load_config_file, possible_paths, load_with_file}
use single_proxy.Config.Precedence.{
  TakesServer, TakesClient, KeepsAddresses, KeepsListener, KeepsRest, first_loaded, merge_found,
  merge-server_mode, merge-client_mode, load_with_file_lem, http_client-ignores_files,
}
use single_proxy.Base.{◌↔◌, ◌≢◌}
use single_proxy.Config.Types.{Config}
use single_proxy.Samples.{client_file, http_client_flags}

-- Every file is there and holds the sample.
abbrev full_disk : Env
full_disk = record {
  not_exist = λ path. false;
  read_file = λ path. some [];
  unmarshal = λ bytes. some client_file;
  home_dir = some (codes "/root");
  join = λ dir path. dir;
}

merge-server_mode_example :
    let r = merge_with_file_config default_flags client_file server_mode in
    TakesServer default_flags client_file.server r
    × KeepsAddresses default_flags r
    × KeepsRest default_flags r
merge-server_mode_example = merge-server_mode default_flags client_file

merge-client_mode_example :
    let r = merge_with_file_config default_flags client_file client_mode in
    TakesClient default_flags client_file.client r
    × KeepsListener default_flags r
    × KeepsRest default_flags r
merge-client_mode_example = merge-client_mode default_flags client_file

load_with_file_lem_example :
    ((◌≡◌ {A = Str} [] [])
      × (load_with_file full_disk [] default_flags
          ≡ some (
              merge_found full_disk default_flags
                (first_loaded full_disk (possible_paths full_disk)))))
    ⊎ ((◌≢◌ {A = Str} [] [])
        × (load_config_file full_disk [] ≡ none)
        × (load_with_file full_disk [] default_flags ≡ none))
    ⊎ ((file : FileConfig) × (◌≢◌ {A = Str} [] [])
        × (load_config_file full_disk [] ≡ some file)
        × (load_with_file full_disk [] default_flags
            ≡ some (merge_found full_disk default_flags (some file))))
load_with_file_lem_example = load_with_file_lem full_disk [] default_flags

abbrev addressed_flags : Config
addressed_flags = record http_client_flags {
  server_addr = codes "http://a.example";
  target_addr = codes "127.0.0.1:80";
}

http_client-ignores_files_example :
    (addressed_flags ≡ addressed_flags)
    × ((validate addressed_flags ≡ none)
        ↔ ((addressed_flags.server_addr ≢ []) × (addressed_flags.target_addr ≢ [])))
unfolding load_with_file load_config_file merge_with_file_config
http_client-ignores_files_example =
    http_client-ignores_files full_disk (codes "a.yaml") addressed_flags addressed_flags refl refl
