-- ===== src/Main/Tests.antt =====
-- main with concrete flags.
use single_proxy.Base.{ℕ, codes, [], false, true, none, some}
use single_proxy.Config.Types.{Config, default_flags}
use single_proxy.Main.{Os, main}
use single_proxy.Main.Starts.{IsSound, main-IsSound}
use single_proxy.Samples.{client_file}

-- Every file is there and holds the sample; all that is asked succeeds.
abbrev kind_os : Os ℕ
kind_os = record {
  env = record {
    not_exist = λ path. false;
    read_file = λ path. some [];
    unmarshal = λ bytes. some client_file;
    home_dir = none;
    join = λ dir path. path;
  };
  disk = record {
    dir_of = λ path. path;
    make_dir = λ path w. (true, w);
    marshal = λ file. some [];
    write_file = λ path bytes w. (true, w);
  };
  makes_dir = λ path. true;
  opens = λ path. true;
  parse_url = λ text. some (record { scheme = codes "wss"; path = [] });
  takes_url = λ text. true;
}

abbrev client_flags : Config
client_flags = record default_flags { mode = codes "client" }

main-IsSound_example : IsSound kind_os client_flags (main kind_os false client_flags 0)
main-IsSound_example = main-IsSound kind_os client_flags false 0
