-- ===== src/Config/Save.antt =====
-- SaveConfigFile and GenerateExampleConfig of pkg/config/file.go. The disk and the YAML library are
-- a parameter.
use single_proxy.Base.{Str, codes, Bool, false, Option, none, some, if◌then◌else◌}
use single_proxy.Base.Int.{pos}
use single_proxy.Config.Types.{FileConfig}

-- filepath.Dir, os.MkdirAll, yaml.Marshal and ioutil.WriteFile, with whether they succeed.
pub record Disk (World : Type 0) : Type 0 where
  pub dir_of : Str → Str
  pub make_dir : Str → World → Bool × World
  pub marshal : FileConfig → Option Str
  pub write_file : Str → Str → World → Bool × World

abbrev pub example_config : FileConfig
example_config = record {
  server = record {
    listen_port = codes "443";
    cert_file = codes "/path/to/cert.pem";
    key_file = codes "/path/to/key.pem";
    ip_rate_limit = pos 100;
    key_rate_limit = pos 50;
  };
  client = record {
    server_addr = codes "wss://your-domain.com";
    target_addr = codes "127.0.0.1:8080";
    key = codes "your-service-key";
    insecure = false;
  };
  global = record { log_level = codes "info"; log_file = codes "/var/log/singleproxy.log" };
}

module _ {World : Type 0} (disk : Disk World) where
  unfoldable pub save_config_file : Str → FileConfig → World → Bool × World
  save_config_file filename file w =
      let (made, w') = disk.make_dir (disk.dir_of filename) w in
      if made
      then elim (disk.marshal file) [
        | none ↦ (false, w')
        | some bytes ↦ disk.write_file filename bytes w'
      ]
      else (false, w')

  unfoldable pub generate_example_config : Str → World → Bool × World
  unfolding save_config_file
  generate_example_config filename w = save_config_file filename example_config w
