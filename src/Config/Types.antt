-- ===== src/Config/Types.antt =====
-- pkg/config/config.go, and the records of pkg/config/file.go.
use single_proxy.Base.{
  Str, codes, [], Bool, false, not, ◌&&◌, ◌||◌, Option, none, some, ◌==◌, if◌then◌else◌, str_key,
}
use single_proxy.Base.Int.{ℤ, pos}

pub record Config : Type 0 where
  pub mode : Str
  pub listen_port : Str
  pub server_addr : Str
  pub target_addr : Str
  pub key : Str
  pub cert_file : Str
  pub key_file : Str
  pub insecure : Bool
  pub ip_rate_limit : ℤ
  pub key_rate_limit : ℤ
  pub log_level : Str
  pub log_file : Str
  pub log_format : Str
  pub config_file : Str

pub record ServerConfig : Type 0 where
  pub listen_port : Str
  pub cert_file : Str
  pub key_file : Str
  pub ip_rate_limit : ℤ
  pub key_rate_limit : ℤ

pub record ClientConfig : Type 0 where
  pub server_addr : Str
  pub target_addr : Str
  pub key : Str
  pub insecure : Bool

pub record GlobalConfig : Type 0 where
  pub log_level : Str
  pub log_file : Str

pub record FileConfig : Type 0 where
  pub server : ServerConfig
  pub client : ClientConfig
  pub global : GlobalConfig

-- What ParseFlags leaves in the fields of flags that are not given.
abbrev pub default_flags : Config
default_flags = record {
  mode = codes "server";
  listen_port = codes "443";
  server_addr = [];
  target_addr = [];
  key = codes "default";
  cert_file = [];
  key_file = [];
  insecure = false;
  ip_rate_limit = pos 0;
  key_rate_limit = pos 0;
  log_level = codes "info";
  log_file = [];
  log_format = codes "text";
  config_file = [];
}

abbrev pub server_mode : Str
server_mode = codes "server"

abbrev pub client_mode : Str
client_mode = codes "client"

abbrev pub http_client_mode : Str
http_client_mode = codes "http-client"

pub data ConfigError : Type 0 where
  bad_mode : ConfigError
  missing_address : Str → ConfigError

-- (c *Config) Validate; `none` is nil.
unfoldable pub validate : Config → Option ConfigError
validate c =
    if not (c.mode == server_mode)
      && not (c.mode == client_mode)
      && not (c.mode == http_client_mode)
    then some bad_mode
    else if (c.mode == client_mode || c.mode == http_client_mode)
        && (c.server_addr == [] || c.target_addr == [])
    then some (missing_address c.mode)
    else none
