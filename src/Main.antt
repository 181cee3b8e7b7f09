-- ===== src/Main.antt =====
-- cmd/singleproxy/main.go, up to the point where the service of the mode runs. What it calls of the
-- operating system and of net/url is a parameter.
pub mod Loaded
pub mod Starts
mod Tests
use single_proxy.Base.{Str, codes, [], Bool, Option, none, some, ◌==◌, str_key, if◌then◌else◌}
use single_proxy.Config.Types.{
  Config, ConfigError, validate, server_mode, client_mode, http_client_mode,
}
use single_proxy.Config.Load.{Env, load_with_file}
use single_proxy.Config.Save.{Disk, generate_example_config}
use single_proxy.Logger.{Logger, init_logger}
use single_proxy.Client.Tunnel
use single_proxy.Client.Tunnel.{TunnelClient, Url, new_tunnel_client}
use single_proxy.Client.Poll
use single_proxy.Client.Poll.{PollingClient, new_polling_client}

pub record Os (World : Type 0) : Type 0 where
  pub env : Env
  pub disk : Disk World
  -- whether the directory of a log file can be made, and the file opened
  pub makes_dir : Str → Bool
  pub opens : Str → Bool
  -- url.Parse, and whether it takes an address
  pub parse_url : Str → Option Url
  pub takes_url : Str → Bool

pub data Service : Type 0 where
  serves : Config → Service
  tunnels : TunnelClient → Service
  polls : PollingClient → Service

-- How main ends or goes on; `quits` is os.Exit(0), `fails` is logger.Fatal.
pub data Started : Type 0 where
  quits fails no_mode : Started
  starts : Logger → Service → Started

abbrev pub tunnelling : Logger → Tunnel.Created → Started
tunnelling log (Tunnel.created c) = starts log (tunnels c)
tunnelling log Tunnel.bad_address = fails
tunnelling log Tunnel.bad_scheme = fails

abbrev pub polling : Logger → Poll.Created → Started
polling log (Poll.created c) = starts log (polls c)
polling log (Poll.not_created e) = fails

module _ {World : Type 0} (os : Os World) where
  -- The flags stand where no file is found.
  unfoldable pub discovered : Config → Option Config → Option Config
  discovered cfg none = some cfg
  discovered cfg (some c) = some c

  -- The configuration, or a failure of the file that was given.
  unfoldable pub configured : Config → Option Config
  unfolding discovered
  configured cfg =
      if cfg.config_file == []
      then discovered cfg (load_with_file os.env [] cfg)
      else load_with_file os.env cfg.config_file cfg

  -- The service of the mode.
  unfoldable pub start_service : Config → Logger → Started
  start_service c log =
      if c.mode == server_mode
      then starts log (serves c)
      else if c.mode == client_mode
      then tunnelling log (new_tunnel_client os.parse_url c)
      else if c.mode == http_client_mode
      then polling log (new_polling_client os.takes_url c)
      else no_mode

  unfoldable pub after_validation : Config → Logger → Option ConfigError → Started
  unfolding start_service
  after_validation c log none = start_service c log
  after_validation c log (some e) = fails

  unfoldable pub after_logging : Config → Option Logger → Started
  unfolding after_validation
  after_logging c none = fails
  after_logging c (some log) = after_validation c log (validate c)

  unfoldable pub after_loading : Option Config → Started
  unfolding after_logging
  after_loading none = fails
  after_loading (some c) = after_logging c (init_logger os.makes_dir os.opens c)

  unfoldable pub main : Bool → Config → World → Started
  unfolding configured after_loading
  main generates cfg w =
      if generates
      then if (generate_example_config os.disk (codes "singleproxy.yaml") w).0 then quits else fails
      else after_loading (configured cfg)
