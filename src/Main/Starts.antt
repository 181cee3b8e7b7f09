-- ===== src/Main/Starts.antt =====
-- What runs once main has started a service.
use mathlib.Core.Path.{subst}
use single_proxy.Base.{
  codes, [], Bool, Option, none, some, ◌==◌, str_key, str_beq_iff, if-cases, not, ◌&&◌, ◌≡◌, ◌≢◌,
  ◌⊎◌, refl, sym, ap, ◌∙◌, arith,
}
use single_proxy.Config.Types.{
  Config, ConfigError, validate, server_mode, client_mode, http_client_mode,
}
use single_proxy.Config.Save.{generate_example_config}
use single_proxy.Config.Precedence.{KeepsRest}
use single_proxy.Main.Loaded.{
  nonempty, has_target, no_other_mode, init_logger-level, configured-KeepsRest,
  configured-http_client,
}
use single_proxy.Logger.{Logger, init_logger, parse_log_level}
use single_proxy.Client.Tunnel
use single_proxy.Client.Tunnel.{TunnelClient, Url, client_at, new_tunnel_client}
use single_proxy.Client.Poll
use single_proxy.Client.Poll.{PollingClient, new_polling_client}
use single_proxy.Main.{
  Os, Service, serves, tunnels, polls, Started, quits, fails, no_mode, starts, tunnelling, polling,
  configured, start_service, after_validation, after_logging, after_loading, main,
}

-- A service for the flags and for the configuration that was loaded.
abbrev pub Suits : Config → Config → Service → Type 0
Suits cfg c (serves c') = (cfg.mode ≡ server_mode) × (c' ≡ c)
Suits cfg c (tunnels t) =
    (cfg.mode ≡ client_mode)
    × (t.key ≡ c.key)
    × (t.target_addr ≡ c.target_addr)
    × (c.target_addr ≢ [])
    × ((t.server_addr.scheme ≡ codes "ws") ⊎ (t.server_addr.scheme ≡ codes "wss"))
Suits cfg c (polls p) =
    (cfg.mode ≡ http_client_mode)
    × (c ≡ cfg)
    × (p.server_url ≡ cfg.server_addr)
    × (p.key ≡ cfg.key)
    × (p.target ≡ cfg.target_addr)
    × (cfg.key ≢ [])
    × (cfg.server_addr ≢ [])

module _ {World : Type 0} (os : Os World) (cfg : Config) where
  -- A service that runs has a configuration that was loaded, keeps the settings of the log that the
  -- flags give, and suits the mode of the flags.
  abbrev pub IsSound : Started → Type 0
  IsSound quits = Unit
  IsSound fails = Unit
  IsSound no_mode = ⊥
  IsSound (starts log service) =
      (c : Config) × (configured os cfg ≡ some c)
      × KeepsRest cfg c
      × (log.level ≡ parse_log_level cfg.log_level)
      × Suits cfg c service

  -- What is known of a service once its configuration is loaded and the log set up.
  Ready : Config → Logger → Type 0
  Ready c log =
      (configured os cfg ≡ some c)
      × (log.level ≡ parse_log_level cfg.log_level)
      × (validate c ≡ none)

  client_at-IsSound :
      (c : Config) (log : Logger) (url : Option Url)
      → Ready c log
      → c.mode ≡ client_mode
      → IsSound (tunnelling log (client_at c url))
  unfolding Ready client_at
  client_at-IsSound c log none r mode = tt
  client_at-IsSound c log (some url) r mode =
      let keeps = configured-KeepsRest os cfg c r.0 in
      if-cases (λ (x : Tunnel.Created). IsSound (tunnelling log x))
        (not (url.scheme == codes "ws") && not (url.scheme == codes "wss")) _ _ (λ other. tt)
        (λ ws. (
          c,
          r.0,
          keeps,
          r.1,
          (
            sym keeps.0 ∙ mode,
            refl,
            refl,
            has_target c mode r.2,
            ground (
              arith,
              ws,
              str_beq_iff url.scheme (codes "ws"),
              str_beq_iff url.scheme (codes "wss"),
            ),
          ),
        ))

  polling-IsSound :
      (c : Config) (log : Logger)
      → Ready c log
      → c.mode ≡ http_client_mode
      → IsSound (polling log (new_polling_client os.takes_url c))
  unfolding Ready new_polling_client
  polling-IsSound c log (e, level, valid) mode =
      let keeps = configured-KeepsRest os cfg c e in
      let mode' = sym keeps.0 ∙ mode in
      let same = configured-http_client os cfg c e mode' in
      if-cases (λ (x : Poll.Created). IsSound (polling log x)) (c.server_addr == []) _ _
        (λ missing. tt)
        (λ addr.
          if-cases (λ (x : Poll.Created). IsSound (polling log x)) (c.target_addr == []) _ _
            (λ missing. tt)
            (λ target.
              if-cases (λ (x : Poll.Created). IsSound (polling log x)) (c.key == []) _ _
                (λ missing. tt)
                (λ key.
                  if-cases (λ (x : Poll.Created). IsSound (polling log x))
                    (os.takes_url c.server_addr) _ _
                    (λ takes. (
                      c,
                      e,
                      keeps,
                      level,
                      (
                        mode',
                        same,
                        ap (λ (x : Config). x.server_addr) same,
                        ap (λ (x : Config). x.key) same,
                        ap (λ (x : Config). x.target_addr) same,
                        subst (λ (x : Config). x.key ≢ []) same (nonempty c.key key),
                        subst (λ (x : Config). x.server_addr ≢ []) same
                            (nonempty c.server_addr addr),
                      ),
                    ))
                    (λ refuses. tt))))

  start_service-IsSound :
      (c : Config) (log : Logger) → Ready c log → IsSound (start_service os c log)
  unfolding start_service new_tunnel_client Ready
  start_service-IsSound c log r =
      let keeps = configured-KeepsRest os cfg c r.0 in
      if-cases IsSound (c.mode == server_mode) (starts log (serves c)) _
        (λ server.
          (c, r.0, keeps, r.1, (sym keeps.0 ∙ (str_beq_iff c.mode server_mode).0 server, refl)))
        (λ no_server.
          if-cases IsSound (c.mode == client_mode)
            (tunnelling log (new_tunnel_client os.parse_url c)) _
            (λ client.
              client_at-IsSound c log (os.parse_url c.server_addr) r
                ((str_beq_iff c.mode client_mode).0 client))
            (λ no_client.
              if-cases IsSound (c.mode == http_client_mode)
                (polling log (new_polling_client os.takes_url c)) no_mode
                (λ polled. polling-IsSound c log r ((str_beq_iff c.mode http_client_mode).0 polled))
                (λ other. absurd (no_other_mode c no_server no_client other r.2))))

  after_validation-IsSound :
      (c : Config) (log : Logger) (invalid : Option ConfigError)
      → configured os cfg ≡ some c
      → log.level ≡ parse_log_level cfg.log_level
      → validate c ≡ invalid
      → IsSound (after_validation os c log invalid)
  unfolding after_validation Ready
  after_validation-IsSound c log none e level valid = start_service-IsSound c log (e, level, valid)
  after_validation-IsSound c log (some bad) e level valid = tt

  after_logging-IsSound :
      (c : Config) (log : Option Logger)
      → configured os cfg ≡ some c
      → init_logger os.makes_dir os.opens c ≡ log
      → IsSound (after_logging os c log)
  unfolding after_logging
  after_logging-IsSound c none e opened = tt
  after_logging-IsSound c (some log) e opened =
      after_validation-IsSound c log (validate c) e
        (init_logger-level os c log opened ∙ ap parse_log_level (configured-KeepsRest os cfg c e).1)
        refl

  after_loading-IsSound :
      (loaded : Option Config) → configured os cfg ≡ loaded → IsSound (after_loading os loaded)
  unfolding after_loading
  after_loading-IsSound none e = tt
  after_loading-IsSound (some c) e =
      after_logging-IsSound c (init_logger os.makes_dir os.opens c) e refl

  -- If main starts a service, then a configuration was loaded, and it has the mode and the settings
  -- of the log that the flags give, whatever the files hold; a server runs with that configuration;
  -- a WebSocket client has its key and its target, which is given, and a server's address with the
  -- scheme ws or wss; and a polling client, which runs in the mode http-client, has the server's
  -- address, the key and the target of the flags, with the first two given. Main goes on without a
  -- service in no case.
  pub main-IsSound : (generates : Bool) (w : World) → IsSound (main os generates cfg w)
  unfolding main
  main-IsSound generates w =
      if-cases IsSound generates _ (after_loading os (configured os cfg))
        (λ g.
          if-cases IsSound (generate_example_config os.disk (codes "singleproxy.yaml") w).0 quits
            fails (λ done. tt) (λ failed. tt))
        (λ loads. after_loading-IsSound (configured os cfg) refl)
