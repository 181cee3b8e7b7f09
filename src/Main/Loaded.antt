-- ===== src/Main/Loaded.antt =====
-- What is known of the configuration that main has loaded.
use mathlib.Core.Path.{subst}
use mathlib.Core.Option.{some-injective}
use single_proxy.Base.{
  Str, [], true, false, Option, none, some, ◌==◌, str_key, str_beq_iff, if-cases, ◌≡◌, ◌≢◌, ◌⊎◌,
  inl, inr, refl, sym, ap, ◌∙◌, arith,
}
use single_proxy.Config.Types.{Config, validate, server_mode, client_mode, http_client_mode}
use single_proxy.Config.Load.{load_with_file}
use single_proxy.Config.Precedence.{KeepsRest, validate_iff, load_with_file-http_client}
use single_proxy.Config.Unchanged.{load_with_file-KeepsRest}
use single_proxy.Logger.{Logger, init_logger, parse_log_level}
use single_proxy.Main.{Os, discovered, configured}

pub server_not_client : server_mode ≢ client_mode
server_not_client e = let q : false ≡ true = (str_beq_iff server_mode client_mode).1 e in cc

pub no_other_mode :
    (c : Config)
    → (c.mode == server_mode) ≡ false
    → (c.mode == client_mode) ≡ false
    → (c.mode == http_client_mode) ≡ false
    → validate c ≢ none
unfolding validate
no_other_mode c s t h valid = ground (arith, s, t, h, valid)

pub nonempty : (text : Str) → (text == []) ≡ false → text ≢ []
nonempty text e empty = ground (arith, e, str_beq_iff text [], empty)

pub has_target : (c : Config) → c.mode ≡ client_mode → validate c ≡ none → c.target_addr ≢ []
has_target c mode valid = elim ((validate_iff c).0 valid) [
  | inl server ↦ absurd (server_not_client (sym server ∙ mode))
  | inr (client, addr, target) ↦ target
]

pub level_of : (l log : Logger) → some l ≡ some log → log.level ≡ l.level
level_of l log e = ap (λ (x : Logger). x.level) (sym (some-injective _ _ e))

pub init_logger-level :
    {World : Type 0} (os : Os World) (c : Config) (log : Logger)
    → init_logger os.makes_dir os.opens c ≡ some log
    → log.level ≡ parse_log_level c.log_level
unfolding init_logger
init_logger-level os c log e =
    if-cases (λ (o : Option Logger). o ≡ some log → log.level ≡ parse_log_level c.log_level)
      (c.log_file == []) _ _ (λ console. level_of _ log)
      (λ to_file.
        if-cases (λ (o : Option Logger). o ≡ some log → log.level ≡ parse_log_level c.log_level)
          (os.makes_dir c.log_file) _ _
          (λ made.
            if-cases (λ (o : Option Logger). o ≡ some log → log.level ≡ parse_log_level c.log_level)
              (os.opens c.log_file) _ _ (λ opened. level_of _ log) (λ failed q. cc))
          (λ failed q. cc))
      e

module _ {World : Type 0} (os : Os World) (cfg : Config) where
  pub discovered-cases :
      (c : Config) (found : Option Config)
      → load_with_file os.env [] cfg ≡ found
      → discovered os cfg found ≡ some c
      → (c ≡ cfg) ⊎ ((path : Str) × (load_with_file os.env path cfg ≡ some c))
  unfolding discovered
  discovered-cases c none none_found e = inl (sym (some-injective _ _ e))
  discovered-cases c (some r) found e = inr ([], found ∙ e)

  pub configured-cases :
      (c : Config)
      → configured os cfg ≡ some c
      → (c ≡ cfg) ⊎ ((path : Str) × (load_with_file os.env path cfg ≡ some c))
  unfolding configured
  configured-cases c e =
      let Known : Type 0 = (c ≡ cfg) ⊎ ((path : Str) × (load_with_file os.env path cfg ≡ some c)) in
      if-cases (λ (o : Option Config). o ≡ some c → Known) (cfg.config_file == [])
        (discovered os cfg (load_with_file os.env [] cfg))
        (load_with_file os.env cfg.config_file cfg)
        (λ not_given. discovered-cases c (load_with_file os.env [] cfg) refl)
        (λ given loads. inr (cfg.config_file, loads)) e

  pub configured-KeepsRest : (c : Config) → configured os cfg ≡ some c → KeepsRest cfg c
  configured-KeepsRest c e = elim (configured-cases c e) [
    | inl same ↦ subst (KeepsRest cfg) (sym same) (refl, refl, refl, refl, refl)
    | inr (path, loads) ↦ load_with_file-KeepsRest os.env path cfg c loads
  ]

  pub configured-http_client :
      (c : Config) → configured os cfg ≡ some c → cfg.mode ≡ http_client_mode → c ≡ cfg
  configured-http_client c e mode = elim (configured-cases c e) [
    | inl same ↦ same
    | inr (path, loads) ↦ load_with_file-http_client os.env path cfg c mode loads
  ]
