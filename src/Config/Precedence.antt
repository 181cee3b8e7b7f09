-- ===== src/Config/Precedence.antt =====
-- How flags and files combine, and which configurations start: what MergeWithFileConfig,
-- LoadWithFile and Validate do together.
use mathlib.Core.Option.{some-injective}
use single_proxy.Base.{
  str_key, Str, codes, List, [], ◌∷◌, false, Option, none, some, ◌≡◌, ◌≢◌, ◌⊎◌, ◌↔◌, refl, inl, inr,
  str_beq_iff, arith, Option-cases, ap, sym, ◌∙◌,
}
use single_proxy.Base.Int.{pos}
use single_proxy.Config.Types.{
  Config, FileConfig, ServerConfig, ClientConfig, server_mode, client_mode, http_client_mode,
  validate,
}
use single_proxy.Config.Merge.{merge_server, merge_client, merge_with_file_config}
use single_proxy.Config.Load.{
  Env, load_config_file, expand, search_paths, possible_paths, load_with_file,
}

-- The flag wins, unless it has its default and the file sets the value.
abbrev pub Takes {ℓ} : {A : Type ℓ} → A → A → A → A → A → Type ℓ
Takes default unset flag file result =
    ((result ≡ flag) × ((flag ≢ default) ⊎ (file ≡ unset)))
    ⊎ ((result ≡ file) × (flag ≡ default) × (file ≢ unset))

abbrev pub KeepsAddresses : Config → Config → Type 0
KeepsAddresses c r =
    (r.server_addr ≡ c.server_addr)
    × (r.target_addr ≡ c.target_addr)
    × (r.key ≡ c.key)
    × (r.insecure ≡ c.insecure)

abbrev pub KeepsListener : Config → Config → Type 0
KeepsListener c r =
    (r.listen_port ≡ c.listen_port)
    × (r.cert_file ≡ c.cert_file)
    × (r.key_file ≡ c.key_file)
    × (r.ip_rate_limit ≡ c.ip_rate_limit)
    × (r.key_rate_limit ≡ c.key_rate_limit)

abbrev pub KeepsRest : Config → Config → Type 0
KeepsRest c r =
    (r.mode ≡ c.mode)
    × (r.log_level ≡ c.log_level)
    × (r.log_file ≡ c.log_file)
    × (r.log_format ≡ c.log_format)
    × (r.config_file ≡ c.config_file)

abbrev pub TakesServer : Config → ServerConfig → Config → Type 0
TakesServer c s r =
    Takes (codes "443") [] c.listen_port s.listen_port r.listen_port
    × Takes [] [] c.cert_file s.cert_file r.cert_file
    × Takes [] [] c.key_file s.key_file r.key_file
    × Takes (pos 0) (pos 0) c.ip_rate_limit s.ip_rate_limit r.ip_rate_limit
    × Takes (pos 0) (pos 0) c.key_rate_limit s.key_rate_limit r.key_rate_limit

abbrev pub TakesClient : Config → ClientConfig → Config → Type 0
TakesClient c f r =
    Takes [] [] c.server_addr f.server_addr r.server_addr
    × Takes [] [] c.target_addr f.target_addr r.target_addr
    × Takes (codes "default") [] c.key f.key r.key
    × Takes false false c.insecure f.insecure r.insecure

module _ (c : Config) where
  merge_server-TakesServer : (s : ServerConfig) → TakesServer c s (merge_server c s)
  unfolding merge_server
  merge_server-TakesServer s = (
    ground (arith, str_beq_iff c.listen_port (codes "443"), str_beq_iff s.listen_port []),
    ground (arith, str_beq_iff c.cert_file [], str_beq_iff s.cert_file []),
    ground (arith, str_beq_iff c.key_file [], str_beq_iff s.key_file []),
    ground arith,
    ground arith,
  )

  merge_client-TakesClient : (f : ClientConfig) → TakesClient c f (merge_client c f)
  unfolding merge_client
  merge_client-TakesClient f = (
    ground (arith, str_beq_iff c.server_addr [], str_beq_iff f.server_addr []),
    ground (arith, str_beq_iff c.target_addr [], str_beq_iff f.target_addr []),
    ground (arith, str_beq_iff c.key (codes "default"), str_beq_iff f.key []),
    ground arith,
  )

-- Merging for the server mode: each of the five server settings is the flag, or the file's value
-- where the flag has its default and the file sets it; all other settings stay.
pub merge-server_mode :
    (c : Config) (file : FileConfig)
    → let r = merge_with_file_config c file server_mode in
      TakesServer c file.server r × KeepsAddresses c r × KeepsRest c r
unfolding merge_with_file_config
merge-server_mode c file = (
  merge_server-TakesServer c file.server,
  (refl, refl, refl, refl),
  (refl, refl, refl, refl, refl),
)

-- Merging for the client mode: each of the four client settings is the flag, or the file's value
-- where the flag has its default and the file sets it; all other settings stay.
pub merge-client_mode :
    (c : Config) (file : FileConfig)
    → let r = merge_with_file_config c file client_mode in
      TakesClient c file.client r × KeepsListener c r × KeepsRest c r
unfolding merge_with_file_config
merge-client_mode c file = (
  merge_client-TakesClient c file.client,
  (refl, refl, refl, refl, refl),
  (refl, refl, refl, refl, refl),
)

-- A configuration passes validation exactly in the server mode, and in the two client modes when
-- the server's address and the target's address are both given.
pub validate_iff :
    (c : Config)
    → (validate c ≡ none) ↔ (
        (c.mode ≡ server_mode)
        ⊎ (((c.mode ≡ client_mode) ⊎ (c.mode ≡ http_client_mode))
            × (c.server_addr ≢ [])
            × (c.target_addr ≢ [])))
unfolding validate
validate_iff c = ground (
  arith,
  str_beq_iff c.mode server_mode,
  str_beq_iff c.mode client_mode,
  str_beq_iff c.mode http_client_mode,
  str_beq_iff c.server_addr [],
  str_beq_iff c.target_addr [],
)

module _ (env : Env) where
  -- The first place of the list whose file loads.
  abbrev pub first_loaded : List Str → Option FileConfig
  first_loaded [] = none
  first_loaded (path ∷ paths) = elim (load_config_file env (expand env path)) [
    | none ↦ first_loaded paths
    | some file ↦ some file
  ]

  abbrev pub merge_found : Config → Option FileConfig → Config
  merge_found base none = base
  merge_found base (some file) = merge_with_file_config base file base.mode

  search_paths-first_loaded :
      (paths : List Str) (base : Config)
      → search_paths env paths base ≡ merge_found base (first_loaded paths)
  unfolding search_paths
  search_paths-first_loaded [] base = refl
  search_paths-first_loaded (path ∷ paths) base =
      ground (arith, search_paths-first_loaded paths base)

  -- Without a given file loading succeeds, and merges the first of the four places that loads,
  -- if any; with a given file it merges that one, and fails if it does not load.
  pub load_with_file_lem :
      (path : Str) (base : Config)
      → ((path ≡ [])
          × (load_with_file env path base
              ≡ some (merge_found base (first_loaded (possible_paths env)))))
        ⊎ ((path ≢ []) × (load_config_file env path ≡ none) × (load_with_file env path base ≡ none))
        ⊎ ((file : FileConfig) × (path ≢ [])
            × (load_config_file env path ≡ some file)
            × (load_with_file env path base ≡ some (merge_found base (some file))))
  unfolding load_with_file
  load_with_file_lem [] base =
      inl (refl, ap some (search_paths-first_loaded (possible_paths env) base))
  load_with_file_lem (c ∷ path) base = elim (Option-cases (load_config_file env (c ∷ path))) [
    | inl e ↦ inr (inl ((λ x. cc), e, rw (e, load_with_file)))
    | inr (file, e) ↦ inr (inr (file, (λ x. cc), e, rw (e, load_with_file)))
  ]

  merge-http_client :
      (c : Config) (file : FileConfig)
      → c.mode ≡ http_client_mode
      → merge_with_file_config c file c.mode ≡ c
  unfolding merge_with_file_config
  merge-http_client c file e = rw e

  merge_found-http_client :
      (c : Config) (found : Option FileConfig) → c.mode ≡ http_client_mode → merge_found c found ≡ c
  merge_found-http_client c none e = refl
  merge_found-http_client c (some file) e = merge-http_client c file e

  pub load_with_file-http_client :
      (path : Str) (base r : Config)
      → base.mode ≡ http_client_mode
      → load_with_file env path base ≡ some r
      → r ≡ base
  load_with_file-http_client path base r mode e = elim (load_with_file_lem path base) [
    | inl (_, q) ↦
        some-injective _ _ (sym e ∙ q)
        ∙ merge_found-http_client base (first_loaded (possible_paths env)) mode
    | inr (inl (_, _, q)) ↦ absurd (ground arith)
    | inr (inr (file, _, _, q)) ↦ some-injective _ _ (sym e ∙ q) ∙ merge-http_client base file mode
  ]

  -- In the http-client mode no file has any effect: whatever the files hold, and whatever flags are
  -- given, what is loaded is the configuration of the flags, so that it is valid exactly if the flags
  -- give the server's address and the target's.
  pub http_client-ignores_files :
      (path : Str) (base r : Config)
      → base.mode ≡ http_client_mode
      → load_with_file env path base ≡ some r
      → (r ≡ base) × ((validate r ≡ none) ↔ ((base.server_addr ≢ []) × (base.target_addr ≢ [])))
  unfolding validate
  http_client-ignores_files path base r mode e =
      let same = load_with_file-http_client path base r mode e in
      (
        same,
        rw same (
            rw (mode)
              (ground (arith, str_beq_iff base.server_addr [], str_beq_iff base.target_addr []))),
      )
