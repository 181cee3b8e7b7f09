-- ===== src/Config/Unchanged.antt =====
-- What no configuration file changes: the mode and the settings of the log.
use mathlib.Core.Option.{some-injective}
use mathlib.Core.Path.{subst}
use single_proxy.Base.{
  if-cases, ◌==◌, str_key, if◌then◌else◌, Str, Option, none, some, ◌≡◌, refl, inl, inr, arith, sym,
  ◌∙◌,
}
use single_proxy.Config.Types.{Config, FileConfig, server_mode, client_mode}
use single_proxy.Config.Merge.{merge_server, merge_client, merge_with_file_config}
use single_proxy.Config.Load.{Env, possible_paths, load_with_file}
use single_proxy.Config.Precedence.{KeepsRest, first_loaded, merge_found, load_with_file_lem}

module _ (env : Env) where
  -- Whatever the mode, a file leaves the mode and the settings of the log alone.
  merge-KeepsRest :
      (c : Config) (file : FileConfig) (mode : Str)
      → KeepsRest c (merge_with_file_config c file mode)
  unfolding merge_with_file_config merge_server merge_client
  merge-KeepsRest c file mode =
      if-cases (KeepsRest c) (mode == server_mode) (merge_server c file.server)
        (if mode == client_mode then merge_client c file.client else c)
        (λ server. (refl, refl, refl, refl, refl))
        (λ other.
          if-cases (KeepsRest c) (mode == client_mode) (merge_client c file.client) c
            (λ client. (refl, refl, refl, refl, refl))
            (λ none_of_both. (refl, refl, refl, refl, refl)))

  merge_found-KeepsRest :
      (c : Config) (found : Option FileConfig) → KeepsRest c (merge_found env c found)
  merge_found-KeepsRest c none = (refl, refl, refl, refl, refl)
  merge_found-KeepsRest c (some file) = merge-KeepsRest c file c.mode

  pub load_with_file-KeepsRest :
      (path : Str) (base r : Config) → load_with_file env path base ≡ some r → KeepsRest base r
  load_with_file-KeepsRest path base r e = elim (load_with_file_lem env path base) [
    | inl (_, q) ↦
        subst (KeepsRest base) (sym (some-injective _ _ (sym e ∙ q)))
          (merge_found-KeepsRest base (first_loaded env (possible_paths env)))
    | inr (inl (_, _, q)) ↦ absurd (ground arith)
    | inr (inr (file, _, _, q)) ↦
        subst (KeepsRest base) (sym (some-injective _ _ (sym e ∙ q)))
          (merge_found-KeepsRest base (some file))
  ]
