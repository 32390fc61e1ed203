-- ===== src/Subcmd/Serve/Order.antt =====
-- cmd/subcmd/serve.go: the preload comes before the token providers.
use ociregistry.Base.{
  ◌≡◌, refl, ap, true, false, some, List, ◌∷◌, ◌++◌, All, Str, str_eq, lit, is_empty, has_prefix,
  split, trim_space, Result, ok, err,
}
use ociregistry.Auth.{Providers, no_providers, not_initialized, to_provider, ecr_provider}
use ociregistry.Config.{Configuration, RegistryConfig}
use ociregistry.Config.Upstreams.{no_token}
use ociregistry.Config.Upstreams.FirstEntry.{TakesToken}
use ociregistry.Preload.{PreloadError, config_error, load_from_list_file}
use ociregistry.Preload.Dispatch.{expand_paths, looks_like_tar, load_file, load_files, load_paths}
use ociregistry.Preload.ListFiles.{load_from_list_file-no_providers}
use ociregistry.PullRequest.{PullRequest, new_pull_request_from_url}
use ociregistry.Serialize.{Files}
use ociregistry.Subcmd.Serve.{
  World, StartError, preloading, Started, settings, preload, start, serve,
}

-- What Serve does with the outcome of the preload.
outcome :
    World
    → Configuration
    → Files × Result PreloadError (Unit {0})
    → Files × Result StartError Started
outcome w cfg (files, err e) = (files, err (preloading e))
outcome w cfg (files, ok _) = (files, start w cfg files)

module _ (w : World) (cfg : Configuration) where
  one_file :
      (ps : Providers) (p : Str) (paths : List Str) (files : Files) (e : PreloadError)
      → is_empty cfg.preload_images ≡ false
      → expand_paths w.host cfg.preload_images ≡ ok (p ∷ paths)
      → looks_like_tar w.host p ≡ ok false
      → load_from_list_file w.env w.client w.machine ps (settings w cfg) w.host p files
        ≡ (files, err e)
      → preload w cfg ps files ≡ (files, err e)
  unfolding preload load_paths load_files load_file
  one_file ps p paths files e given expanded plain failed =
      rw (preload, given, load_paths, expanded, load_files, load_file, plain, failed) refl

  -- Let the first file of the preload be a list file whose first line names an image of a registry, and
  -- let the first entry of the registry in the configuration have an ECR token provider, no static token
  -- and no TLS settings. Then Serve ends with the error that the provider is not initialized, whatever the
  -- upstream and the provider would answer, and changes no file.
  pub serve-no_token :
      (before after : List RegistryConfig) (reg : RegistryConfig) (pr : PullRequest)
      → cfg.registries ≡ before ++ reg ∷ after
      → All (λ (r : RegistryConfig). str_eq r.name pr.remote ≡ false) before
      → str_eq reg.name pr.remote ≡ true
      → TakesToken reg
      → to_provider reg.auth.token.provider ≡ ok ecr_provider
      → (p content line : Str) (paths lines : List Str) → is_empty cfg.preload_images ≡ false
      → expand_paths w.host cfg.preload_images ≡ ok (p ∷ paths)
      → looks_like_tar w.host p ≡ ok false
      → w.host.open_file p ≡ some content
      → split content 10 ≡ line ∷ lines
      → is_empty (trim_space line) ≡ false
      → has_prefix (trim_space line) (lit "#") ≡ false
      → new_pull_request_from_url (trim_space line) ≡ ok pr
      → (files : Files)
      → serve w cfg files ≡ (
        files,
        err (
            preloading
              (config_error (no_token pr.remote (not_initialized reg.auth.token.provider)))),
      )
  unfolding serve outcome
  serve-no_token before after reg pr entries others named takes known p content line paths lines
        given expanded plain opened first e e' parsed files =
      let failed =
        load_from_list_file-no_providers w.env w.client w.machine (settings w cfg) before after pr
          reg entries others named takes known w.host p content line lines files opened first e e'
          parsed in
      ap (outcome w cfg) (one_file no_providers p paths files _ given expanded plain failed)
