-- ===== src/Preload/ListFiles.antt =====
-- impl/preload/preload.go: LoadFromListFile, run again, and run before a token provider is initialized.
use ociregistry.Base.{
  ℕ, ◌+◌, ◌≡◌, refl, sym, ap, subst, ◌∙◌, ◌⊎◌, inl, inr, true, false, Bool-cases, some, List, [],
  ◌∷◌, ◌++◌, All, Str, str_eq, lit, is_empty, has_prefix, split, trim_space, arith, ok, err,
}
use ociregistry.Auth.{
  Providers, no_providers, not_initialized, to_provider, ecr_provider, get_token,
}
use ociregistry.Config.{RegistryConfig}
use ociregistry.Config.Upstreams.{Machine, config_for, no_token}
use ociregistry.Config.Upstreams.FirstEntry.{TakesToken, config_for-no_token}
use ociregistry.Imgpull.{Env}
use ociregistry.PullRequest.{PullRequest, new_pull_request_from_url}
use ociregistry.Serialize.{Files}
use ociregistry.Preload.{
  Host, Client, PreloadError, config_error, Settings, Loaded, then_load, do_pull, load_lines,
  load_from_list_file,
}
use ociregistry.Preload.Repeating.{do_pull-Repeats}
use ociregistry.Preload.Repeating.Images.{NamesDigests, HasKind}
use ociregistry.Preload.Repeating.Stored.{then_load-ok}
use ociregistry.Preload.Repeating.Directories.{Grows, Whole}

-- What imgpull answers for each line goes to the directory of its tag and is read back as it was.
abbrev pub HaveKinds : Env → Client → List Str → Type 0
HaveKinds env client lines =
    All
      (λ (line : Str).
        (pr : PullRequest)
        → new_pull_request_from_url (trim_space line) ≡ ok pr
        → HasKind env client pr)
      lines

module _ (env : Env) (client : Client) (m : Machine) (ps : Providers) (settings : Settings) where
  line_pulled :
      (line : Str) (lines : List Str) (k : ℕ) (files : Files)
      → is_empty (trim_space line) ≡ false
      → has_prefix (trim_space line) (lit "#") ≡ false
      → load_lines env client m ps settings (line ∷ lines) k files
        ≡ then_load
            (do_pull env client m ps settings (trim_space line) files)
            λ cnt. load_lines env client m ps settings lines (k + cnt)
  unfolding load_lines
  line_pulled line lines k files e e' = rw (load_lines, e, e') refl

module _ (env : Env) (client : Client) (names : NamesDigests client) (m : Machine) (ps : Providers)
    (settings : Settings) where
  abbrev run_lines : List Str → ℕ → Files → Loaded ℕ
  run_lines = load_lines env client m ps settings

  nothing_left : (k : ℕ) (files : Files) → run_lines [] k files ≡ (files, ok k)
  unfolding load_lines
  nothing_left k files = refl

  line_skipped :
      (line : Str) (lines : List Str)
      → (is_empty (trim_space line) ≡ true) ⊎ (has_prefix (trim_space line) (lit "#") ≡ true)
      → (k : ℕ) (files : Files) → run_lines (line ∷ lines) k files ≡ run_lines lines k files
  unfolding load_lines
  line_skipped line lines (inl e) k files = rw (load_lines, e) refl
  line_skipped line lines (inr e) k files = elim (Bool-cases (is_empty (trim_space line))) [
    | inl e' ↦ rw (load_lines, e') refl
    | inr e' ↦ rw (load_lines, e', e) refl
  ]

  -- No manifest was lost or cut short, and from now on the lines are all loaded.
  abbrev Settled : List Str → Files → Files → Type 0
  Settled lines files files' =
      Grows files files'
      × Whole files'
      × ((later : Files) (j : ℕ) → Grows files' later → run_lines lines j later ≡ (later, ok j))

  after_skip :
      (line : Str) (lines : List Str) (files files' : Files)
      → ((k : ℕ) (f : Files) → run_lines (line ∷ lines) k f ≡ run_lines lines k f)
      → Settled lines files files'
      → Settled (line ∷ lines) files files'
  after_skip line lines files files' same (grows, whole, again) =
      (grows, whole, λ later j more. same j later ∙ again later j more)

  load_lines-Repeats :
      (lines : List Str) (k n : ℕ) (files files' : Files)
      → HaveKinds env client lines
      → Whole files
      → run_lines lines k files ≡ (files', ok n)
      → Settled lines files files'
  load_lines-Repeats [] k n files files' kinds whole h =
      let unchanged : Settled [] files files =
        (λ d l x at. at, whole, λ later j grows. nothing_left j later) in
      subst (λ (s : Loaded ℕ). Settled [] files s.0) (sym (nothing_left k files) ∙ h) unchanged
  load_lines-Repeats (line ∷ lines) k n files files' (kind, kinds) whole h =
      elim (Bool-cases (is_empty (trim_space line))) [
        | inl e ↦ after_skip line lines files files' (line_skipped line lines (inl e)) (
            load_lines-Repeats lines k n files files' kinds whole
              (sym (line_skipped line lines (inl e) k files) ∙ h))
        | inr e ↦ elim (Bool-cases (has_prefix (trim_space line) (lit "#"))) [
          | inl e' ↦ after_skip line lines files files' (line_skipped line lines (inr e')) (
              load_lines-Repeats lines k n files files' kinds whole
                (sym (line_skipped line lines (inr e') k files) ∙ h))
          | inr e' ↦
              let (cnt, files1, pulled, rest) =
                then_load-ok (do_pull env client m ps settings (trim_space line) files)
                  (λ cnt. run_lines lines (k + cnt)) files' n
                  (sym (line_pulled env client m ps settings line lines k files e e') ∙ h) in
              let (grows, whole1, again) =
                do_pull-Repeats env client names m ps settings (trim_space line) cnt files files1
                  kind whole pulled in
              let (more, whole2, rest_again) =
                load_lines-Repeats lines (k + cnt) n files1 files' kinds whole1 rest in
              (
                λ d l x at. more d l x (grows d l x at),
                whole2,
                λ later j most.
                    line_pulled env client m ps settings line lines j later e e'
                    ∙ ap (λ s. then_load s λ c. run_lines lines (j + c))
                        (again later λ d l x at. most d l x (more d l x at))
                    ∙ rest_again later (j + 0) most
                    ∙ ap (λ i. (later, ok i)) (omega arith),
              )
        ]
      ]

  -- Let no manifest file be cut short, let what imgpull answers name the digests that it was asked for or
  -- told, and let what it answers for a line, under the url of the line or, where that names a
  -- digest, of the image of its list, go to the directory of the line's tag and be read back from its JSON as it was. Once LoadFromListFile has
  -- loaded a list file without an error, loading the file again pulls nothing, changes no file, and
  -- ends without an error.
  pub load_from_list_file-again :
      (host : Host) (path content : Str) (n : ℕ) (files files' : Files)
      → host.open_file path ≡ some content
      → HaveKinds env client (split content 10)
      → Whole files
      → load_from_list_file env client m ps settings host path files ≡ (files', ok n)
      → load_from_list_file env client m ps settings host path files' ≡ (files', ok 0)
  unfolding load_from_list_file
  load_from_list_file-again host path content n files files' opened kinds whole h =
      let first : load_from_list_file env client m ps settings host path files
          ≡ run_lines (split content 10) 0 files =
        rw (load_from_list_file, opened) refl in
      let second : load_from_list_file env client m ps settings host path files'
          ≡ run_lines (split content 10) 0 files' =
        rw (load_from_list_file, opened) refl in
      let (grows, whole', again) =
        load_lines-Repeats (split content 10) 0 n files files' kinds whole (sym first ∙ h) in
      second ∙ again files' 0 λ d l x at. at

module _ (env : Env) (client : Client) (m : Machine) (settings : Settings)
    (before after : List RegistryConfig) (pr : PullRequest) (reg : RegistryConfig)
    (entries : settings.registries ≡ before ++ reg ∷ after)
    (others : All (λ (r : RegistryConfig). str_eq r.name pr.remote ≡ false) before)
    (named : str_eq reg.name pr.remote ≡ true) (takes : TakesToken reg)
    (known : to_provider reg.auth.token.provider ≡ ok ecr_provider) where
  abbrev pub refusal : PreloadError
  refusal = config_error (no_token pr.remote (not_initialized reg.auth.token.provider))

  -- A url of a registry whose token provider is not initialized cannot be pulled.
  do_pull-no_providers :
      (image_url : Str) (files : Files)
      → new_pull_request_from_url image_url ≡ ok pr
      → do_pull env client m no_providers settings image_url files ≡ (files, err refusal)
  unfolding do_pull get_token
  do_pull-no_providers image_url files parsed =
      let missing : get_token reg.auth.token.provider no_providers
          ≡ err (not_initialized reg.auth.token.provider) =
        rw (get_token, known) refl in
      let refused =
        ap (λ (rs : List RegistryConfig). config_for m no_providers rs pr.remote) entries
        ∙ config_for-no_token m before after pr.remote reg others named takes no_providers
            (not_initialized reg.auth.token.provider) missing in
      rw (do_pull, parsed, refused) refl

  -- Nor can a list file be loaded that starts with such a url.
  pub load_from_list_file-no_providers :
      (host : Host) (path content line : Str) (lines : List Str) (files : Files)
      → host.open_file path ≡ some content
      → split content 10 ≡ line ∷ lines
      → is_empty (trim_space line) ≡ false
      → has_prefix (trim_space line) (lit "#") ≡ false
      → new_pull_request_from_url (trim_space line) ≡ ok pr
      → load_from_list_file env client m no_providers settings host path files
        ≡ (files, err refusal)
  unfolding load_from_list_file
  load_from_list_file-no_providers host path content line lines files opened first e e' parsed =
      let listed : load_from_list_file env client m no_providers settings host path files
          ≡ load_lines env client m no_providers settings (split content 10) 0 files =
        rw (load_from_list_file, opened) refl in
      listed
      ∙ ap (λ ls. load_lines env client m no_providers settings ls 0 files) first
      ∙ line_pulled env client m no_providers settings line lines 0 files e e'
      ∙ ap (λ s. then_load s λ cnt. load_lines env client m no_providers settings lines (0 + cnt))
          (do_pull-no_providers (trim_space line) files parsed)
