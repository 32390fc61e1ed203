-- ===== src/Imgpull.antt =====
-- What the program takes from outside its own sources: the manifests of the package imgpull, and the
-- answers of the operating system. Both are the fields of one parameter, `Env`.
use ociregistry.Base.{ℕ, Bool, Option, List, Str}

-- The part of imgpull.ManifestHolder that the program reads and writes; `bytes` is the manifest.
pub record ManifestHolder : Type 0 where
  pub image_url : Str
  pub digest : Str
  pub created : Str
  pub pulled : Str
  pub bytes : List ℕ

pub record Layer : Type 0 where
  pub digest : Str
  pub size : ℕ

-- The part of tls.Config that the program sets: the certificates in `root_cas` and a client's pair are
-- kept as what their files have.
pub record ClientTls : Type 0 where
  pub insecure_skip_verify : Bool
  pub root_cas : Option Str
  pub certificates : List Str

-- imgpull.PullerOpts
pub record PullerOpts : Type 0 where
  pub url : Str
  pub scheme : Str
  pub os_type : Str
  pub arch_type : Str
  pub username : Str
  pub password : Str
  pub token : Str
  pub tls_cfg : Option ClientTls

-- How os.WriteFile ends: the file is written, is left as it was, or is left cut short.
pub data Outcome : Type 0 where
  written refused torn : Outcome

pub record Env : Type 0 where
  -- the methods of ManifestHolder; `none` is an error
  pub layers : ManifestHolder → List Layer
  pub is_image_manifest : ManifestHolder → Bool
  pub is_latest_manifest : ManifestHolder → Option Bool
  pub image_manifest_digests : ManifestHolder → List Str
  -- encoding/json and the file system; `unmarshalled` is what json.Unmarshal makes of the text that
  -- json.Marshal gives, or none where that is an error
  pub marshal_fails : ManifestHolder → Bool
  pub unmarshalled : ManifestHolder → Option ManifestHolder
  pub write_outcome : Bool → Str → Outcome
  pub remove_fails : Str → Bool
  pub directory_size : ℕ
  -- the entries that a loop has added to the map over which it ranges and that `range` visits too: Go leaves
  -- open which they are
  pub added_visited : List (Str × ManifestHolder) → List (Str × ManifestHolder)
