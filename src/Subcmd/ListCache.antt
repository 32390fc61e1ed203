-- ===== src/Subcmd/ListCache.antt =====
-- cmd/subcmd/listcache.go: the list of the files under the image path, without its text. The size of an
-- image, a sum of float32, is kept as the sizes that are added, in their order.
pub mod Split
pub mod Rows
mod Examples
use ociregistry.Base.{
  ℕ, Bool, true, false, ◌&&◌, Option, none, some, List, [], ◌∷◌, ◌++◌, Str, lit, map, is_empty,
  contains_byte, cut, split, trim_prefix, length, take, ◌==◌, if◌then◌else◌, Result, ok, err,
}
use ociregistry.Config.{ListConfig}
use ociregistry.Imgpull.{ManifestHolder, Layer, Env}
use ociregistry.Patterns.{compile_parts, any_match}
use ociregistry.Serialize.{Files, FsError, walk_the_cache}

-- strings.LastIndex(s, sep), as what stands before and after it
unfoldable pub last_cut : Str → ℕ → Option (Str × Str)
last_cut [] sep = none
last_cut (c ∷ s) sep = elim (last_cut s sep) [
  | some (a, b) ↦ some (c ∷ a, b)
  | none ↦ if c == sep then some ([], s) else none
]

-- splitImageRef
unfoldable pub split_image_ref : Str → Str × Str
split_image_ref ref =
    if contains_byte ref b'@'
    then ((cut ref b'@').before, trim_prefix (cut ref b'@').after (lit "sha256:"))
    else elim (last_cut ref b':') [ some (a, b) ↦ (a, b) | none ↦ (ref, []) ]

-- dash
unfoldable pub dash : Str → Str
dash val = if is_empty val then lit "-" else val

pub data ManifestType : Type 0 where
  list_type image_type : ManifestType

pub record Row : Type 0 where
  pub image : Str
  pub tag_or_digest : Str
  pub manifest_type : ManifestType
  pub created : Str
  pub pulled : Str
  pub sizes : List ℕ

pub data ListError : Type 0 where
  bad_expression : Str → ListError
  walk_error : FsError → ListError

abbrev pub layer_size : Layer → ℕ
layer_size layer = layer.size

module _ (env : Env) (cfg : ListConfig) where
  -- A digest is cut to ten characters on request.
  unfoldable pub shorten : Str → Str
  shorten t = if (length t == 64) && cfg.short_digest then take 10 t else t

  -- What the handler of ListCache appends for a manifest.
  unfoldable pub row : ManifestHolder → Row
  row mh = record {
    image = (split_image_ref mh.image_url).0;
    tag_or_digest = shorten (split_image_ref mh.image_url).1;
    manifest_type = if env.is_image_manifest mh then image_type else list_type;
    created = mh.created;
    pulled = mh.pulled;
    sizes = if env.is_image_manifest mh then map layer_size (env.layers mh) else [];
  }

  -- The handler of ListCache. The test `len(srchs) != 0` always holds: a pattern has a part.
  unfoldable pub list_one :
      List (Str → Bool) → ManifestHolder → List Row → List Row × Result FsError (Unit {0})
  list_one srchs mh rows = (if any_match srchs mh then rows ++ row mh ∷ [] else rows, ok tt)

  -- ListCache, up to the output of its rows
  unfoldable pub list_cache : (Str → Option (Str → Bool)) → Files → Result ListError (List Row)
  list_cache compile files = elim (compile_parts compile (split cfg.expr b',')) [
    | err ref ↦ err (bad_expression ref)
    | ok srchs ↦
        let (rows, r) = walk_the_cache (list_one srchs) files [] in
        elim r [ err e ↦ err (walk_error e) | ok _ ↦ ok rows ]
  ]

-- What is printed of a row, besides its size.
unfoldable pub printed : Row → List Str
printed r = r.image ∷ r.tag_or_digest ∷ dash r.created ∷ dash r.pulled ∷ []
