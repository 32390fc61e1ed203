-- ===== src/LoadDriver/Registry.antt =====
-- testing/load/driver/registry.go: the list of the images of the upstream, by the pages that its answers
-- link. The package net/http, the decoders of json and url.Parse are the parameter Http.
pub mod Links
pub mod Pages
mod Examples
use ociregistry.Base.{
  ℕ, zero, suc, Bool, true, false, not, ◌&&◌, ◌||◌, Option, none, some, List, [], ◌∷◌, ◌++◌, Str,
  lit, is_empty, has_prefix, unsnoc, split, trim_space, ◌==◌, if◌then◌else◌, Result, ok, err,
}

-- A response: its status, its body, and its header Link, empty where it has none.
pub record Reply : Type 0 where
  pub status : ℕ
  pub body : Str
  pub link : Str

pub record Http : Type 0 where
  pub new_request_fails : Str → Bool
  pub send : Option (Str × Str) → Str → Option Reply
  pub decode_catalog : Str → Option (List Str)
  pub decode_tags : Str → Option (List Str)
  -- the scheme and the host of url.Parse
  pub parse : Str → Option (Str × Str)

pub record ImageInfo : Type 0 where
  pub repository : Str
  pub tags : List Str

-- registryConfig
pub record Registry : Type 0 where
  pub url : Str
  pub scheme : Str
  pub username : Str
  pub password : Str

pub data RegistryError : Type 0 where
  no_request no_answer not_decoded : RegistryError
  bad_status : ℕ → Str → RegistryError

-- strings.HasSuffix(s, ">")
abbrev pub ends_in : ℕ → Str → Bool
ends_in c s = elim (unsnoc s) [ none ↦ false | some (front, last) ↦ last == c ]

-- strings.Trim(s, "<>")
abbrev pub is_angle : ℕ → Bool
is_angle c = c == b'<' || c == b'>'

unfoldable pub trim_left_angles : Str → Str
trim_left_angles [] = []
trim_left_angles (c ∷ s) = let rest = trim_left_angles s in if is_angle c then rest else c ∷ s

unfoldable pub trim_right_angles : Str → Str
unfolding is_empty
trim_right_angles [] = []
trim_right_angles (c ∷ s) =
    let rest = trim_right_angles s in if is_empty rest && is_angle c then [] else c ∷ rest

-- parts[0], where there are two parts or more
abbrev pub first_of_two : List Str → Option Str
first_of_two [] = none
first_of_two (p ∷ []) = none
first_of_two (p ∷ (q ∷ ps)) = some p

module _ (http : Http) where
  -- getNextPageURL, for the part of the header that stands between angles
  unfoldable pub next_page_of : Str → Str → Str → Str
  next_page_of url_part scheme base_url =
      if has_prefix url_part (lit "http://") || has_prefix url_part (lit "https://")
      then url_part
      else elim (http.parse (scheme ++ lit "://" ++ base_url)) [
        | none ↦ []
        | some (parsed_scheme, host) ↦
            if has_prefix url_part (lit "/")
            then parsed_scheme ++ lit "://" ++ host ++ url_part
            else base_url ++ url_part
      ]

  -- The check of the angles.
  unfoldable pub next_page_in : Str → Str → Str → Str
  next_page_in url_part scheme base_url =
      if not (has_prefix url_part (lit "<")) || not (ends_in b'>' url_part)
      then []
      else next_page_of (trim_left_angles (trim_right_angles url_part)) scheme base_url

  -- getNextPageURL
  unfoldable pub get_next_page_url : Str → Str → Str → Str
  get_next_page_url link_header scheme base_url =
      if is_empty link_header then [] else elim (first_of_two (split link_header b';')) [
        | none ↦ []
        | some part ↦ next_page_in (trim_space part) scheme base_url
      ]

-- SetBasicAuth, where both are set
abbrev pub credentials : Registry → Option (Str × Str)
credentials config =
    if not (is_empty config.username) && not (is_empty config.password)
    then some (config.username, config.password)
    else none

module _ (http : Http) (decode : Str → Option (List Str)) (config : Registry) where
  -- The loop of getCatalogPaginated and of getTagsPaginated; none where `fuel` requests do not reach the
  -- last page.
  unfoldable pub get_pages : ℕ → Str → List Str → Option (Result RegistryError (List Str))
  get_pages zero next_url all = none
  get_pages (suc fuel) next_url all =
      if is_empty next_url
      then some (ok all)
      else if http.new_request_fails next_url
      then some (err no_request)
      else elim (http.send (credentials config) next_url) [
        | none ↦ some (err no_answer)
        | some resp ↦
            if not (resp.status == 200)
            then some (err (bad_status resp.status resp.body))
            else elim (decode resp.body) [
              | none ↦ some (err not_decoded)
              | some items ↦
                  get_pages fuel (get_next_page_url http resp.link config.scheme config.url)
                    (all ++ items)
            ]
      ]

module _ (http : Http) (config : Registry) (fuel : ℕ) where
  -- getCatalogPaginated
  unfoldable pub get_catalog_paginated : Option (Result RegistryError (List Str))
  get_catalog_paginated =
      get_pages http http.decode_catalog config fuel
        (config.scheme ++ lit "://" ++ config.url ++ lit "/v2/_catalog?n=100") []

  -- getTagsPaginated
  unfoldable pub get_tags_paginated : Str → Option (Result RegistryError (List Str))
  get_tags_paginated repo =
      get_pages http http.decode_tags config fuel
        (config.scheme ++ lit "://" ++ config.url ++ lit "/v2/" ++ repo ++ lit "/tags/list?n=100")
        []

  -- The loop of listAllImages.
  unfoldable pub list_images : List Str → Option (Result RegistryError (List ImageInfo))
  list_images [] = some (ok [])
  list_images (repo ∷ repos) =
      let rest = list_images repos in
      elim (get_tags_paginated repo) [
        | none ↦ none
        | some (err e) ↦ some (err e)
        | some (ok tags) ↦ elim rest [
          | none ↦ none
          | some (err e) ↦ some (err e)
          | some (ok images) ↦ some (ok (record { repository = repo; tags = tags } ∷ images))
        ]
      ]

  -- listAllImages
  unfoldable pub list_all_images : Option (Result RegistryError (List ImageInfo))
  list_all_images = elim get_catalog_paginated [
    | none ↦ none
    | some (err e) ↦ some (err e)
    | some (ok repositories) ↦ list_images repositories
  ]

-- filter; none is the panic for an image without a tag. The name that is matched ends in a line feed.
unfoldable pub filter_images : (Str → Bool) → List ImageInfo → Option (List ImageInfo)
filter_images re [] = some []
filter_images re (image ∷ images) =
    let rest = filter_images re images in
    elim image.tags [
      | [] ↦ none
      | tag ∷ tags ↦ elim rest [
        | none ↦ none
        | some filtered ↦ some (
            if re (image.repository ++ lit ":" ++ tag ++ lit "\n")
            then image ∷ filtered
            else filtered)
      ]
    ]

-- getImages; the inner none is the panic of filter
unfoldable pub get_images :
    Http → ℕ → Str → Option (Str → Bool) → Option (Result RegistryError (Option (List ImageInfo)))
get_images http fuel registry_url re =
    let config : Registry = record {
      url = registry_url;
      scheme = lit "http";
      username = [];
      password = [];
    } in
    elim (list_all_images http config fuel) [
      | none ↦ none
      | some (err e) ↦ some (err e)
      | some (ok images) ↦ elim re [
        | none ↦ some (ok (some images))
        | some r ↦ some (ok (filter_images r images))
      ]
    ]
