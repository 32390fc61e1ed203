-- ===== src/LoadDriver/Registry/Pages.antt =====
-- testing/load/driver/registry.go: the lists of a registry that answers in pages.
use ociregistry.Base.{
  ℕ, zero, suc, ◌<◌, ◌≡◌, refl, ap, ◌∙◌, false, some, Option, List, [], ◌∷◌, ◌++◌, Str, lit, length,
  is_empty, map, All, ok, arith,
}
use mathlib.Core.List.{append_assoc}
use ociregistry.LoadDriver.Registry.{
  Http, ImageInfo, Registry, get_next_page_url, credentials, get_pages, get_catalog_paginated,
  get_tags_paginated, list_images, list_all_images,
}
use ociregistry.LoadDriver.Registry.Links.{next_link, IsPath, get_next_page_url-next_link}

module _ (http : Http) (decode : Str → Option (List Str)) (config : Registry)
    (scheme host : Str) where
  -- A request to the url is answered with the items, and with the header.
  abbrev pub Answers : Str → List Str → Str → Type 0
  Answers u items link =
      (http.new_request_fails u ≡ false)
      × (body : Str) × (http.send (credentials config) u
          ≡ some (record { status = 200; body = body; link = link }))
      × (decode body ≡ some items)

  -- The page at the url has the items, and the others follow, each at a path that the page before names.
  abbrev pub Serves : Str → List Str → List (Str × List Str) → Type 0
  Serves u items [] = Answers u items []
  Serves u items ((q, items') ∷ pages) =
      IsPath q
      × Answers u items (next_link q)
      × Serves (scheme ++ lit "://" ++ host ++ b'/' ∷ q) items' pages

-- The items of the pages in their order.
abbrev pub all_items : List Str → List (Str × List Str) → List Str
all_items items [] = items
all_items items ((q, items') ∷ pages) = items ++ all_items items' pages

is_empty-append : (a b : Str) (c : ℕ) → is_empty (a ++ c ∷ b) ≡ false
unfolding is_empty
is_empty-append [] b c = refl
is_empty-append (d ∷ a) b c = refl

no_next : (http : Http) (s u : Str) → get_next_page_url http [] s u ≡ []
unfolding get_next_page_url is_empty
no_next http s u = refl

module _ (http : Http) (decode : Str → Option (List Str)) (config : Registry) (scheme host : Str)
    (parsed : http.parse (config.scheme ++ lit "://" ++ config.url) ≡ some (scheme, host)) where
  get_pages-answer :
      (fuel : ℕ) (u : Str) (items all : List Str) (link : Str)
      → is_empty u ≡ false
      → Answers http decode config scheme host u items link
      → get_pages http decode config (suc fuel) u all
        ≡ get_pages http decode config fuel
            (get_next_page_url http link config.scheme config.url)
            (all ++ items)
  unfolding get_pages
  get_pages-answer fuel u items all link some_url (made, body, sent, decoded) =
      rw (get_pages, some_url, made, sent, decoded) refl

  get_pages-end :
      (fuel : ℕ) (all : List Str) → get_pages http decode config (suc fuel) [] all ≡ some (ok all)
  unfolding get_pages is_empty
  get_pages-end fuel all = refl

  get_pages-Serves :
      (fuel : ℕ) (u : Str) (items : List Str) (pages : List (Str × List Str)) (all : List Str)
      → is_empty u ≡ false
      → suc (length pages) < fuel
      → Serves http decode config scheme host u items pages
      → get_pages http decode config fuel u all ≡ some (ok (all ++ all_items items pages))
  get_pages-Serves zero u items pages all e lt s = absurd (omega arith)
  get_pages-Serves (suc zero) u items pages all e lt s = absurd (omega arith)
  get_pages-Serves (suc (suc fuel)) u items [] all e lt s =
      get_pages-answer (suc fuel) u items all [] e s
      ∙ ap (λ n. get_pages http decode config (suc fuel) n (all ++ items))
          (no_next http config.scheme config.url)
      ∙ get_pages-end fuel (all ++ items)
  get_pages-Serves (suc (suc fuel)) u items ((q, items') ∷ pages) all e lt (p, a, s) =
      let next = scheme ++ lit "://" ++ host ++ b'/' ∷ q in
      get_pages-answer (suc fuel) u items all (next_link q) e a
      ∙ ap (λ n. get_pages http decode config (suc fuel) n (all ++ items))
          (get_next_page_url-next_link http config.scheme config.url scheme host q parsed p)
      ∙ get_pages-Serves (suc fuel) next items' pages (all ++ items)
          (is_empty-append (scheme ++ lit "://" ++ host) q b'/') (omega arith) s
      ∙ ap (λ l. some (ok l)) (append_assoc all items (all_items items' pages))

abbrev pub catalog_url : Registry → Str
catalog_url config = config.scheme ++ lit "://" ++ config.url ++ lit "/v2/_catalog?n=100"

abbrev pub tags_url : Registry → Str → Str
tags_url config repo =
    config.scheme ++ lit "://" ++ config.url ++ lit "/v2/" ++ repo ++ lit "/tags/list?n=100"

-- The pages of the tags of a repository: the first one's, and the others.
abbrev pub TagPages : Type 0
TagPages = Str → List Str × List (Str × List Str)

abbrev pub image_of : TagPages → Str → ImageInfo
image_of tags_of repo = record {
  repository = repo;
  tags = all_items (tags_of repo).0 (tags_of repo).1;
}

module _ (http : Http) (config : Registry) (scheme host : Str) (tags_of : TagPages) (fuel : ℕ) where
  -- The tags of a repository are served, in less pages than there is fuel.
  abbrev pub ServesTags : Str → Type 0
  ServesTags repo =
      Serves http http.decode_tags config scheme host (tags_url config repo) (tags_of repo).0
        (tags_of repo).1
      × (suc (length (tags_of repo).1) < fuel)

module _ (http : Http) (config : Registry) (scheme host : Str)
    (parsed : http.parse (config.scheme ++ lit "://" ++ config.url) ≡ some (scheme, host))
    (tags_of : TagPages) (fuel : ℕ) where
  get_tags-Serves :
      (repo : Str)
      → ServesTags http config scheme host tags_of fuel repo
      → get_tags_paginated http config fuel repo
        ≡ some (ok (all_items (tags_of repo).0 (tags_of repo).1))
  unfolding get_tags_paginated
  get_tags-Serves repo (s, lt) =
      get_pages-Serves http http.decode_tags config scheme host parsed fuel (tags_url config repo)
        (tags_of repo).0 (tags_of repo).1 []
        (is_empty-append (config.scheme ++ lit "://" ++ config.url ++ lit "/v2/" ++ repo)
          (lit "tags/list?n=100") b'/')
        lt s

  list_images-Serves :
      (repos : List Str)
      → All (ServesTags http config scheme host tags_of fuel) repos
      → list_images http config fuel repos ≡ some (ok (map (image_of tags_of) repos))
  unfolding list_images
  list_images-Serves [] a = refl
  list_images-Serves (repo ∷ repos) (s, a) =
      rw (list_images, get_tags-Serves repo s, list_images-Serves repos a) refl

  -- Let the registry serve its catalog in pages, and the tags of each repository, each page naming the
  -- next one in the header Link by a path with a leading slash, and the last one having no such header;
  -- and let url.Parse read the scheme and the host of the registry. With one request more than there are
  -- pages in any of the lists, listAllImages ends, and gives every repository, in the order of the
  -- pages, with all of its tags.
  pub list_all_images-Serves :
      (repos : List Str) (pages : List (Str × List Str))
      → suc (length pages) < fuel
      → Serves http http.decode_catalog config scheme host (catalog_url config) repos pages
      → All (ServesTags http config scheme host tags_of fuel) (all_items repos pages)
      → list_all_images http config fuel
        ≡ some (ok (map (image_of tags_of) (all_items repos pages)))
  unfolding list_all_images get_catalog_paginated
  list_all_images-Serves repos pages lt s a =
      let listed =
        get_pages-Serves http http.decode_catalog config scheme host parsed fuel
          (catalog_url config) repos pages []
          (is_empty-append (config.scheme ++ lit "://" ++ config.url) (lit "v2/_catalog?n=100")
            b'/')
          lt s in
      rw (list_all_images, get_catalog_paginated, listed)
        (list_images-Serves (all_items repos pages) a)
