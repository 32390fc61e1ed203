-- ===== src/LoadDriver/Registry/Examples.antt =====
-- The theorem about the list of the images at a registry with two pages, and tests of its parts.
use ociregistry.Base.{
  ◌≡◌, refl, false, none, some, List, [], ◌∷◌, ◌++◌, Str, lit, map, str_eq, split, is_empty,
  has_prefix, contains_byte, trim_right, unsnoc, if◌then◌else◌, ok, arith,
}
use ociregistry.LoadDriver.Registry.{
  Reply, Http, Registry, trim_left_angles, trim_right_angles, next_page_of, next_page_in,
  get_next_page_url, list_all_images, filter_images,
}
use ociregistry.LoadDriver.Registry.Links.{next_link}
use ociregistry.LoadDriver.Registry.Pages.{TagPages, image_of, all_items, list_all_images-Serves}

abbrev reply : Str → Str → Reply
reply body link = record { status = 200; body = body; link = link }

abbrev last_page : Str
last_page = lit "v2/_catalog?n=100&last=b"

-- Bodies are lists with commas; every repository has the tags v1 and v2.
abbrev http : Http
http = record {
  new_request_fails = λ u. false;
  send = λ c u.
      if str_eq u (lit "http://r/v2/_catalog?n=100")
      then some (reply (lit "a,b") (next_link last_page))
      else if str_eq u (lit "http://r/" ++ last_page)
      then some (reply (lit "c") [])
      else some (reply (lit "v1,v2") []);
  decode_catalog = λ body. some (split body b',');
  decode_tags = λ body. some (split body b',');
  parse = λ u. some (lit "http", lit "r");
}

abbrev registry : Registry
registry = record { url = lit "r"; scheme = lit "http"; username = []; password = [] }

abbrev tags_of : TagPages
tags_of repo = (lit "v1" ∷ lit "v2" ∷ [], [])

abbrev repos : List Str
repos = lit "a" ∷ lit "b" ∷ []

abbrev pages : List (Str × List Str)
pages = (last_page, lit "c" ∷ []) ∷ []

list_all_images-Serves_example :
    list_all_images http registry 3 ≡ some (ok (map (image_of tags_of) (all_items repos pages)))
unfolding split str_eq contains_byte is_empty
list_all_images-Serves_example =
    list_all_images-Serves http registry (lit "http") (lit "r") refl tags_of 3 repos pages
      (omega arith) ((refl, refl, refl), (refl, _, refl, refl), (refl, _, refl, refl))
      (
        ((refl, _, refl, refl), omega arith),
        (((refl, _, refl, refl), omega arith), (((refl, _, refl, refl), omega arith), tt)),
      )

-- A path without a leading slash is joined without the scheme.
relative : get_next_page_url http (lit "<v2/x>; rel=next") (lit "http") (lit "r") ≡ lit "rv2/x"
unfolding get_next_page_url next_page_in next_page_of split is_empty has_prefix trim_right unsnoc
    trim_left_angles trim_right_angles
relative = refl

-- An image without tags.
no_tags : filter_images (λ s. false) (record { repository = lit "a"; tags = [] } ∷ []) ≡ none
unfolding filter_images
no_tags = refl
