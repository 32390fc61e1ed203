-- ===== src/PullRequest.antt =====
-- impl/pullrequest/pullrequest.go: an image reference, taken from the parts of a REST request or from
-- an image url, and the urls that it is cached under.
pub mod RoundTrip
pub mod Sources
pub mod DockerAlias
mod Examples
use ociregistry.Base.{
  ℕ, ◌≡◌, Bool, true, false, ◌&&◌, ◌||◌, not, Option, none, some, List, [], ◌∷◌, ◌++◌, Str, lit,
  str_eq, is_empty, has_prefix, contains_byte, cut, split, join, to_lower, if◌then◌else◌, Result,
  ok, err, ◌>>=◌,
}

pub data PullType : Type 0 where
  by_tag by_digest : PullType

abbrev pub is_by_tag : PullType → Bool
is_by_tag by_tag = true
is_by_tag by_digest = false

pub record PullRequest : Type 0 where
  pub pull_type : PullType
  pub repository : Str
  pub reference : Str
  pub remote : Str

-- The errors that the constructors return; `index_out_of_range` is Go's panic on `segments[0]`.
pub data PullError : Type 0 where
  no_remote no_image_name two_namespaces unparsable_url index_out_of_range : PullError

abbrev pub sha256_prefix : Str
sha256_prefix = lit "sha256:"

-- typeFromRef
unfoldable pub type_from_ref : Str → PullType
type_from_ref ref = if has_prefix ref sha256_prefix then by_digest else by_tag

-- What the `switch` of NewPullRequest decides: the remote, and the segments from `frst` on.
pub record Chosen : Type 0 where
  pub remote : Str
  pub rest : List Str

-- Its last three cases, which look at the left-most segment.
unfoldable pub remote_from_segments : Str → List Str → Result PullError Chosen
remote_from_segments default_ns [] = err index_out_of_range
remote_from_segments default_ns (s ∷ ss) =
    if contains_byte s b'.'
    then ok (record { remote = s; rest = ss })
    else if not (is_empty default_ns)
    then ok (record { remote = default_ns; rest = s ∷ ss })
    else err no_remote

unfoldable pub remote_from_ns : Option Str → Str → List Str → Result PullError Chosen
remote_from_ns (some ns) default_ns segments = ok (record { remote = ns; rest = segments })
remote_from_ns none default_ns segments = remote_from_segments default_ns segments

unfoldable pub choose_remote : Str → Option Str → Str → List Str → Result PullError Chosen
choose_remote hdr ns default_ns segments =
    if not (is_empty hdr)
    then ok (record { remote = hdr; rest = segments })
    else remote_from_ns ns default_ns segments

-- What follows the `switch`: the repository from the segments that are left.
unfoldable pub repository_from : List Str → Result PullError Str
repository_from [] = err no_image_name
repository_from (s ∷ ss) =
    if contains_byte s b'.' then err two_namespaces else ok (join (s ∷ ss) (lit "/"))

-- NewPullRequest
unfoldable pub new_pull_request :
    Str → Option Str → Str → Str → List Str → Result PullError PullRequest
new_pull_request hdr ns default_ns reference segments = do
  chosen ← choose_remote hdr ns default_ns segments
  repository ← repository_from chosen.rest
  ok (record {
    pull_type = type_from_ref reference;
    repository = repository;
    reference = to_lower reference;
    remote = chosen.remote;
  })

-- The loop over the separators of NewPullRequestFromUrl: repository and reference, or none where
-- neither separator occurs. A string that contains the separator splits into two pieces or more.
abbrev pub first_two : List Str → Str × Str
first_two (a ∷ (b ∷ ps)) = (a, b)
first_two (a ∷ []) = (a, [])
first_two [] = ([], [])

unfoldable pub split_reference : Str → Str × Str
split_reference after =
    if contains_byte after b'@'
    then first_two (split after b'@')
    else if contains_byte after b':'
    then first_two (split after b':')
    else ([], [])

-- NewPullRequestFromUrl
unfoldable pub new_pull_request_from_url : Str → Result PullError PullRequest
new_pull_request_from_url url =
    let parts = cut url b'/' in
    if not parts.found || is_empty parts.after || not (contains_byte parts.before b'.')
    then err unparsable_url
    else let rr = split_reference parts.after in
      if is_empty rr.0
      then err unparsable_url
      else ok (record {
        pull_type = type_from_ref rr.1;
        repository = to_lower rr.0;
        reference = to_lower rr.1;
        remote = to_lower parts.before;
      })

unfoldable pub separator : Str → Str
separator reference = if has_prefix reference sha256_prefix then lit "@" else lit ":"

-- Url
unfoldable pub url : PullRequest → Str
url pr = pr.remote ++ (lit "/" ++ (pr.repository ++ (separator pr.reference ++ pr.reference)))

-- UrlWithDigest
unfoldable pub url_with_digest : PullRequest → Str → Str
url_with_digest pr digest = pr.remote ++ (lit "/" ++ (pr.repository ++ (lit "@" ++ digest)))

-- AltDockerUrl
unfoldable pub alt_docker_url : PullRequest → Str
alt_docker_url pr =
    if not (str_eq pr.remote (lit "docker.io"))
    then []
    else let parts = cut pr.repository b'/' in
      if parts.found && str_eq parts.before (lit "library")
      then pr.remote ++ (lit "/" ++ (parts.after ++ (separator pr.reference ++ pr.reference)))
      else pr.remote
        ++ (lit "/"
            ++ (lit "library"
                ++ (lit "/" ++ (pr.repository ++ (separator pr.reference ++ pr.reference)))))

-- IsLatest
unfoldable pub is_latest : PullRequest → Bool
is_latest pr = str_eq (to_lower pr.reference) (lit "latest")
