-- ===== src/PullRequest/DockerAlias.antt =====
-- AltDockerUrl of impl/pullrequest/pullrequest.go: the names docker.io/x and docker.io/library/x.
use ociregistry.Base.{◌≡◌, Bool, false, ◌&&◌, ◌++◌, lit, str_eq, cut}
use ociregistry.PullRequest.{PullRequest, url, alt_docker_url}

-- docker.io/x with its repository spelt library/x
abbrev pub in_library : PullRequest → PullRequest
in_library pr = record pr { repository = lit "library" ++ (lit "/" ++ pr.repository) }

abbrev pub is_in_library : PullRequest → Bool
is_in_library pr =
    (cut pr.repository b'/').found && str_eq (cut pr.repository b'/').before (lit "library")

-- On docker.io, of a repository that is not in `library/` and the same one with `library/` before it,
-- each has the url of the other as its alternative url.
pub alt_docker_url_mutual :
    (pr : PullRequest)
    → pr.remote ≡ lit "docker.io"
    → is_in_library pr ≡ false
    → (alt_docker_url pr ≡ url (in_library pr)) × (alt_docker_url (in_library pr) ≡ url pr)
unfolding alt_docker_url url cut str_eq
alt_docker_url_mutual pr d n = (rw (d, n), rw d)
