-- ===== src/PullRequest/Examples.antt =====
-- Tests of the pull requests, and the theorems at concrete inputs.
use ociregistry.Base.{
  ◌≡◌, ◌↔◌, List, Str, refl, none, [], ◌∷◌, lit, is_empty, has_prefix, contains_byte, join,
  to_lower, ok, err,
}
use ociregistry.PullRequest.{
  PullRequest, by_tag, type_from_ref, choose_remote, remote_from_ns, remote_from_segments,
  repository_from, separator, new_pull_request, new_pull_request_from_url, url, no_remote,
  two_namespaces,
}
use ociregistry.PullRequest.RoundTrip.{IsCanonical, from_url-url}
use ociregistry.PullRequest.Sources.{new_pull_request-ok_iff, no_remote_iff, IsSource, HasReference}

abbrev argocd : PullRequest
argocd = record {
  pull_type = by_tag;
  repository = lit "argoproj/argocd";
  reference = lit "v2.11.11";
  remote = lit "quay.io";
}

argocd-IsCanonical : IsCanonical argocd
unfolding contains_byte is_empty to_lower has_prefix type_from_ref
argocd-IsCanonical = record {
  remote_dot = refl;
  remote_slash = refl;
  remote_lower = refl;
  repository_some = refl;
  repository_at = refl;
  repository_colon = refl;
  repository_lower = refl;
  reference_at = refl;
  reference_lower = refl;
  reference_type = refl;
  tag_colon = λ e. refl;
}

argocd-url : url argocd ≡ lit "quay.io/argoproj/argocd:v2.11.11"
unfolding url separator has_prefix
argocd-url = refl

from_url-url_example : new_pull_request_from_url (url argocd) ≡ ok argocd
from_url-url_example = from_url-url argocd argocd-IsCanonical

argocd_request :
    new_pull_request [] none []
      (lit "v2.11.11")
      (lit "quay.io" ∷ lit "argoproj" ∷ lit "argocd" ∷ [])
    ≡ ok argocd
unfolding new_pull_request choose_remote remote_from_ns remote_from_segments repository_from
    is_empty contains_byte join to_lower type_from_ref has_prefix
argocd_request = refl

two_namespaces_test :
    new_pull_request (lit "quay.io") none [] (lit "v1") (lit "docker.io" ∷ lit "x" ∷ [])
    ≡ err two_namespaces
unfolding new_pull_request choose_remote remote_from_ns remote_from_segments repository_from
    is_empty contains_byte
two_namespaces_test = refl

abbrev segments : List Str
segments = lit "quay.io" ∷ lit "argoproj" ∷ lit "argocd" ∷ []

new_pull_request-ok_iff_example :
    (new_pull_request [] none [] (lit "v2.11.11") segments ≡ ok argocd)
    ↔ (HasReference (lit "v2.11.11") argocd × IsSource [] none [] segments argocd)
new_pull_request-ok_iff_example =
    new_pull_request-ok_iff [] none [] (lit "v2.11.11") segments argocd

no_remote_example : new_pull_request [] none [] (lit "v1") (lit "foo" ∷ []) ≡ err no_remote
unfolding is_empty contains_byte
no_remote_example = (no_remote_iff [] none [] (lit "v1") (lit "foo") []).1 (refl, refl, refl, refl)
