-- ===== src/Distribution/Redirects.antt =====
-- What `validate_redirect_target` accepts, and how it relates to the asset URLs.
use luminos.Prelude.{
  ◌≡◌, ◌↔◌, ◌⊎◌, sym, inl, inr, refl, true, false, Option, none, some, List, ok, arith,
  Option-cases, Result-cases, ◌∙◌,
}
use luminos.Text.{Text, codes, text_eq, text_eq_iff, starts_with, text_eq_refl}
use luminos.Distribution.Policy.{
  Url, release_host, release_asset_host, parse_https_url, has_release_path_escape,
  official_release_path, official_segments, validate_release_asset_url, redirect_by_host,
  validate_redirect_target,
}
use luminos.Distribution.Assets.{
  IsPlainHttps, https_sound, https_complete, asset_url, asset_facts, asset_segments,
}

-- A redirect target on the release host, under the same rules as an asset.
pub record IsReleaseRedirect (raw : Text) (url : Url) : Type 0 where
  pub host : url.host_str ≡ some release_host
  pub clean : has_release_path_escape raw ≡ false
  pub no_query : url.query ≡ none
  pub official : official_release_path url ≡ true

-- A redirect target on the asset host, where only the start of the path is checked.
pub record IsAssetRedirect (url : Url) : Type 0 where
  pub host : url.host_str ≡ some release_asset_host
  pub under : starts_with url.path (codes "/github-production-release-asset/") ≡ true

hosts_differ : text_eq release_asset_host release_host ≡ false
unfolding text_eq
hosts_differ = refl

redirect_by_host_sound :
    (raw : Text) (url : Url)
    → redirect_by_host raw url ≡ ok tt
    → IsReleaseRedirect raw url ⊎ IsAssetRedirect url
unfolding redirect_by_host
redirect_by_host_sound raw url h = elim (Option-cases url.host_str) [
  | inl missing ↦ absurd (ground arith)
  | inr (host, named) ↦
      ground (arith, text_eq_iff host release_host, text_eq_iff host release_asset_host)
]

redirect_by_host_complete :
    (raw : Text) (url : Url)
    → IsReleaseRedirect raw url ⊎ IsAssetRedirect url
    → redirect_by_host raw url ≡ ok tt
unfolding redirect_by_host
redirect_by_host_complete raw url h =
    ground (arith, text_eq_refl release_host, text_eq_refl release_asset_host, hosts_differ)

redirect_url :
    (parse : Text → Option Url) (raw : Text)
    → validate_redirect_target parse raw ≡ ok tt
    → (url : Url) × (parse_https_url parse raw ≡ ok url)
unfolding validate_redirect_target
redirect_url parse raw h = elim (Result-cases (parse_https_url parse raw)) [
  | inl found ↦ found
  | inr (e, failed) ↦ absurd (ground arith)
]

redirect_by :
    (parse : Text → Option Url) (raw : Text) (url : Url)
    → parse_https_url parse raw ≡ ok url
    → validate_redirect_target parse raw ≡ redirect_by_host raw url
unfolding validate_redirect_target
redirect_by parse raw url h = ground arith

-- A redirect is followed exactly to a plain HTTPS URL that is an official release path of the
-- release host, or lies under the asset prefix of the asset host.
pub validate_redirect_target_iff :
    (parse : Text → Option Url) (raw : Text)
    → (validate_redirect_target parse raw ≡ ok tt) ↔ (
        (url : Url) × (parse raw ≡ some url)
        × IsPlainHttps url
        × (IsReleaseRedirect raw url ⊎ IsAssetRedirect url))
validate_redirect_target_iff parse raw = (
  λ h.
      let (url, plain) = redirect_url parse raw h in
      let (parsed, https) = https_sound parse raw url plain in
      (
        url,
        parsed,
        https,
        redirect_by_host_sound raw url (sym (redirect_by parse raw url plain) ∙ h),
      ),
  λ (url, parsed, https, where_to).
      redirect_by parse raw url (https_complete parse raw url parsed https)
      ∙ redirect_by_host_complete raw url where_to,
)

path_of_segments :
    (url : Url) (ss : List Text)
    → url.path_segments ≡ some ss
    → official_segments ss ≡ true
    → official_release_path url ≡ true
unfolding official_release_path
path_of_segments url ss h o = ground arith

-- Every asset URL that a manifest may name is itself an allowed redirect target.
pub asset-redirect :
    (parse : Text → Option Url) (raw filename : Text)
    → validate_release_asset_url parse raw filename ≡ ok tt
    → validate_redirect_target parse raw ≡ ok tt
asset-redirect parse raw filename h =
    let (url, plain) = asset_url parse raw filename h in
    let (ss, listed) = asset_segments parse raw filename url h plain in
    let (leaf, clean, host, query, official, last) =
      asset_facts parse raw filename url ss h plain listed in
    redirect_by parse raw url plain
    ∙ redirect_by_host_complete raw url (
        inl (record {
          host = host;
          clean = clean;
          no_query = query;
          official = path_of_segments url ss listed official;
        }))
