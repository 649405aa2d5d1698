-- ===== src/Distribution/Assets.antt =====
-- What `validate_release_asset_url` accepts.
use luminos.Prelude.{
  ◌≡◌, ◌≢◌, ◌↔◌, ◌⊎◌, inl, inr, true, false, Option, none, some, List, [], ◌∷◌, ok, arith,
  Option-cases, Result-cases, ap, ◌∙◌, subst,
}
use luminos.Text.{Text, codes, text_eq_iff, ends_with, contains_byte, text_eq_refl}
use luminos.Distribution.Policy.{
  Url, owner, repository, release_host, parse_https_url, validate_leaf_filename,
  has_release_path_escape, official_segments, last_segment, official_release_path,
  validate_release_asset_url,
}

-- A file name that names no other directory, and nothing that a URL would decode or cut off.
pub record IsLeaf (name : Text) : Type 0 where
  pub not_empty : name ≢ []
  pub not_here : name ≢ codes "."
  pub not_up : name ≢ codes ".."
  pub no_slash : contains_byte name b'/' ≡ false
  pub no_backslash : contains_byte name 0x5c ≡ false
  pub no_query : contains_byte name b'?' ≡ false
  pub no_fragment : contains_byte name b'#' ≡ false
  pub no_escape : contains_byte name b'%' ≡ false
  pub extension :
      (ends_with name (codes ".popkg") ≡ true) ⊎ (ends_with name (codes ".popkg.sig") ≡ true)

-- A plain HTTPS URL of the release repository whose last segment is the file.
pub record IsOfficialAsset (url : Url) (filename tag : Text) : Type 0 where
  pub https : url.scheme ≡ codes "https"
  pub no_user : url.username ≡ []
  pub no_password : url.password ≡ none
  pub no_port : url.port ≡ none
  pub no_fragment : url.fragment ≡ none
  pub no_query : url.query ≡ none
  pub host : url.host_str ≡ some release_host
  pub tag_named : tag ≢ []
  pub tag_not_here : tag ≢ codes "."
  pub tag_not_up : tag ≢ codes ".."
  pub segments :
      url.path_segments
      ≡ some (owner ∷ repository ∷ codes "releases" ∷ codes "download" ∷ tag ∷ filename ∷ [])

pub IsLeaf-sound : (name : Text) → validate_leaf_filename name ≡ ok tt → IsLeaf name
unfolding validate_leaf_filename
IsLeaf-sound name h = ground (arith, text_eq_iff name (codes "."), text_eq_iff name (codes ".."))

leaf_complete : (name : Text) → IsLeaf name → validate_leaf_filename name ≡ ok tt
unfolding validate_leaf_filename
leaf_complete name h = ground (arith, text_eq_iff name (codes "."), text_eq_iff name (codes ".."))

-- A URL that has passed `parse_https_url`.
abbrev pub IsPlainHttps : Url → Type 0
IsPlainHttps url =
    (url.scheme ≡ codes "https")
    × (url.username ≡ [])
    × (url.password ≡ none)
    × (url.port ≡ none)
    × (url.fragment ≡ none)

pub https_sound :
    (parse : Text → Option Url) (raw : Text) (url : Url)
    → parse_https_url parse raw ≡ ok url
    → (parse raw ≡ some url) × IsPlainHttps url
unfolding parse_https_url
https_sound parse raw url h = elim (Option-cases (parse raw)) [
  | inl missing ↦ absurd (ground arith)
  | inr (u, found) ↦
      let same : u ≡ url = ground arith in
      let plain : IsPlainHttps u = ground (arith, text_eq_iff u.scheme (codes "https")) in
      (found ∙ ap some same, subst IsPlainHttps same plain)
]

pub https_complete :
    (parse : Text → Option Url) (raw : Text) (url : Url)
    → parse raw ≡ some url
    → IsPlainHttps url
    → parse_https_url parse raw ≡ ok url
unfolding parse_https_url
https_complete parse raw url h p = ground (arith, text_eq_iff url.scheme (codes "https"))

-- The segments of an official release path, once the last one is the file.
segments_sound :
    (ss : List Text) (filename : Text)
    → official_segments ss ≡ true
    → last_segment ss ≡ some filename
    → (tag : Text) × (tag ≢ [])
      × (tag ≢ codes ".")
      × (tag ≢ codes "..")
      × (ss ≡ owner ∷ repository ∷ codes "releases" ∷ codes "download" ∷ tag ∷ filename ∷ [])
unfolding official_segments last_segment
segments_sound [] filename h l = cc
segments_sound (a ∷ []) filename h l = cc
segments_sound (a ∷ b ∷ []) filename h l = cc
segments_sound (a ∷ b ∷ c ∷ []) filename h l = cc
segments_sound (a ∷ b ∷ c ∷ d ∷ []) filename h l = cc
segments_sound (a ∷ b ∷ c ∷ d ∷ e ∷ []) filename h l = cc
segments_sound (a ∷ b ∷ c ∷ d ∷ e ∷ f ∷ []) filename h l = (
  e,
  ground arith,
  ground (arith, text_eq_iff e (codes ".")),
  ground (arith, text_eq_iff e (codes "..")),
  ground (
    arith,
    text_eq_iff a owner,
    text_eq_iff b repository,
    text_eq_iff c (codes "releases"),
    text_eq_iff d (codes "download"),
  ),
)
segments_sound (a ∷ b ∷ c ∷ d ∷ e ∷ f ∷ g ∷ ss) filename h l = cc

pub asset_url :
    (parse : Text → Option Url) (raw filename : Text)
    → validate_release_asset_url parse raw filename ≡ ok tt
    → (url : Url) × (parse_https_url parse raw ≡ ok url)
unfolding validate_release_asset_url
asset_url parse raw filename h = elim (Result-cases (parse_https_url parse raw)) [
  | inl found ↦ found
  | inr (e, failed) ↦ absurd (ground arith)
]

pub asset_facts :
    (parse : Text → Option Url) (raw filename : Text) (url : Url) (ss : List Text)
    → validate_release_asset_url parse raw filename ≡ ok tt
    → parse_https_url parse raw ≡ ok url
    → url.path_segments ≡ some ss
    → (validate_leaf_filename filename ≡ ok tt)
      × (has_release_path_escape raw ≡ false)
      × (url.host_str ≡ some release_host)
      × (url.query ≡ none)
      × (official_segments ss ≡ true)
      × (last_segment ss ≡ some filename)
unfolding validate_release_asset_url official_release_path
asset_facts parse raw filename url ss h p s = elim (Option-cases url.host_str) [
  | inl missing ↦ absurd (ground arith)
  | inr (host, named) ↦ elim (Option-cases (last_segment ss)) [
    | inl missing ↦ absurd (ground arith)
    | inr (leaf, last) ↦ (
      ground arith,
      ground arith,
      ground (arith, text_eq_iff host release_host),
      ground arith,
      ground arith,
      ground (arith, text_eq_iff leaf filename),
    )
  ]
]

pub asset_segments :
    (parse : Text → Option Url) (raw filename : Text) (url : Url)
    → validate_release_asset_url parse raw filename ≡ ok tt
    → parse_https_url parse raw ≡ ok url
    → (ss : List Text) × (url.path_segments ≡ some ss)
unfolding validate_release_asset_url official_release_path
asset_segments parse raw filename url h p = elim (Option-cases url.path_segments) [
  | inl missing ↦ absurd (ground arith)
  | inr found ↦ found
]

asset_sound :
    (parse : Text → Option Url) (raw filename : Text)
    → validate_release_asset_url parse raw filename ≡ ok tt
    → IsLeaf filename
      × (has_release_path_escape raw ≡ false)
      × (url : Url) × (tag : Text) × (parse raw ≡ some url)
      × IsOfficialAsset url filename tag
asset_sound parse raw filename h =
    let (url, plain) = asset_url parse raw filename h in
    let (ss, listed) = asset_segments parse raw filename url h plain in
    let (leaf, clean, host, query, official, last) =
      asset_facts parse raw filename url ss h plain listed in
    let (parsed, https) = https_sound parse raw url plain in
    let (tag, named, not_here, not_up, shape) = segments_sound ss filename official last in
    (
      IsLeaf-sound filename leaf,
      clean,
      url,
      tag,
      parsed,
      record {
        https = https.0;
        no_user = https.1;
        no_password = https.2;
        no_port = https.3;
        no_fragment = https.4;
        no_query = query;
        host = host;
        tag_named = named;
        tag_not_here = not_here;
        tag_not_up = not_up;
        segments = listed ∙ ap some shape;
      },
    )

official_complete :
    (tag filename : Text)
    → tag ≢ []
    → tag ≢ codes "."
    → tag ≢ codes ".."
    → filename ≢ []
    → official_segments
        (owner ∷ repository ∷ codes "releases" ∷ codes "download" ∷ tag ∷ filename ∷ [])
      ≡ true
unfolding official_segments
official_complete tag filename a b c d = ground (
  arith,
  text_eq_refl owner,
  text_eq_refl repository,
  text_eq_refl (codes "releases"),
  text_eq_refl (codes "download"),
  text_eq_iff tag (codes "."),
  text_eq_iff tag (codes ".."),
)

asset_complete :
    (parse : Text → Option Url) (raw filename : Text) (url : Url) (tag : Text)
    → IsLeaf filename
    → has_release_path_escape raw ≡ false
    → parse raw ≡ some url
    → IsOfficialAsset url filename tag
    → validate_release_asset_url parse raw filename ≡ ok tt
unfolding validate_release_asset_url official_release_path
asset_complete parse raw filename url tag leaf clean parsed a = ground (
  arith,
  leaf_complete filename leaf,
  https_complete parse raw url parsed (a.https, a.no_user, a.no_password, a.no_port, a.no_fragment),
  text_eq_refl release_host,
  text_eq_refl filename,
  official_complete tag filename a.tag_named a.tag_not_here a.tag_not_up leaf.not_empty,
)

-- `validate_release_asset_url` accepts exactly the plain HTTPS URLs of a file of a release of the
-- official repository, under a safe file name and without an escaped path, and no other URL.
pub validate_release_asset_url_iff :
    (parse : Text → Option Url) (raw filename : Text)
    → (validate_release_asset_url parse raw filename ≡ ok tt) ↔ (
        IsLeaf filename
        × (has_release_path_escape raw ≡ false)
        × (url : Url) × (tag : Text) × (parse raw ≡ some url)
        × IsOfficialAsset url filename tag)
validate_release_asset_url_iff parse raw filename = (
  asset_sound parse raw filename,
  λ (leaf, clean, url, tag, parsed, a).
      asset_complete parse raw filename url tag leaf clean parsed a,
)
