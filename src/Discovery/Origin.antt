-- ===== src/Discovery/Origin.antt =====
-- Where a manifest that passes `verify_and_parse_manifest` of server/src/update_discovery.rs comes
-- from: the document in the bytes whose signature was verified, and the responses of the channel.
use luminos.Prelude.{
  ℕ, ◌≡◌, ◌⊎◌, refl, inl, inr, Option, some, ok, arith, Option-cases, Result-cases,
}
use luminos.Text.{Text, codes, text_eq_iff}
use luminos.State.Types.{UpdateChannel, stable, beta}
use luminos.State.Types
use luminos.State.Db.{Env}
use luminos.Distribution.Policy.{
  channel_manifest_url, channel_signature_url, max_manifest_bytes, max_signature_bytes,
}
use luminos.Discovery.Types.{ManifestDocument, ValidatedManifest, Response, Crates}
use luminos.Discovery.Fetch.{IsBounded, fetch_bounded, fetch_bounded_sound}
use luminos.Discovery.Manifest.{
  expected_channel_name, validate_document, validate_manifest_value, verify_and_parse_manifest,
}
use luminos.Discovery.Service.{urls, fetch_pair}

-- The manifest that says what a document says.
abbrev pub manifest_of : ManifestDocument → ValidatedManifest
manifest_of d = record {
  version = d.version;
  release_id = d.release_id;
  published_at = d.published_at;
  source_commit = d.source_commit;
  package_filename = d.package_.filename;
  package_size = d.package_.size;
  package_sha256 = d.package_.sha256;
  package_signature_url = d.package_.signature_url;
  package_download_url = d.package_.download_url;
  minimum_photoos_version = d.minimums.photoos_version;
  minimum_update_agent_version = d.minimums.update_agent_version;
  release_notes = d.release_notes;
}

abbrev pub IsNamed : UpdateChannel → Text → Type 0
IsNamed c name = ((c ≡ stable) × (name ≡ codes "stable")) ⊎ ((c ≡ beta) × (name ≡ codes "beta"))

-- The bytes are JSON of a PhotoOS document of the channel, which says what the manifest says.
pub record IsParsed (x : Crates) (c : UpdateChannel) (m : ValidatedManifest) (bytes : Text)
    : Type 0 where
  pub value : x.Value
  pub document : ManifestDocument
  pub read : x.from_slice bytes ≡ some value
  pub decoded : x.from_value value ≡ some document
  pub schema : document.schema_version ≡ 1
  pub product : document.product ≡ codes "PhotoOS"
  pub channel : IsNamed c document.channel
  pub same : m ≡ manifest_of document

-- A body of a limited size that the release server has sent for a URL.
pub record IsServed (x : Crates) (url : Text) (maximum : ℕ) (body : Text) : Type 0 where
  pub response : Response
  pub sent : x.send url ≡ some response
  pub bounded : IsBounded maximum response body

-- The bytes and the signature are what the channel's two URLs serve.
pub record IsFetched (x : Crates) (c : UpdateChannel) (bytes signature : Text) : Type 0 where
  pub manifest_url : Text
  pub signature_url : Text
  pub manifest_named : channel_manifest_url c ≡ some manifest_url
  pub signature_named : channel_signature_url c ≡ some signature_url
  pub manifest_served : IsServed x manifest_url max_manifest_bytes bytes
  pub signature_served : IsServed x signature_url max_signature_bytes signature

IsNamed-document :
    (c : UpdateChannel) (name : Text) → expected_channel_name c ≡ ok name → IsNamed c name
unfolding expected_channel_name
IsNamed-document stable name h = inl (refl, ground arith)
IsNamed-document beta name h = inr (refl, ground arith)
IsNamed-document Types.disabled name h = cc

module _ (x : Crates) (f : Text → Option ℕ) (c : UpdateChannel) (m : ValidatedManifest) where
  document-IsParsed :
      (bytes : Text) (value : x.Value) (d : ManifestDocument)
      → x.from_slice bytes ≡ some value
      → x.from_value value ≡ some d
      → validate_document x.parse_url f d c ≡ ok m
      → IsParsed x c m bytes
  unfolding validate_document
  document-IsParsed bytes value d read decoded h = elim (Result-cases (expected_channel_name c)) [
    | inr (e, failed) ↦ absurd (ground arith)
    | inl (name, named) ↦ record {
      value = value;
      document = d;
      read = read;
      decoded = decoded;
      schema = ground arith;
      product = ground (arith, text_eq_iff d.product (codes "PhotoOS"));
      channel = IsNamed-document c d.channel (ground (arith, text_eq_iff d.channel name));
      same = ground arith;
    }
  ]

  value-IsParsed :
      (bytes : Text) (value : x.Value)
      → x.from_slice bytes ≡ some value
      → validate_manifest_value x f value c ≡ ok m
      → IsParsed x c m bytes
  unfolding validate_manifest_value
  value-IsParsed bytes value read h = elim (Option-cases (x.from_value value)) [
    | inl missing ↦ absurd (ground arith)
    | inr (d, decoded) ↦ document-IsParsed bytes value d read decoded (ground arith)
  ]

  pub verify_and_parse_manifest-IsParsed :
      (bytes signature : Text)
      → verify_and_parse_manifest x f c bytes signature ≡ ok m
      → IsParsed x c m bytes
  unfolding verify_and_parse_manifest
  verify_and_parse_manifest-IsParsed bytes signature h = elim (Option-cases (x.from_slice bytes)) [
    | inl missing ↦ absurd (ground arith)
    | inr (value, read) ↦ value-IsParsed bytes value read (ground arith)
  ]

bounded-IsServed :
    (x : Crates) (url : Text) (maximum : ℕ) (body : Text)
    → fetch_bounded x url maximum ≡ ok body
    → IsServed x url maximum body
bounded-IsServed x url maximum body h =
    let (response, sent, bounded) = fetch_bounded_sound x url maximum body h in
    record { response = response; sent = sent; bounded = bounded }

pub fetch_pair-IsFetched :
    (x : Crates) (env : Env) (c : UpdateChannel) (bytes signature : Text)
    → fetch_pair x env c ≡ ok (bytes, signature)
    → IsFetched x c bytes signature
unfolding fetch_pair urls
fetch_pair-IsFetched x env c bytes signature h = elim (Option-cases (channel_manifest_url c)) [
  | inl missing ↦ absurd (ground arith)
  | inr (url, named) ↦ elim (Option-cases (channel_signature_url c)) [
    | inl missing ↦ absurd (ground arith)
    | inr (sig_url, sig_named) ↦ elim (Result-cases (fetch_bounded x url max_manifest_bytes)) [
      | inr (e, failed) ↦ absurd (ground arith)
      | inl (body, got) ↦ elim (Result-cases (fetch_bounded x sig_url max_signature_bytes)) [
        | inr (e, failed) ↦ absurd (ground arith)
        | inl (sig, sig_got) ↦ record {
          manifest_url = url;
          signature_url = sig_url;
          manifest_named = named;
          signature_named = sig_named;
          manifest_served = bounded-IsServed x url max_manifest_bytes bytes (ground arith);
          signature_served =
              bounded-IsServed x sig_url max_signature_bytes signature (ground arith);
        }
      ]
    ]
  ]
]
