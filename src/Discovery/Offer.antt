-- ===== src/Discovery/Offer.antt =====
-- What an offered update of server/src/update_discovery.rs has been through.
use luminos.Prelude.{
  ℕ, ◌≡◌, sym, true, false, Option, ok, arith, Result-cases, Bool-cases, inl, inr, length, subst,
}
use luminos.Text.{Text, codes, ends_with}
use luminos.Version.{NumericVersion, version_ltb, version_leb-not_ltb}
use luminos.State.Types.{UpdateChannel, ReplayDecision, accepted, already_seen, rejected_regression}
use luminos.State.Channel
use luminos.State.Db.{Db, Env}
use luminos.State.Store.{observe_manifest}
use luminos.Distribution.Assets.{IsLeaf}
use luminos.Trust.{verify_detached_signature_iff, pinned_key}
use luminos.Discovery.Types.{update_available, ValidatedManifest, Crates}
use luminos.Discovery.Manifest.{
  parse_version, verify_and_parse_manifest, outcome_for_manifest_for_versions,
}
use luminos.Discovery.Service.{candidate, decide, fetch_pair, fetch_validated_manifest_for_versions}
use luminos.Discovery.Origin.{
  IsFetched, IsParsed, fetch_pair-IsFetched, verify_and_parse_manifest-IsParsed,
}
use luminos.Discovery.Validated.{IsSound, validate_manifest_value-IsSound}
use luminos.Discovery.Gate.{parsed_is_verified, parsed_value}

module _ (running agent : Text) (m : ValidatedManifest) (v id name : Text)
    (h : outcome_for_manifest_for_versions running agent m ≡ ok (update_available v id name)) where
  outcome_versions :
      (r : NumericVersion) × (o : NumericVersion) × (parse_version running ≡ ok r)
      × (parse_version m.version ≡ ok o)
  unfolding outcome_for_manifest_for_versions
  outcome_versions = elim (Result-cases (parse_version running)) [
    | inr (e, failed) ↦ absurd (ground arith)
    | inl (r, read) ↦ elim (Result-cases (parse_version m.version)) [
      | inr (e, failed) ↦ absurd (ground arith)
      | inl (o, offered) ↦ (r, o, read, offered)
    ]
  ]

  outcome_offer :
      (r o : NumericVersion)
      → parse_version running ≡ ok r
      → parse_version m.version ≡ ok o
      → (v ≡ m.version)
        × (id ≡ m.release_id)
        × (name ≡ m.package_filename)
        × (version_ltb r o ≡ true)
  unfolding outcome_for_manifest_for_versions
  outcome_offer r o read offered =
      (ground arith, ground arith, ground arith, ground (arith, version_leb-not_ltb o r))

-- What stands behind an offer of version `v` as release `id` in the file `name`.
pub record IsEarned (x : Crates) (f : Text → Option ℕ) (c : UpdateChannel) (running : Text)
    (m : ValidatedManifest) (v id name : Text) (bytes signature : Text) : Type 0 where
  pub served : IsFetched x c bytes signature
  pub sized : length signature ≡ 64
  pub signed : x.ed25519 pinned_key bytes signature ≡ true
  pub parsed : IsParsed x c m bytes
  pub sound : IsSound x.parse_url f m
  pub leaf : IsLeaf m.package_filename
  pub extension : ends_with m.package_filename (codes ".popkg") ≡ true
  pub same_version : v ≡ m.version
  pub same_release : id ≡ m.release_id
  pub same_file : name ≡ m.package_filename
  pub running_version : NumericVersion
  pub offered_version : NumericVersion
  pub running_read : parse_version running ≡ ok running_version
  pub offered_read : parse_version m.version ≡ ok offered_version
  pub above : version_ltb running_version offered_version ≡ true

module _ (x : Crates) (env : Env) (c : UpdateChannel) (running agent : Text) (db : Db)
    (m : ValidatedManifest) (v id name : Text)
    (h : (fetch_validated_manifest_for_versions x env c running agent db).0
      ≡ ok (m, update_available v id name)) where
  open env use {parse_from_rfc3339 as f}

  offered_fetch : (bytes : Text) × (signature : Text) × (fetch_pair x env c ≡ ok (bytes, signature))
  unfolding fetch_validated_manifest_for_versions
  offered_fetch = elim (Bool-cases (Channel.is_disabled c)) [
    | inl off ↦ absurd (ground arith)
    | inr on ↦ elim (Result-cases (fetch_pair x env c)) [
      | inr (e, failed) ↦ absurd (ground arith)
      | inl ((bytes, signature), fetched) ↦ (bytes, signature, fetched)
    ]
  ]

  module _ (bytes signature : Text) (fetched : fetch_pair x env c ≡ ok (bytes, signature)) where
    offered_parse :
        (n : ValidatedManifest) × (verify_and_parse_manifest x f c bytes signature ≡ ok n)
    unfolding fetch_validated_manifest_for_versions
    offered_parse = elim (Bool-cases (Channel.is_disabled c)) [
      | inl off ↦ absurd (ground arith)
      | inr on ↦ elim (Result-cases (verify_and_parse_manifest x f c bytes signature)) [
        | inr (e, failed) ↦ absurd (ground arith)
        | inl found ↦ found
      ]
    ]

    offered_by :
        Channel.is_disabled c ≡ false
        → (n : ValidatedManifest) (d : ReplayDecision)
        → verify_and_parse_manifest x f c bytes signature ≡ ok n
        → (observe_manifest env (candidate x c bytes n) db).0 ≡ ok d
        → (m ≡ n)
          × (outcome_for_manifest_for_versions running agent n ≡ ok (update_available v id name))
    unfolding fetch_validated_manifest_for_versions decide
    offered_by on n rejected_regression read decided = absurd (ground arith)
    offered_by on n accepted read decided = (ground arith, ground arith)
    offered_by on n already_seen read decided = (ground arith, ground arith)

    offered_decision :
        (n : ValidatedManifest)
        → verify_and_parse_manifest x f c bytes signature ≡ ok n
        → (m ≡ n)
          × (outcome_for_manifest_for_versions running agent n ≡ ok (update_available v id name))
    unfolding fetch_validated_manifest_for_versions decide
    offered_decision n read = elim (Bool-cases (Channel.is_disabled c)) [
      | inl off ↦ absurd (ground arith)
      | inr on ↦ elim (Result-cases (observe_manifest env (candidate x c bytes n) db).0) [
        | inr (e, failed) ↦ absurd (ground arith)
        | inl (d, decided) ↦ offered_by on n d read decided
      ]
    ]

  -- The update that `fetch_validated_manifest_for_versions` offers comes from the channel's two URLs:
  -- the bytes that the manifest's URL serves have a 64-byte signature, served by the other URL, which
  -- verifies under the pinned key, and the manifest is what the JSON document in those same bytes
  -- says, a PhotoOS document of that channel. The manifest is sound, its file is a safe `.popkg`
  -- name, the offer repeats the manifest's version, release and file, and that version is above the
  -- running one.
  pub offer-IsEarned :
      (bytes : Text) × (signature : Text) × (fetch_pair x env c ≡ ok (bytes, signature))
      × IsEarned x f c running m v id name bytes signature
  offer-IsEarned =
      let (bytes, signature, fetched) = offered_fetch in
      let (n, read) = offered_parse bytes signature fetched in
      let (same, offered) = offered_decision bytes signature fetched n read in
      let (sized, signed) =
        (verify_detached_signature_iff x.ed25519 bytes signature).0
          (parsed_is_verified x env c bytes signature n read) in
      let (value, valid) = parsed_value x env c bytes signature n read in
      let (sound, leaf, extension) = validate_manifest_value-IsSound x f value c n valid in
      let (r, o, running_read, offered_read) = outcome_versions running agent n v id name offered in
      let (sv, si, sn, above) =
        outcome_offer running agent n v id name offered r o running_read offered_read in
      (
        bytes,
        signature,
        fetched,
        subst (λ k. IsEarned x f c running k v id name bytes signature) (sym same)
            (record {
              served = fetch_pair-IsFetched x env c bytes signature fetched;
              sized = sized;
              signed = signed;
              parsed = verify_and_parse_manifest-IsParsed x f c n bytes signature read;
              sound = sound;
              leaf = leaf;
              extension = extension;
              same_version = sv;
              same_release = si;
              same_file = sn;
              running_version = r;
              offered_version = o;
              running_read = running_read;
              offered_read = offered_read;
              above = above;
            }),
      )
