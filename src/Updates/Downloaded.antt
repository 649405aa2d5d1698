-- ===== src/Updates/Downloaded.antt =====
-- What `download_update` of server/src/handlers/updates.rs has done when it comes to its end.
use luminos.Prelude.{
  ◌≡◌, refl, sym, ◌∙◌, ap, subst, true, some, Result, ok, err, map_err, length, arith, Result-cases,
  inl, inr,
}
use luminos.Text.{Text}
use luminos.Trust.{pinned_key}
use luminos.State.Types.{UpdateChannel}
use luminos.State.Db.{Env, Db}
use luminos.State.Store.{ensure_schema, get_channel}
use luminos.Discovery.Types.{ValidatedManifest}
use luminos.Discovery.Offer.{IsEarned, offer-IsEarned}
use luminos.Agent.Flow.{StagedPackage}
use luminos.Download.Files.{Io, join}
use luminos.Download.Request.{PackageDownloadRequest}
use luminos.Download.Http.{fetch_signature}
use luminos.Download.Stage.{final_path, download_and_stage}
use luminos.Download.Staged.{download_and_stage_sound}
use luminos.Updates.Server.{Response, Site, Server, lift, on_disk}
use luminos.Updates.Access.{Headers, require_admin}
use luminos.Updates.Target.{UpdateTarget, update_staging_directory, current_manifest}
use luminos.Updates.Download.{
  package_download_request_from_manifest, staged_download_response, download_manifest,
  download_update,
}
use luminos.Updates.Ends.{
  bind-ok, lift_bind-ok, lift-ok, on_disk-ok, ok_inj, IsCurrent, current_manifest-IsCurrent,
  admin_keeps,
}

-- The signed manifest that a target names: the stored channel serves it under a pinned signature,
-- and offers it above the running version, with the target's version, release and file.
pub record IsOffered (env : Env) (site : Site) (start : Db) (target : UpdateTarget)
    (m : ValidatedManifest) : Type 0 where
  pub channel : UpdateChannel
  pub stored : (get_channel env (ensure_schema env start).1).0 ≡ ok channel
  pub bytes : Text
  pub signature : Text
  pub earned :
      IsEarned site.crates env.parse_from_rfc3339 channel site.running_version m target.version
        target.release_id target.package_filename bytes signature

pub current-IsOffered :
    (env : Env) (site : Site) (start : Db) (target : UpdateTarget) (m : ValidatedManifest)
    → IsCurrent env site start target m
    → IsOffered env site start target m
current-IsOffered env site start target m h =
    let (bytes, signature, _, e) =
      offer-IsEarned site.crates env h.channel site.running_version h.agent h.db m h.version h.id
        h.name h.fetched in
    record {
      channel = h.channel;
      stored = h.stored;
      bytes = bytes;
      signature = signature;
      earned = record {
        served = e.served;
        sized = e.sized;
        signed = e.signed;
        parsed = e.parsed;
        sound = e.sound;
        leaf = e.leaf;
        extension = e.extension;
        same_version = h.same_version;
        same_release = h.same_release;
        same_file = h.same_file;
        running_version = e.running_version;
        offered_version = e.offered_version;
        running_read = e.running_read;
        offered_read = e.offered_read;
        above = e.above;
      };
    }

-- What the disk holds behind a download for the manifest `m`.
pub record HasStaged (site : Site) (target : UpdateTarget) (m : ValidatedManifest) (t : Server)
    (r : Response) : Type 0 where
  pub staging : Text
  pub content : Text
  pub package_signature : Text
  pub inside : update_staging_directory site.runtime_directory ≡ ok staging
  pub stored : t.world.files (join staging m.package_filename) ≡ some content
  pub sized : length content ≡ m.package_size
  pub hashed : site.net.sha256_hex content ≡ m.package_sha256
  pub signature_fetched : fetch_signature site.net m.package_signature_url ≡ ok package_signature
  pub signed : site.net.ed25519 pinned_key content package_signature ≡ true
  pub answer :
      r
      ≡ staged_download_response target (record {
        path = join staging m.package_filename;
        size = m.package_size;
        sha256 = m.package_sha256;
      })

abbrev request_for : ValidatedManifest → Text → PackageDownloadRequest
request_for m staging = record {
  download_url = m.package_download_url;
  signature_url = m.package_signature_url;
  filename = m.package_filename;
  expected_size = m.package_size;
  expected_sha256 = m.package_sha256;
  staging_directory = staging;
}

request_of :
    (m : ValidatedManifest) (root : Text) (q : PackageDownloadRequest)
    → package_download_request_from_manifest m root ≡ ok q
    → (staging : Text) × (update_staging_directory root ≡ ok staging) × (q ≡ request_for m staging)
unfolding package_download_request_from_manifest
request_of m root q h = elim (Result-cases (update_staging_directory root)) [
  | inl (staging, inside) ↦ (staging, inside, ground arith)
  | inr (e, refused) ↦ absurd (ground arith)
]

staged-HasStaged :
    (site : Site) (target : UpdateTarget) (m : ValidatedManifest) (staging : Text)
    (q : PackageDownloadRequest) (staged : StagedPackage) (s t : Server) (r : Response)
    → update_staging_directory site.runtime_directory ≡ ok staging
    → q ≡ request_for m staging
    → (download_and_stage site.net site.disk q s.world).0 ≡ ok staged
    → t.world ≡ (download_and_stage site.net site.disk q s.world).1
    → staged_download_response target staged ≡ r
    → HasStaged site target m t r
staged-HasStaged site target m staging q staged s t r inside same done world answer =
    let (content, signature, stored, _, sized, hashed, fetched, _, signed, result) =
      download_and_stage_sound site.net site.disk q s.world staged done in
    record {
      staging = staging;
      content = content;
      package_signature = signature;
      inside = inside;
      stored =
          ap (λ k. t.world.files (final_path k)) (sym same)
          ∙ ap (λ w. w.files (final_path q)) world
          ∙ stored;
      sized = sized ∙ ap (λ k. k.expected_size) same;
      hashed = hashed ∙ ap (λ k. k.expected_sha256) same;
      signature_fetched = ap (λ k. fetch_signature site.net k.signature_url) (sym same) ∙ fetched;
      signed = signed;
      answer =
          sym answer
          ∙ ap (staged_download_response target) result
          ∙ ap
              (λ (k : PackageDownloadRequest). staged_download_response target (record {
                path = final_path k;
                size = k.expected_size;
                sha256 = k.expected_sha256;
              }))
              same;
    }

lift-same : {A : Type 0} (r : Result Response A) (s : Server) → (lift r s).1 ≡ s
unfolding lift
lift-same r s = refl

pub map_err-ok :
    {E F A : Type 0} (f : E → F) (r : Result E A) (a : A) → map_err f r ≡ ok a → r ≡ ok a
map_err-ok f (ok b) a h = ap ok (ok_inj b a h)
map_err-ok f (err e) a h = absurd (ground arith)

on_disk-world :
    {A : Type 0} (m : Io A) (answer : Response) (s : Server)
    → (on_disk m answer s).1.world ≡ (m s.world).1
unfolding on_disk
on_disk-world m answer s = refl

download_manifest-HasStaged :
    (site : Site) (target : UpdateTarget) (m : ValidatedManifest) (s : Server) (r : Response)
    → (download_manifest site target m s).0 ≡ ok r
    → HasStaged site target m (download_manifest site target m s).1 r
unfolding download_manifest
download_manifest-HasStaged site target m s r h =
    let (q, e1, h1, s1) = lift_bind-ok _ _ s r h in
    let (_, e2, h2, s2) = lift_bind-ok _ _ s r h1 in
    let (staged, e3, h3, s3) =
      bind-ok (on_disk (download_and_stage site.net site.disk q) _) _ s r h2 in
    let (staging, inside, same) = request_of m site.runtime_directory q (map_err-ok _ _ q e1) in
    staged-HasStaged site target m staging q staged s _ r inside same (on_disk-ok _ _ s staged e3)
      (ap (λ p. p.1.world) (s1 ∙ s2 ∙ s3)
        ∙ ap (λ (p : Server). p.world) (lift-same _ _)
        ∙ on_disk-world _ _ s)
      (ok_inj _ _ (lift-ok _ _ _ h3))

-- A download that comes to its end: the stored channel's URLs serve a manifest and its 64-byte
-- signature, which the pinned key has made of exactly the served bytes; these bytes are the JSON of a
-- PhotoOS document of that channel with the target's version, release and file, and its version is
-- above the running one. The file under that name in the staging directory of the runtime root holds
-- a content with the size and the digest of that document, of which the pinned key has made the
-- signature that its signature URL serves; the answer says so.
pub download_ends :
    (env : Env) (site : Site) (headers : Headers) (target : UpdateTarget) (s : Server)
    (r : Response)
    → (download_update env site headers target s).0 ≡ ok r
    → (m : ValidatedManifest) × IsOffered env site s.db target m
      × HasStaged site target m (download_update env site headers target s).1 r
unfolding download_update
download_ends env site headers target s r h =
    let (_, e1, h1, s1) = bind-ok (require_admin site headers) _ s r h in
    let s' = (require_admin site headers s).1 in
    let (m, e2, h2, s2) = bind-ok (current_manifest env site target) _ s' r h1 in
    let t = (current_manifest env site target s').1 in
    (
      m,
      subst (λ v. IsOffered env site v.db target m) (admin_keeps site headers s)
          (current-IsOffered env site s'.db target m
            (current_manifest-IsCurrent env site target s' m e2)),
      subst (λ p. HasStaged site target m p.1 r) (sym (s1 ∙ s2))
          (download_manifest-HasStaged site target m t r h2),
    )
