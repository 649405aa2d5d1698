-- ===== src/Updates/Located.antt =====
-- Which file server/src/handlers/updates.rs reads again as the staged package.
use luminos.Prelude.{
  ◌<◌, ◌≡◌, refl, ◌∙◌, ap, ◌↔◌, true, false, some, ok, arith, Result-cases, Option-cases, inl, inr,
}
use luminos.Text.{Text, u64_modulus}
use luminos.Discovery.Types.{ValidatedManifest}
use luminos.Agent.Flow.{StagedPackage}
use luminos.Download.Files.{join}
use luminos.Updates.Server.{FileKind, FileSystem, OpenFile, directory, regular, symlink, other}
use luminos.Updates.Target.{UpdateTarget, is_other_target, update_staging_directory}
use luminos.Updates.Staged.{is_parent, is_directory, is_file, staged_package_from_signed_manifest}
use luminos.Updates.Reread.{IsReread, read_package_sound, read_package_complete}

-- The staged package of a target: a regular file, not a link, directly in the staging directory,
-- also after all links are resolved, with the manifest's size and digest.
pub record IsLocated (fs : FileSystem) (sha256_hex : Text → Text) (target : UpdateTarget)
    (m : ValidatedManifest) (root : Text) (staged : StagedPackage) : Type 0 where
  pub staging : Text
  pub canonical_staging : Text
  pub canonical_path : Text
  pub file : OpenFile
  pub content : Text
  pub named : is_other_target target m ≡ false
  pub inside : update_staging_directory root ≡ ok staging
  pub a_directory : fs.symlink_metadata staging ≡ some directory
  pub a_file : fs.symlink_metadata (join staging m.package_filename) ≡ some regular
  pub staging_resolved : fs.canonicalize staging ≡ some canonical_staging
  pub resolved : fs.canonicalize (join staging m.package_filename) ≡ some canonical_path
  pub not_escaped : is_parent canonical_staging canonical_path ≡ true
  pub opened : fs.open_file canonical_path ≡ some file
  pub reread : IsReread sha256_hex m canonical_path file staged content

directory_sound : (kind : FileKind) → is_directory kind ≡ true → kind ≡ directory
directory_sound directory h = refl
directory_sound regular h = absurd (ground arith)
directory_sound symlink h = absurd (ground arith)
directory_sound other h = absurd (ground arith)

file_sound : (kind : FileKind) → is_file kind ≡ true → kind ≡ regular
file_sound regular h = refl
file_sound directory h = absurd (ground arith)
file_sound symlink h = absurd (ground arith)
file_sound other h = absurd (ground arith)

module _ (fs : FileSystem) (sha256_hex : Text → Text) (target : UpdateTarget)
    (m : ValidatedManifest) (root : Text) (staged : StagedPackage) where
  pub staged_package_sound :
      staged_package_from_signed_manifest fs sha256_hex target m root ≡ ok staged
      → IsLocated fs sha256_hex target m root staged
  unfolding staged_package_from_signed_manifest
  staged_package_sound h = elim (Result-cases (update_staging_directory root)) [
    | inr (e, refused) ↦ absurd (ground arith)
    | inl (staging, inside) ↦ elim (Option-cases (fs.symlink_metadata staging)) [
      | inl missing ↦ absurd (ground arith)
      | inr (outer, typed) ↦
          let path = join staging m.package_filename in
          elim (Option-cases (fs.symlink_metadata path)) [
            | inl missing ↦ absurd (ground arith)
            | inr (kind, found) ↦ elim (Option-cases (fs.canonicalize staging)) [
              | inl missing ↦ absurd (ground arith)
              | inr (real, resolved) ↦ elim (Option-cases (fs.canonicalize path)) [
                | inl missing ↦ absurd (ground arith)
                | inr (place, placed) ↦ elim (Option-cases (fs.open_file place)) [
                  | inl missing ↦ absurd (ground arith)
                  | inr (file, opened) ↦
                      let (content, reread) =
                        read_package_sound sha256_hex m place file staged (ground arith) in
                      record {
                        staging = staging;
                        canonical_staging = real;
                        canonical_path = place;
                        file = file;
                        content = content;
                        named = ground arith;
                        inside = inside;
                        a_directory = typed ∙ ap some (directory_sound outer (ground arith));
                        a_file = found ∙ ap some (file_sound kind (ground arith));
                        staging_resolved = resolved;
                        resolved = placed;
                        not_escaped = ground arith;
                        opened = opened;
                        reread = reread;
                      }
                ]
              ]
            ]
          ]
    ]
  ]

  staged_package_complete :
      m.package_size < u64_modulus
      → IsLocated fs sha256_hex target m root staged
      → staged_package_from_signed_manifest fs sha256_hex target m root ≡ ok staged
  unfolding staged_package_from_signed_manifest
  staged_package_complete small h =
      rw
        (
          h.named, h.inside, h.a_directory, h.a_file, h.staging_resolved, h.resolved, h.not_escaped,
          h.opened,
        )
        (read_package_complete sha256_hex m h.canonical_path h.file staged h.content small h.reread)

  -- The staged package is accepted exactly if the target names the manifest and, under an absolute
  -- runtime root without `..`, the staging directory is a directory and the package in it a regular
  -- file, neither of them a link; the package's resolved path lies directly in the resolved staging
  -- directory; and the file there has the manifest's size as its length and, read to its end, a
  -- content of that size and of the manifest's digest. The answer names the resolved path. For a
  -- manifest whose size fits 64 bits.
  pub staged_package_iff :
      m.package_size < u64_modulus
      → (staged_package_from_signed_manifest fs sha256_hex target m root ≡ ok staged)
        ↔ IsLocated fs sha256_hex target m root staged
  staged_package_iff small = (staged_package_sound, staged_package_complete small)
