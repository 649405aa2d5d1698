-- ===== src/Updates/Reread.antt =====
-- The staged package that server/src/handlers/updates.rs reads again.
use luminos.Prelude.{
  ℕ, ◌+◌, ◌≤◌, ◌<◌, ◌≡◌, refl, sym, ◌∙◌, ap, Bool, true, false, Option, none, some, List, [], ◌∷◌,
  ◌++◌, ok, length, length-append, arith, Result-cases, Option-cases, inl, inr,
}
use mathlib.Core.List.{append-nil, append_assoc}
use native.Mathlib.Nat.{add-zero}
use luminos.Text.{Text, u64_modulus, text_eq_iff, text_eq_refl}
use luminos.Discovery.Types.{ValidatedManifest}
use luminos.Agent.Flow.{StagedPackage}
use luminos.Updates.Server.{OpenFile}
use luminos.Updates.Staged.{checked_metadata, read_staged, read_package}

-- What the reads return up to the end of the file; `none` if one of them fails.
abbrev pub content_of : List (Option Text) → Option Text
content_of [] = some []
content_of (none ∷ rest) = none
content_of (some [] ∷ rest) = some []
content_of (some (b ∷ s) ∷ rest) = elim (content_of rest) [
  | none ↦ none
  | some t ↦ some ((b ∷ s) ++ t)
]

module _ (size : ℕ) where
  read_staged_sound :
      (total : ℕ) (hashed : Text) (reads : List (Option Text)) (n : ℕ) (out : Text)
      → total ≤ size
      → read_staged size total hashed reads ≡ ok (n, out)
      → (s : Text) × (content_of reads ≡ some s)
        × (out ≡ hashed ++ s)
        × (n ≡ total + length s)
        × (n ≤ size)
  unfolding read_staged
  read_staged_sound total hashed [] n out b e =
      let same : out ≡ hashed = ground arith in
      ([], refl, same ∙ sym (append-nil hashed), ground arith, ground arith)
  read_staged_sound total hashed (none ∷ rest) n out b e = cc
  read_staged_sound total hashed (some [] ∷ rest) n out b e =
      let same : out ≡ hashed = ground arith in
      ([], refl, same ∙ sym (append-nil hashed), ground arith, ground arith)
  read_staged_sound total hashed (some (c ∷ chunk) ∷ rest) n out b e =
      let (s, joined, same, sized, fits) =
        read_staged_sound (total + length (c ∷ chunk)) (hashed ++ (c ∷ chunk)) rest n out
          (ground arith) (ground arith) in
      (
        (c ∷ chunk) ++ s,
        rw joined refl,
        same ∙ append_assoc hashed (c ∷ chunk) s,
        omega (arith, length-append (c ∷ chunk) s),
        fits,
      )

  read_staged_complete :
      (total : ℕ) (hashed : Text) (reads : List (Option Text)) (s : Text)
      → content_of reads ≡ some s
      → total + length s ≤ size
      → size < u64_modulus
      → read_staged size total hashed reads ≡ ok (total + length s, hashed ++ s)
  unfolding read_staged
  read_staged_complete total hashed [] s e b m =
      let same : s ≡ [] = ground arith in rw same (rw (append-nil hashed, add-zero total) refl)
  read_staged_complete total hashed (none ∷ rest) s e b m = cc
  read_staged_complete total hashed (some [] ∷ rest) s e b m =
      let same : s ≡ [] = ground arith in rw same (rw (append-nil hashed, add-zero total) refl)
  read_staged_complete total hashed (some (c ∷ chunk) ∷ rest) s e b m =
      elim (Option-cases (content_of rest)) [
        | inl missing ↦ absurd (ground arith)
        | inr (t, joined) ↦
            let same : s ≡ (c ∷ chunk) ++ t = ground arith in
            let sized : length s ≡ length (c ∷ chunk) + length t =
              ap length same ∙ length-append (c ∷ chunk) t in
            let ih =
              read_staged_complete (total + length (c ∷ chunk)) (hashed ++ (c ∷ chunk)) rest t
                joined (omega arith) m in
            let whole : hashed ++ s ≡ (hashed ++ (c ∷ chunk)) ++ t =
              ap (λ u. hashed ++ u) same ∙ sym (append_assoc hashed (c ∷ chunk) t) in
            rw (whole, sized) (ground (arith, ih))
      ]

-- The file that a staged package was read from: a regular file of the manifest's size, whose
-- content has that size and the manifest's digest.
pub record IsReread (sha256_hex : Text → Text) (m : ValidatedManifest) (path : Text)
    (file : OpenFile) (staged : StagedPackage) (content : Text) : Type 0 where
  pub regular_file : file.metadata ≡ some (true, m.package_size)
  pub read : content_of file.reads ≡ some content
  pub sized : length content ≡ m.package_size
  pub hashed : sha256_hex content ≡ m.package_sha256
  pub same : staged ≡ record { path = path; size = m.package_size; sha256 = m.package_sha256 }

module _ (sha256_hex : Text → Text) (m : ValidatedManifest) (path : Text) (file : OpenFile)
    (staged : StagedPackage) where
  metadata_sound :
      (size : ℕ) (metadata : Option (Bool × ℕ))
      → checked_metadata size metadata ≡ ok tt
      → metadata ≡ some (true, size)
  metadata_sound size none h = absurd (ground arith)
  metadata_sound size (some (true, len)) h =
      let same : len ≡ size = ground arith in ap (λ n. some (true, n)) same
  metadata_sound size (some (false, len)) h = absurd (ground arith)

  pub read_package_sound :
      read_package sha256_hex m path file ≡ ok staged
      → (content : Text) × IsReread sha256_hex m path file staged content
  unfolding read_package
  read_package_sound h = elim (Result-cases (read_staged m.package_size 0 [] file.reads)) [
    | inr (e, refused) ↦ absurd (ground arith)
    | inl ((n, content), done) ↦
        let (s, joined, same, sized, fits) =
          read_staged_sound m.package_size 0 [] file.reads n content (omega arith) done in
        (
          content,
          record {
            regular_file = metadata_sound m.package_size file.metadata (ground arith);
            read = joined ∙ ap some (sym same);
            sized = ground arith;
            hashed = ground (arith, text_eq_iff (sha256_hex content) m.package_sha256);
            same = ground (arith, text_eq_iff (sha256_hex content) m.package_sha256);
          },
        )
  ]

  pub read_package_complete :
      (content : Text)
      → m.package_size < u64_modulus
      → IsReread sha256_hex m path file staged content
      → read_package sha256_hex m path file ≡ ok staged
  unfolding read_package
  read_package_complete content small h =
      let fits : 0 + length content ≤ m.package_size = omega (arith, h.sized) in
      ground (
        arith,
        read_staged_complete m.package_size 0 [] file.reads content h.read fits small,
        text_eq_refl m.package_sha256,
      )
