-- ===== src/Download/Paths.antt =====
-- The final and the partial path of server/src/update_download.rs are two paths.
use luminos.Prelude.{
  ◌+◌, ◌≡◌, ◌≢◌, refl, ap, false, [], ◌∷◌, ◌++◌, arith, length, length-append, Bool-cases, inl, inr,
}
use luminos.Text.{starts_with, ends_with, Text, codes}
use luminos.Download.Files.{join}
use luminos.Download.Request.{PackageDownloadRequest}
use luminos.Download.Stage.{final_path, partial_path}

pub starts_with-nil : starts_with [] (codes "/") ≡ false
unfolding starts_with
starts_with-nil = refl

pub length-join :
    (directory name : Text)
    → starts_with name (codes "/") ≡ false
    → length (join directory name) ≡ length (join directory []) + length name
unfolding join
length-join [] name h = ground (arith, starts_with-nil)
length-join (c ∷ directory) name h = elim (Bool-cases (ends_with (c ∷ directory) (codes "/"))) [
  | inl found ↦
      ground (
        arith,
        starts_with-nil,
        length-append (c ∷ directory) name,
        length-append (c ∷ directory) [],
      )
  | inr found ↦ ground (
    arith,
    starts_with-nil,
    length-append (c ∷ directory ++ codes "/") name,
    length-append (c ∷ directory ++ codes "/") [],
  )
]

pub partial-longer :
    (directory name : Text)
    → length (join directory (name ++ codes ".partial")) ≡ length (join directory name) + 8
unfolding starts_with
partial-longer directory [] = length-join directory (codes ".partial") refl
partial-longer directory (b ∷ name) = elim (Bool-cases (starts_with (b ∷ name) (codes "/"))) [
  | inl absolute ↦ unfold join in ground (arith, length-append name (codes ".partial"))
  | inr relative ↦ ground (
    arith,
    length-append name (codes ".partial"),
    length-join directory (b ∷ name),
    length-join directory (b ∷ name ++ codes ".partial"),
  )
]

pub partial-differs : (request : PackageDownloadRequest) → partial_path request ≢ final_path request
partial-differs request same =
    absurd
      (omega (arith, partial-longer request.staging_directory request.filename, ap length same))
