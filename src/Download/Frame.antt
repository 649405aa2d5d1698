-- ===== src/Download/Frame.antt =====
-- Calls of server/src/update_download.rs that change no file but one, and how they compose.
use luminos.Prelude.{◌≡◌, ◌≢◌, refl, Result, ok, err, arith, Result-cases, Option-cases, inl, inr}
use luminos.Text.{Text, text_eq_iff}
use luminos.Download.Files.{
  DownloadError, World, Disk, Io, after, plain_step, cleanup_partial, create_new, lift, read,
  rename,
}
use luminos.Download.Stage.{or_cleanup}

-- A call that changes no file but one.
abbrev pub OnlyAt : {A : Type 0} → Text → Io A → Type 0
OnlyAt path m = (w : World) (p : Text) → p ≢ path → (m w).1.files p ≡ w.files p

pub cleanup_partial-OnlyAt : (disk : Disk) (path : Text) → OnlyAt path (cleanup_partial disk path)
unfolding cleanup_partial
cleanup_partial-OnlyAt disk path w p ne = ground (arith, text_eq_iff path p)

pub create_new-OnlyAt : (disk : Disk) (path : Text) → OnlyAt path (create_new disk path)
unfolding create_new
create_new-OnlyAt disk path w p ne = elim (Option-cases (w.files path)) [
  | inl found ↦ ground (arith, text_eq_iff path p)
  | inr found ↦ ground (arith, text_eq_iff path p)
]

pub or_cleanup-OnlyAt :
    {A : Type 0} (disk : Disk) (path : Text) (m : Io A)
    → OnlyAt path m
    → OnlyAt path (or_cleanup disk path m)
unfolding or_cleanup
or_cleanup-OnlyAt disk path m only w p ne = elim (Result-cases (m w).0) [
  | inl found ↦ ground (arith, only w p ne)
  | inr found ↦ ground (arith, only w p ne, cleanup_partial-OnlyAt disk path (m w).1 p ne)
]

pub after-OnlyAt :
    {A B : Type 0} (path : Text) (m : Io A) (f : A → Io B)
    → OnlyAt path m
    → ((a : A) → OnlyAt path (f a))
    → OnlyAt path (λ w. after (m w) f)
after-OnlyAt path m f only then w p ne = elim (Result-cases (m w).0) [
  | inl found ↦ ground (arith, only w p ne, then found.0 (m w).1 p ne)
  | inr found ↦ ground (arith, only w p ne)
]

pub lift-OnlyAt : {A : Type 0} (path : Text) (r : Result DownloadError A) → OnlyAt path (lift r)
lift-OnlyAt path r w p ne = refl

pub plain_step-OnlyAt : (disk : Disk) (path : Text) → OnlyAt path (plain_step disk)
unfolding plain_step
plain_step-OnlyAt disk path w p ne = ground arith

-- A call that changes no file but one when it fails.
abbrev pub FailsOnlyAt : {A : Type 0} → Text → Io A → Type 0
FailsOnlyAt path m =
    (w : World) (e : DownloadError) (p : Text)
    → (m w).0 ≡ err e
    → p ≢ path
    → (m w).1.files p ≡ w.files p

pub after-FailsOnlyAt :
    {A B : Type 0} (path : Text) (m : Io A) (f : A → Io B)
    → OnlyAt path m
    → ((a : A) → FailsOnlyAt path (f a))
    → FailsOnlyAt path (λ w. after (m w) f)
after-FailsOnlyAt path m f only then w e p h ne = elim (Result-cases (m w).0) [
  | inl found ↦ ground (arith, only w p ne, then found.0 (m w).1 e p)
  | inr found ↦ ground (arith, only w p ne)
]

pub or_cleanup-FailsOnlyAt :
    {A : Type 0} (disk : Disk) (path : Text) (m : Io A)
    → FailsOnlyAt path m
    → FailsOnlyAt path (or_cleanup disk path m)
unfolding or_cleanup
or_cleanup-FailsOnlyAt disk path m only w e p h ne = elim (Result-cases (m w).0) [
  | inl found ↦ absurd (ground arith)
  | inr found ↦ ground (arith, only w found.0 p, cleanup_partial-OnlyAt disk path (m w).1 p ne)
]

pub rename-FailsOnlyAt : (disk : Disk) (from to : Text) → FailsOnlyAt from (rename disk from to)
unfolding rename
rename-FailsOnlyAt disk from to w e p h ne = elim (Option-cases (w.files from)) [
  | inl found ↦ ground arith
  | inr found ↦ ground arith
]

-- A result that is computed behind a call.
pub always_ok-FailsOnlyAt :
    {A B : Type 0} (path : Text) (m : Io A) (b : B)
    → FailsOnlyAt path m
    → FailsOnlyAt path (λ w. after (m w) (λ _. lift (ok b)))
always_ok-FailsOnlyAt path m b only w e p h ne = elim (Result-cases (m w).0) [
  | inl found ↦ absurd (ground arith)
  | inr found ↦ ground (arith, only w found.0 p)
]

pub read-OnlyAt : (disk : Disk) (path : Text) → OnlyAt path (read disk path)
unfolding read
read-OnlyAt disk path w p ne = refl

pub checked-OnlyAt :
    {A : Type 0} (disk : Disk) (path : Text) (r : Result DownloadError A)
    → OnlyAt path (or_cleanup disk path (lift r))
checked-OnlyAt disk path r = or_cleanup-OnlyAt disk path (lift r) (lift-OnlyAt path r)
