-- ===== src/State/Versions.antt =====
-- What `parse_version` accepts: one spelling for each version.
use luminos.Prelude.{ℕ, ◌<◌, ◌≡◌, refl, sym, ap, ◌∙◌, false, some, List, [], ◌∷◌, ok, arith}
use luminos.Text.{
  Text, split, parse_u64, is_refused_part, parse_u64_injective, parse_u64-lt, u64_modulus,
}
use luminos.Text.{join, join-split}
use luminos.Version.{NumericVersion}
use luminos.State.Validate.{part, version_parts, parse_version}

pub part-ok :
    (raw whole : Text) (n : ℕ)
    → part raw whole ≡ ok n
    → (is_refused_part raw ≡ false) × (parse_u64 raw ≡ some n)
unfolding part
part-ok raw whole n h = (ground arith, ground arith)

-- The split of an accepted version.
version_parts-ok :
    (value : Text) (ps : List Text) (v : NumericVersion)
    → version_parts value ps ≡ ok v
    → (a : Text) × (b : Text) × (c : Text) × (ps ≡ a ∷ b ∷ c ∷ [])
      × (part a value ≡ ok v.major)
      × (part b value ≡ ok v.minor)
      × (part c value ≡ ok v.patch)
unfolding version_parts
version_parts-ok value [] v h = cc
version_parts-ok value (a ∷ []) v h = cc
version_parts-ok value (a ∷ b ∷ []) v h = cc
version_parts-ok value (a ∷ b ∷ c ∷ []) v h =
    (a, b, c, refl, ground arith, ground arith, ground arith)
version_parts-ok value (a ∷ b ∷ c ∷ d ∷ ps) v h = cc

part_injective : (a b s t : Text) (n : ℕ) → part a s ≡ ok n → part b t ≡ ok n → a ≡ b
part_injective a b s t n h k =
    let (ra, pa) = part-ok a s n h in
    let (rb, pb) = part-ok b t n k in parse_u64_injective a b n ra rb pa pb

-- Two texts that are accepted as the same version are the same text, and each of its numbers fits
-- 64 bits.
pub parse_version_canonical :
    (s t : Text) (v : NumericVersion)
    → parse_version s ≡ ok v
    → parse_version t ≡ ok v
    → (s ≡ t) × (v.major < u64_modulus) × (v.minor < u64_modulus) × (v.patch < u64_modulus)
unfolding parse_version
parse_version_canonical s t v h k =
    let (a, b, c, es, pa, pb, pc) = version_parts-ok s (split b'.' s) v h in
    let (a', b', c', et, pa', pb', pc') = version_parts-ok t (split b'.' t) v k in
    let same : split b'.' s ≡ split b'.' t = cc (
      es,
      et,
      part_injective a a' s t v.major pa pa',
      part_injective b b' s t v.minor pb pb',
      part_injective c c' s t v.patch pc pc',
    ) in
    (
      sym (join-split b'.' s) ∙ ap (join b'.') same ∙ join-split b'.' t,
      parse_u64-lt a v.major (part-ok a s v.major pa).1,
      parse_u64-lt b v.minor (part-ok b s v.minor pb).1,
      parse_u64-lt c v.patch (part-ok c s v.patch pc).1,
    )
