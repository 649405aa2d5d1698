-- ===== src/Discovery/Versions.antt =====
-- The version parser of server/src/update_discovery.rs against that of server/src/update_state.rs.
use luminos.Prelude.{ℕ, ◌≡◌, ◌↔◌, some, List, [], ◌∷◌, ok, arith}
use luminos.Text.{Text, split}
use luminos.Version.{NumericVersion}
use luminos.State.Validate
use luminos.State.Validate.{part, version_parts}
use luminos.Discovery.Manifest.{parse_part, version_of_parts, parse_version}

-- The two parsers of a part read the same numbers.
parts_agree : (raw whole : Text) (n : ℕ) → (part raw whole ≡ ok n) ↔ (parse_part raw ≡ some n)
unfolding part parse_part
parts_agree raw whole n = (λ h. ground arith, λ h. ground arith)

version_parts_agree :
    (whole : Text) (ps : List Text) (v : NumericVersion)
    → (version_parts whole ps ≡ ok v) ↔ (version_of_parts ps ≡ ok v)
unfolding version_parts version_of_parts
version_parts_agree whole [] v = (λ h. cc, λ h. cc)
version_parts_agree whole (a ∷ []) v = (λ h. cc, λ h. cc)
version_parts_agree whole (a ∷ b ∷ []) v = (λ h. cc, λ h. cc)
version_parts_agree whole (a ∷ b ∷ c ∷ []) v = (
  λ h. ground (
    arith,
    (parts_agree a whole v.major).0,
    (parts_agree b whole v.minor).0,
    (parts_agree c whole v.patch).0,
  ),
  λ h. ground (
    arith,
    (parts_agree a whole v.major).1,
    (parts_agree b whole v.minor).1,
    (parts_agree c whole v.patch).1,
  ),
)
version_parts_agree whole (a ∷ b ∷ c ∷ d ∷ ps) v = (λ h. cc, λ h. cc)

-- The parser that validates a manifest and the parser that compares it in the store accept the
-- same texts, as the same versions.
pub parse_versions_agree :
    (s : Text) (v : NumericVersion) → (parse_version s ≡ ok v) ↔ (Validate.parse_version s ≡ ok v)
unfolding parse_version Validate.parse_version
parse_versions_agree s v = let (to, from) = version_parts_agree s (split b'.' s) v in (from, to)
