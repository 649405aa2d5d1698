-- ===== src/Version/Numeric.antt =====
-- The struct `NumericVersion` and the comparisons that `PartialOrd` derives for it.
use luminos.Prelude.{ℕ, Bool, ◌&&◌, ◌||◌, ltb, leb, ◌==◌}

pub record NumericVersion : Type 0 where
  pub major : ℕ
  pub minor : ℕ
  pub patch : ℕ

-- The derived order compares the fields one after another.
unfoldable pub version_ltb : NumericVersion → NumericVersion → Bool
version_ltb a b =
    ltb a.major b.major
    || a.major == b.major && (ltb a.minor b.minor || a.minor == b.minor && ltb a.patch b.patch)

unfoldable pub version_leb : NumericVersion → NumericVersion → Bool
version_leb a b =
    ltb a.major b.major
    || a.major == b.major && (ltb a.minor b.minor || a.minor == b.minor && leb a.patch b.patch)
