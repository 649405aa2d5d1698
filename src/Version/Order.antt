-- ===== src/Version/Order.antt =====
-- The order of versions is total and strict.
use luminos.Prelude.{◌≡◌, true, false, arith, not}
use luminos.Version.Numeric.{NumericVersion, version_ltb, version_leb}

pub version_leb_refl : (a : NumericVersion) → version_leb a a ≡ true
unfolding version_leb
version_leb_refl a = ground arith

pub version_leb-not_ltb : (a b : NumericVersion) → version_leb a b ≡ not (version_ltb b a)
unfolding version_leb version_ltb
version_leb-not_ltb a b = ground arith

pub version_leb_of_ltb : (a b : NumericVersion) → version_ltb a b ≡ true → version_leb a b ≡ true
unfolding version_leb version_ltb
version_leb_of_ltb a b h = ground arith

pub version_leb_trans :
    (a b c : NumericVersion)
    → version_leb a b ≡ true
    → version_leb b c ≡ true
    → version_leb a c ≡ true
unfolding version_leb
version_leb_trans a b c h k = ground arith

pub version_ltb_irrefl : (a : NumericVersion) → version_ltb a a ≡ false
unfolding version_ltb
version_ltb_irrefl a = ground arith

pub version_ltb_trans :
    (a b c : NumericVersion)
    → version_ltb a b ≡ true
    → version_ltb b c ≡ true
    → version_ltb a c ≡ true
unfolding version_ltb
version_ltb_trans a b c h k = ground arith
