-- ===== src/Text/Bytes.antt =====
-- The methods of `str` that the update modules call, over the bytes of the text.
use Prim.Native.Char.{code}
use luminos.Prelude.{
  ℕ, zero, suc, ◌+◌, ◌-◌, ◌*◌, ◌^◌, String, Bool, true, false, ◌&&◌, ◌||◌, Option, none, some, List,
  [], ◌∷◌, reverse, ltb, leb, ◌==◌, if◌then◌else◌,
}

abbrev pub Text : Type 0
Text = List ℕ

-- A literal: its code points, which are its bytes where it is ASCII.
abbrev pub codes : String → Text
codes String.[] = []
codes (String.◌∷◌ c s) = code c ∷ codes s

unfoldable pub text_eq : Text → Text → Bool
text_eq [] [] = true
text_eq [] (_ ∷ _) = false
text_eq (_ ∷ _) [] = false
text_eq (a ∷ s) (b ∷ t) = a == b && text_eq s t

abbrev pub is_empty : Text → Bool
is_empty [] = true
is_empty (_ ∷ _) = false

unfoldable pub starts_with : Text → Text → Bool
starts_with s [] = true
starts_with [] (_ ∷ _) = false
starts_with (a ∷ s) (p ∷ ps) = a == p && starts_with s ps

unfoldable pub ends_with : Text → Text → Bool
unfolding starts_with
ends_with s p = starts_with (reverse s) (reverse p)

unfoldable pub contains_byte : Text → ℕ → Bool
contains_byte [] b = false
contains_byte (a ∷ s) b = a == b || contains_byte s b

unfoldable pub contains : Text → Text → Bool
unfolding starts_with
contains [] p = is_empty p
contains (a ∷ s) p = starts_with (a ∷ s) p || contains s p

-- Keeps one byte for the piece that is still open.
unfoldable pub extend : ℕ → List Text → List Text
extend b [] = (b ∷ []) ∷ []
extend b (piece ∷ rest) = (b ∷ piece) ∷ rest

-- `s.split(sep)` for an ASCII separator; the empty text has one empty piece.
unfoldable pub split : ℕ → Text → List Text
unfolding extend
split sep [] = [] ∷ []
split sep (b ∷ s) = if b == sep then [] ∷ split sep s else extend b (split sep s)

unfoldable pub is_ascii_digit : ℕ → Bool
is_ascii_digit b = leb b'0' b && leb b b'9'

-- `byte.is_ascii_digit() || (b'a'..=b'f').contains(&byte)`
unfoldable pub is_lower_hex : ℕ → Bool
unfolding is_ascii_digit
is_lower_hex b = is_ascii_digit b || (leb b'a' b && leb b b'f')

unfoldable pub is_ascii_alphanumeric : ℕ → Bool
unfolding is_ascii_digit
is_ascii_alphanumeric b =
    is_ascii_digit b || (leb b'a' b && leb b b'z') || (leb b'A' b && leb b b'Z')

unfoldable pub to_ascii_lowercase : Text → Text
to_ascii_lowercase [] = []
to_ascii_lowercase (b ∷ s) = (if leb b'A' b && leb b b'Z' then b + 32 else b) ∷ to_ascii_lowercase s

-- How many bytes the White_Space character has that opens the text; 0 if none does.
unfoldable pub space_width : Text → ℕ
space_width [] = 0
space_width (a ∷ []) = if a == 32 || (leb 9 a && leb a 13) then 1 else 0
space_width (a ∷ b ∷ []) =
    if a == 32 || (leb 9 a && leb a 13)
    then 1
    else if a == 0xC2 && (b == 0x85 || b == 0xA0)
    then 2
    else 0
space_width (a ∷ b ∷ c ∷ s) =
    if a == 32 || (leb 9 a && leb a 13)
    then 1
    else if a == 0xC2 && (b == 0x85 || b == 0xA0)
    then 2
    else if a == 0xE1 && b == 0x9A && c == 0x80
        || a == 0xE2
          && b == 0x80
          && (leb 0x80 c && leb c 0x8A || c == 0xA8 || c == 0xA9 || c == 0xAF)
        || a == 0xE2 && b == 0x81 && c == 0x9F
        || a == 0xE3 && b == 0x80 && c == 0x80
    then 3
    else 0

-- `skip` bytes of a White_Space character are still to be dropped.
trim_from : ℕ → Text → Text
trim_from skip [] = []
trim_from (suc skip) (b ∷ s) = trim_from skip s
trim_from zero (b ∷ s) = elim (space_width (b ∷ s)) [ zero ↦ b ∷ s | suc skip ↦ trim_from skip s ]

unfoldable pub trim_start : Text → Text
unfolding trim_from space_width
trim_start s = trim_from 0 s

abbrev take : ℕ → Text → Text
take zero s = []
take (suc n) [] = []
take (suc n) (b ∷ s) = b ∷ take n s

-- Whether the last `length s` bytes of a text, given in reverse, form one White_Space character.
trailing_width : Text → ℕ
unfolding space_width
trailing_width s =
    if space_width (take 1 s) == 1
    then 1
    else if space_width (reverse (take 2 s)) == 2
    then 2
    else if space_width (reverse (take 3 s)) == 3
    then 3
    else 0

trim_end_from : ℕ → Text → Text
trim_end_from skip [] = []
trim_end_from (suc skip) (b ∷ s) = trim_end_from skip s
trim_end_from zero (b ∷ s) = elim (trailing_width (b ∷ s)) [
  | zero ↦ b ∷ s
  | suc skip ↦ trim_end_from skip s
]

unfoldable pub trim_end : Text → Text
unfolding trim_end_from trailing_width
trim_end s = reverse (trim_end_from 0 (reverse s))

unfoldable pub trim : Text → Text
unfolding trim_start trim_end
trim s = trim_end (trim_start s)

abbrev pub u64_modulus : ℕ
u64_modulus = 2 ^ 64

-- The checked multiplication and addition of `u64::from_str`, from the first digit on.
unfoldable pub digits_value : ℕ → Text → Option ℕ
unfolding is_ascii_digit
digits_value acc [] = some acc
digits_value acc (b ∷ s) =
    let value = acc * 10 + (b - b'0') in
    if is_ascii_digit b && ltb value u64_modulus then digits_value value s else none

-- `raw.parse::<u64>().ok()`: one leading `+` is allowed, an empty number is not.
unfoldable pub parse_u64 : Text → Option ℕ
unfolding digits_value
parse_u64 [] = none
parse_u64 (b ∷ []) = if b == b'+' then none else digits_value 0 (b ∷ [])
parse_u64 (b ∷ c ∷ s) = if b == b'+' then digits_value 0 (c ∷ s) else digits_value 0 (b ∷ c ∷ s)
