-- ===== src/Text/Lines.antt =====
-- More methods of Rust's `str`: `lines`, `split_once` at an ASCII character, `strip_prefix`.
use luminos.Prelude.{
  ℕ, true, false, Option, none, some, List, [], ◌∷◌, map, reverse, ◌==◌, if◌then◌else◌,
}
use luminos.Text.Bytes.{Text, starts_with, split}

-- `none` where the separator does not occur.
unfoldable pub split_once : ℕ → Text → Option (Text × Text)
split_once sep [] = none
split_once sep (b ∷ s) = elim (b == sep) [
  | true ↦ some ([], s)
  | false ↦ elim (split_once sep s) [
    | none ↦ none
    | some (before, after) ↦ some (b ∷ before, after)
  ]
]

abbrev drop_by : Text → Text → Text
drop_by [] s = s
drop_by (_ ∷ p) [] = []
drop_by (_ ∷ p) (_ ∷ s) = drop_by p s

-- `s.strip_prefix(p).unwrap_or(s)`
unfoldable pub without_prefix : Text → Text → Text
without_prefix s p = if starts_with s p then drop_by p s else s

abbrev without_return : Text → Text
without_return s = elim (reverse s) [ [] ↦ [] | b ∷ rest ↦ if b == 0x0d then reverse rest else s ]

abbrev without_last_empty : List Text → List Text
without_last_empty pieces = elim (reverse pieces) [
  | [] ↦ []
  | [] ∷ rest ↦ reverse rest
  | (b ∷ s) ∷ rest ↦ pieces
]

-- The pieces between line feeds, without a carriage return at their end; a line feed at the end of
-- the text opens no line.
unfoldable pub lines : Text → List Text
lines s = map without_return (without_last_empty (split 0x0a s))
