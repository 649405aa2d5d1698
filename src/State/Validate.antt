-- ===== src/State/Validate.antt =====
-- The checks of server/src/update_state.rs on versions, times, digests, names and sizes.
use luminos.Prelude.{
  ℕ, ◌^◌, Bool, false, ◌&&◌, ◌||◌, not, Option, none, some, List, [], ◌∷◌, Result, ok, err, ◌>>=◌,
  ◌>>◌, refuse_if, ok_or, ltb, ◌==◌, if◌then◌else◌, length, all,
}
use luminos.Text.{
  Text, codes, text_eq, is_empty, starts_with, ends_with, contains_byte, contains, split, trim,
  is_ascii_digit, is_lower_hex, parse_u64,
}
use luminos.Version.{NumericVersion}
use luminos.State.Types.{
  ℤ, pos, negsuc, UpdateStateError, invalid_version, invalid_timestamp, invalid_digest,
  invalid_release_id, invalid_package_filename, invalid_package_size,
}

unfoldable pub part : Text → Text → Result UpdateStateError ℕ
part raw whole = do
  refuse_if
      (is_empty raw
        || not (all is_ascii_digit raw)
        || ltb 1 (length raw) && starts_with raw (codes "0"))
      (invalid_version whole)
  ok_or (invalid_version whole) (parse_u64 raw)

-- The three parts of the split text; any other number of parts is refused.
unfoldable pub version_parts : Text → List Text → Result UpdateStateError NumericVersion
unfolding part
version_parts value (a ∷ b ∷ c ∷ []) = do
  major ← part a value
  minor ← part b value
  patch ← part c value
  ok (record { major = major; minor = minor; patch = patch })
version_parts value _ = err (invalid_version value)

unfoldable pub parse_version : Text → Result UpdateStateError NumericVersion
unfolding version_parts
parse_version value = version_parts value (split b'.' value)

-- `DateTime::parse_from_rfc3339` is chrono's: a parameter.
unfoldable pub parse_timestamp : (Text → Option ℕ) → Text → Result UpdateStateError ℕ
parse_timestamp parse_from_rfc3339 value =
    ok_or (invalid_timestamp value) (parse_from_rfc3339 value)

unfoldable pub validate_digest : Text → Result UpdateStateError (Unit {0})
validate_digest value =
    refuse_if (not (length value == 64) || not (all is_lower_hex value)) invalid_digest

unfoldable pub validate_release_id : Text → Result UpdateStateError (Unit {0})
validate_release_id value =
    refuse_if
      (is_empty (trim value)
        || not (text_eq value (trim value))
        || contains_byte value b'/'
        || contains_byte value 0x5c
        || contains value (codes ".."))
      invalid_release_id

-- The last component of a path that is neither empty nor `.`.
last_component : Option Text → List Text → Option Text
last_component last [] = last
last_component last (p ∷ ps) =
    last_component (if is_empty p || text_eq p (codes ".") then last else some p) ps

abbrev normal : Option Text → Option Text
normal none = none
normal (some p) = if text_eq p (codes "..") then none else some p

-- `Path::new(value).file_name()` on Unix, as text.
unfoldable pub file_name : Text → Option Text
unfolding last_component
file_name value = normal (last_component none (split b'/' value))

abbrev is_some_text : Option Text → Text → Bool
is_some_text none t = false
is_some_text (some s) t = text_eq s t

unfoldable pub validate_package_filename : Text → Result UpdateStateError (Unit {0})
validate_package_filename value =
    refuse_if
      (is_empty (trim value)
        || not (text_eq value (trim value))
        || not (is_some_text (file_name value) value)
        || not (ends_with value (codes ".popkg")))
      invalid_package_filename

abbrev pub i64_limit : ℕ
i64_limit = 2 ^ 63

-- `i64::try_from(value)` for a `u64`.
unfoldable pub package_size_for_db : ℕ → Result UpdateStateError ℤ
package_size_for_db value = do
  refuse_if (value == 0) invalid_package_size
  if ltb value i64_limit then ok (pos value) else err invalid_package_size

-- `u64::try_from(package_size)` for an `i64`, and the test that follows it in both readers.
unfoldable pub package_size_from_db : ℤ → Result UpdateStateError ℕ
package_size_from_db (negsuc n) = err invalid_package_size
package_size_from_db (pos n) = do refuse_if (n == 0) invalid_package_size; ok n
