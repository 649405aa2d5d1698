-- ===== src/Notifications/Time.antt =====
-- Seconds as `i64`, for server/src/handlers/notifications.rs.
use luminos.Prelude.{ℕ, ◌+◌, ◌-◌, ◌^◌, Bool, true, false, ltb, leb, if◌then◌else◌}
use luminos.State.Types.{ℤ, pos, negsuc}

-- `a < b`.
abbrev pub ltb_ℤ : ℤ → ℤ → Bool
ltb_ℤ (pos a) (pos b) = ltb a b
ltb_ℤ (pos a) (negsuc b) = false
ltb_ℤ (negsuc a) (pos b) = true
ltb_ℤ (negsuc a) (negsuc b) = ltb b a

abbrev difference : ℕ → ℕ → ℤ
difference a b = if leb b a then pos (a - b) else negsuc (b - a - 1)

-- The least and the greatest `i64`.
abbrev saturated : ℤ → ℤ
saturated (pos a) = if ltb a (2 ^ 63) then pos a else pos (2 ^ 63 - 1)
saturated (negsuc a) = if ltb a (2 ^ 63) then negsuc a else negsuc (2 ^ 63 - 1)

-- `a.saturating_sub(b)`.
unfoldable pub saturating_sub : ℤ → ℤ → ℤ
saturating_sub (pos a) (pos b) = saturated (difference a b)
saturating_sub (pos a) (negsuc b) = saturated (pos (a + b + 1))
saturating_sub (negsuc a) (pos b) = saturated (negsuc (a + b))
saturating_sub (negsuc a) (negsuc b) = saturated (difference b a)
