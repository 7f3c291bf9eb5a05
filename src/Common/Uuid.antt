-- ===== src/Common/Uuid.antt =====
-- The UUID columns of backend/prisma/schema.prisma: which texts such a column takes, and which of
-- them are the same value. Only the standard spelling, with hyphens, counts as a UUID here.
use mathlib.Core.Bool.{Bool, true, false, ◌&&◌, ◌||◌}
use mathlib.Core.List.{[], ◌∷◌, map}
use Prim.Native.Nat.{ℕ, ◌+◌}
use kori.Common.Tests.{if◌then◌else◌, leb, eqb}
use kori.Common.Text.{Text, text}

abbrev is_hex_digit : ℕ → Bool
is_hex_digit c = (leb 48 c && leb c 57) || (leb 97 c && leb c 102) || (leb 65 c && leb c 70)

unfoldable fits : Text → Text → Bool
fits [] [] = true
fits [] (c ∷ t) = false
fits (p ∷ ps) [] = false
fits (p ∷ ps) (c ∷ t) = (if eqb p 45 then eqb c 45 else is_hex_digit c) && fits ps t

-- Every other unit is a hexadecimal digit of either case.
unfoldable pub is_uuid : Text → Bool
unfolding text fits
is_uuid t = fits (text "00000000-0000-0000-0000-000000000000") t

abbrev lower : ℕ → ℕ
lower c = if leb 65 c && leb c 70 then c + 32 else c

-- The value of a UUID, in which the case is forgotten.
unfoldable pub uuid_value : Text → Text
uuid_value t = map lower t
