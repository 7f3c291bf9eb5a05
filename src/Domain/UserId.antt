-- ===== src/Domain/UserId.antt =====
-- backend/src/domain/value-objects/user-id.vo.ts: a non-empty text with no white space round it.
use kori.Common.{Bool, eqb, not, ◌||◌}
use kori.Common.Text.{Text, text, ◌==◌, length, trim}
use kori.Common.Result.{Result, ok, error, ◌>>◌, throw_if}

pub record UserId : Type 0 where
  pub id : Text

unfoldable pub from : Text → Result UserId
from value = do
  throw_if (eqb (length value) 0 || eqb (length (trim value)) 0)
      (error (text "UserId cannot be empty"))
  throw_if (not (value == trim value)) (error (text "UserId cannot contain surrounding whitespace"))
  ok (record { id = value })

unfoldable pub equals : UserId → UserId → Bool
equals w other = other.id == w.id
