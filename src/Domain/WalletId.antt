-- ===== src/Domain/WalletId.antt =====
-- backend/src/domain/value-objects/wallet-id.vo.ts: a non-empty text with no white space round it.
use kori.Common.{Bool, eqb, not, ◌||◌}
use kori.Common.Text.{Text, text, ◌==◌, length, trim}
use kori.Common.Result.{Result, ok, error, ◌>>◌, throw_if}

pub record WalletId : Type 0 where
  pub id : Text

unfoldable pub from : Text → Result WalletId
from value = do
  throw_if (eqb (length value) 0 || eqb (length (trim value)) 0)
      (error (text "Wallet ID cannot be empty"))
  throw_if (not (value == trim value))
      (error (text "Wallet ID cannot contain surrounding whitespace"))
  ok (record { id = value })

unfoldable pub equals : WalletId → WalletId → Bool
equals w other = w.id == other.id
