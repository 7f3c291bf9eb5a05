-- ===== src/Transactions/Transfer/Laws.antt =====
-- What a transfer does to balances, ledger and transactions, whichever way it ends.
use kori.Common.{◌≡◌, refl, sym, ◌∙◌, ap, subst, true, arith, inl, inr}
use kori.Common.Int.{ℤ, pos, ◌+ℤ◌, ◌-ℤ◌, int_laws}
use kori.Common.Text.{Text}
use kori.Common.Result.{Result, ok, err, Exception}
use kori.Domain.Money.{Money, is_zero}
use kori.Schema.{Db, Wallet, LedgerEntry, Transaction}
use kori.Store.{find_wallet}
use kori.Store.Laws.{total, total-add_to}
use kori.Transactions.Transfer.{Transfer, Fresh, TransactionResultResponse, execute_acid_transfer}
use kori.Transactions.Transfer.Moves.{Posted, Moved}
use kori.Transactions.Transfer.Inversion.{execute_ok}

-- A call that throws has changed nothing.
pub execute_acid_transfer_atomic :
    (fresh : Fresh) (t : Transfer) (db : Db) (e : Exception)
    → (execute_acid_transfer fresh t db).0 ≡ err e
    → (execute_acid_transfer fresh t db).1 ≡ db
unfolding execute_acid_transfer
execute_acid_transfer_atomic fresh t db e h = ground arith

-- The total is the amount and the fee.
abbrev pub IsBalanced : Transfer → Type 0
IsBalanced t =
    t.total_required_amount.amount_minor_units
    ≡ t.transfer_amount.amount_minor_units +ℤ t.fee_amount.amount_minor_units

Posted-total :
    {id : Text} {delta : ℤ} {entry : Wallet → LedgerEntry} {db : Db} {w : Wallet} {db' : Db}
    → Posted id delta entry db w db'
    → total db'.wallets ≡ total db.wallets +ℤ delta
unfolding find_wallet
Posted-total {id} {delta} {entry} {db} {w} {db'} p =
    ap (λ (d : Db). total d.wallets) p.after ∙ total-add_to id delta db.wallets p.before p.found

pub is_zero_amount : (m : Money) → is_zero m ≡ true → m.amount_minor_units ≡ pos 0
unfolding is_zero
is_zero_amount m h = ground arith

settles :
    (t₀ t₁ t₂ t₃ all amount fee : ℤ)
    → all ≡ amount +ℤ fee
    → t₁ ≡ t₀ +ℤ (pos 0 -ℤ all)
    → t₂ ≡ t₁ +ℤ amount
    → t₃ ≡ t₂ +ℤ fee
    → t₃ ≡ t₀
settles t₀ t₁ t₂ t₃ all amount fee b e₁ e₂ e₃ = rw (e₃, e₂, e₁, b) (omega int_laws)

settles_free :
    (t₀ t₁ t₂ all amount fee : ℤ)
    → all ≡ amount +ℤ fee
    → fee ≡ pos 0
    → t₁ ≡ t₀ +ℤ (pos 0 -ℤ all)
    → t₂ ≡ t₁ +ℤ amount
    → t₂ ≡ t₀
settles_free t₀ t₁ t₂ all amount fee b z e₁ e₂ = rw (e₂, e₁, b, z) (omega int_laws)

Moved-total :
    {row : Transaction} {t : Transfer} {db : Db} {s r : Wallet} {db' : Db}
    → IsBalanced t
    → Moved row t db s r db'
    → total db'.wallets ≡ total db.wallets
Moved-total {t = t} {db = db} {db' = db'} b m = elim m.fee [
  | inl (free, e) ↦
      subst (λ (d : Db). total d.wallets ≡ total db.wallets) (sym e)
        (settles_free (total db.wallets) (total m.after_debit.wallets)
          (total m.after_credit.wallets) t.total_required_amount.amount_minor_units
          t.transfer_amount.amount_minor_units t.fee_amount.amount_minor_units b
          (is_zero_amount t.fee_amount free) (Posted-total m.debited) (Posted-total m.credited))
  | inr (w, charged, p) ↦
      settles (total db.wallets) (total m.after_debit.wallets) (total m.after_credit.wallets)
        (total db'.wallets) t.total_required_amount.amount_minor_units
        t.transfer_amount.amount_minor_units t.fee_amount.amount_minor_units b
        (Posted-total m.debited) (Posted-total m.credited) (Posted-total p)
]

-- The sum of all balances is what it was, whether the transfer succeeds or throws.
pub execute_acid_transfer-total :
    (fresh : Fresh) (t : Transfer) (db : Db)
    → IsBalanced t
    → total (execute_acid_transfer fresh t db).1.wallets ≡ total db.wallets
execute_acid_transfer-total fresh t db b = go (execute_acid_transfer fresh t db).0 refl
  where
    go :
        (r : Result TransactionResultResponse)
        → (execute_acid_transfer fresh t db).0 ≡ r
        → total (execute_acid_transfer fresh t db).1.wallets ≡ total db.wallets
    go (ok a) h = Moved-total b (execute_ok fresh t db a h).moved
    go (err e) h = ap (λ (d : Db). total d.wallets) (execute_acid_transfer_atomic fresh t db e h)
