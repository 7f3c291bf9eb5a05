-- ===== src/Transactions/Transfer/Ledger.antt =====
-- The ledger against the balances: every balance is the sum of its entries, and debits equal
-- credits in each transfer.
use mathlib.Core.Option
use kori.Common.{◌≡◌, refl, sym, ◌∙◌, ap, subst, Option, none, some, if◌then◌else◌, inl, inr}
use kori.Common.Int.{ℤ, pos, ◌+ℤ◌, int_laws}
use kori.Common.Text.{Text, ◌==◌}
use kori.Common.Result.{Result, ok, err}
use kori.Schema.{Db, Wallet, LedgerEntry, Transaction}
use kori.Store.Balances.{balance_of, entries_sum, signed}
use kori.Transactions.Transfer.{Transfer, Fresh, TransactionResultResponse, execute_acid_transfer}
use kori.Transactions.Transfer.Moves.{Posted, Moved}
use kori.Transactions.Transfer.Inversion.{execute_ok}
use kori.Transactions.Transfer.Laws.{execute_acid_transfer_atomic}
use kori.Transactions.Transfer.Effect.{Posted-balance_of}

-- The balance of every wallet is the sum of its ledger entries.
abbrev pub IsReconciled : Db → Type 0
IsReconciled db =
    (x : Text) (b : ℤ) → balance_of x db ≡ some b → b ≡ entries_sum x db.ledger_entries

-- The new entry is for the wallet that changes, and counts what changes.
abbrev Counts : Text → ℤ → (Wallet → LedgerEntry) → Type 0
Counts id delta entry = (w : Wallet) → ((entry w).wallet_id ≡ id) × (signed (entry w) ≡ delta)

reconcile :
    (o : Option ℤ) (delta sum b : ℤ)
    → ((c : ℤ) → o ≡ some c → c ≡ sum)
    → Option.map (λ (n : ℤ). n +ℤ delta) o ≡ some b
    → b ≡ delta +ℤ sum
reconcile none delta sum b h e = cc
reconcile (some c) delta sum b h e = rw (← some_inj e, h c refl) (omega int_laws)
  where
    some_inj : {m n : ℤ} → some m ≡ some n → m ≡ n
    some_inj p = cc

Posted-IsReconciled :
    {id : Text} {delta : ℤ} {entry : Wallet → LedgerEntry} {db : Db} {w : Wallet} {db' : Db}
    → Counts id delta entry
    → Posted id delta entry db w db'
    → IsReconciled db
    → IsReconciled db'
unfolding entries_sum
Posted-IsReconciled {id} {delta} {entry} {db} {w} {db'} counts p rec x b h =
    reconcile (balance_of x db) (if id == x then delta else pos 0) (entries_sum x db.ledger_entries)
      b (rec x) (sym (Posted-balance_of x p) ∙ h)
    ∙ (rw (← (counts w).0, ← (counts w).1)
        (sym (ap (λ (d : Db). entries_sum x d.ledger_entries) p.after)))

Moved-IsReconciled :
    {row : Transaction} {t : Transfer} {db : Db} {s r : Wallet} {db' : Db}
    → Moved row t db s r db'
    → IsReconciled db
    → IsReconciled db'
Moved-IsReconciled m rec = elim m.fee [
  | inl (free, e) ↦ subst IsReconciled (sym e) credited
  | inr (w, charged, p) ↦ Posted-IsReconciled (λ v. (refl, refl)) p credited
]
  where
    credited : IsReconciled m.after_credit
    credited =
        Posted-IsReconciled (λ v. (refl, refl)) m.credited
          (Posted-IsReconciled (λ v. (refl, refl)) m.debited rec)

-- If every balance is the sum of its ledger entries before a transfer, so it is after it, whether
-- the transfer succeeds or throws.
pub execute_acid_transfer-IsReconciled :
    (fresh : Fresh) (t : Transfer) (db : Db)
    → IsReconciled db
    → IsReconciled (execute_acid_transfer fresh t db).1
execute_acid_transfer-IsReconciled fresh t db rec = go (execute_acid_transfer fresh t db).0 refl
  where
    go :
        (r : Result TransactionResultResponse)
        → (execute_acid_transfer fresh t db).0 ≡ r
        → IsReconciled (execute_acid_transfer fresh t db).1
    go (ok a) h = Moved-IsReconciled (execute_ok fresh t db a h).moved rec
    go (err e) h = subst IsReconciled (sym (execute_acid_transfer_atomic fresh t db e h)) rec
