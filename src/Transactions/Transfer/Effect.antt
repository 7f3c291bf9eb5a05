-- ===== src/Transactions/Transfer/Effect.antt =====
-- The effect of a successful transfer on each balance, and on the other tables.
use mathlib.Core.Option
use kori.Common.{◌≡◌, refl, ◌∙◌, ap, Bool, true, false, Option, none, some, if◌then◌else◌, inl, inr}
use kori.Common.Int.{ℤ, pos, ◌+ℤ◌, ◌-ℤ◌, int_laws}
use kori.Common.Text.{Text, ◌==◌}
use kori.Common.Result.{Result, ok, err}
use kori.Schema.{Db, Wallet, LedgerEntry, Transaction}
use kori.Store.Balances.{balance_of, balance_in-add_to}
use kori.Transactions.Transfer.{Transfer, Fresh, TransactionResultResponse, execute_acid_transfer}
use kori.Transactions.Transfer.Moves.{Posted, Moved}
use kori.Transactions.Transfer.Inversion.{execute_ok}
use kori.Transactions.Transfer.Laws.{is_zero_amount, execute_acid_transfer_atomic}

-- What a transfer adds to the balance of the wallet `x`.
abbrev pub change : Transfer → Text → ℤ
change t x =
    (if t.sender_wallet_id.id == x
      then pos 0 -ℤ t.total_required_amount.amount_minor_units
      else pos 0)
    +ℤ (if t.receiver_wallet_id.id == x then t.transfer_amount.amount_minor_units else pos 0)
    +ℤ (if t.system_wallet_id.id == x then t.fee_amount.amount_minor_units else pos 0)

pub Posted-balance_of :
    {id : Text} {delta : ℤ} {entry : Wallet → LedgerEntry} {db : Db} {w : Wallet} {db' : Db}
    (x : Text)
    → Posted id delta entry db w db'
    → balance_of x db'
      ≡ Option.map (λ (b : ℤ). b +ℤ (if id == x then delta else pos 0)) (balance_of x db)
Posted-balance_of {id} {delta} {entry} {db} x p =
    ap (balance_of x) p.after ∙ balance_in-add_to x id delta db.wallets

map_three :
    (o₀ o₁ o₂ o₃ : Option ℤ) (a b c : ℤ)
    → o₁ ≡ Option.map (λ (n : ℤ). n +ℤ a) o₀
    → o₂ ≡ Option.map (λ (n : ℤ). n +ℤ b) o₁
    → o₃ ≡ Option.map (λ (n : ℤ). n +ℤ c) o₂
    → o₃ ≡ Option.map (λ (n : ℤ). n +ℤ (a +ℤ b +ℤ c)) o₀
map_three none o₁ o₂ o₃ a b c e₁ e₂ e₃ = rw (e₃, e₂, e₁)
map_three (some n) o₁ o₂ o₃ a b c e₁ e₂ e₃ = rw (e₃, e₂, e₁) (ap some (omega int_laws))

map_zero : (o : Option ℤ) (z : ℤ) → z ≡ pos 0 → o ≡ Option.map (λ (n : ℤ). n +ℤ z) o
map_zero none z e = refl
map_zero (some n) z e = ap some (rw e (omega int_laws))

if_zero : (b : Bool) (z : ℤ) → z ≡ pos 0 → (if b then z else pos 0) ≡ pos 0
if_zero true z e = e
if_zero false z e = refl

Moved-balance_of :
    {row : Transaction} {t : Transfer} {db : Db} {s r : Wallet} {db' : Db} (x : Text)
    → Moved row t db s r db'
    → balance_of x db' ≡ Option.map (λ (n : ℤ). n +ℤ change t x) (balance_of x db)
Moved-balance_of {t = t} {db = db} {db' = db'} x m =
    map_three (balance_of x db) (balance_of x m.after_debit) (balance_of x m.after_credit)
      (balance_of x db') _ _ _ (Posted-balance_of x m.debited) (Posted-balance_of x m.credited)
      (elim m.fee [
        | inl (free, e) ↦
            ap (balance_of x) e
            ∙ map_zero (balance_of x m.after_credit) _
                (if_zero (t.system_wallet_id.id == x) _ (is_zero_amount t.fee_amount free))
        | inr (w, charged, p) ↦ Posted-balance_of x p
      ])

-- A successful transfer takes the total from the sender, gives the amount to the receiver and the
-- fee to the system wallet, and leaves every other balance as it is.
pub execute_acid_transfer-balance_of :
    (fresh : Fresh) (t : Transfer) (db : Db) (r : TransactionResultResponse) (x : Text)
    → (execute_acid_transfer fresh t db).0 ≡ ok r
    → balance_of x (execute_acid_transfer fresh t db).1
      ≡ Option.map (λ (n : ℤ). n +ℤ change t x) (balance_of x db)
execute_acid_transfer-balance_of fresh t db r x h =
    Moved-balance_of x (execute_ok fresh t db r h).moved

Posted-transactions :
    {id : Text} {delta : ℤ} {entry : Wallet → LedgerEntry} {db : Db} {w : Wallet} {db' : Db}
    → Posted id delta entry db w db'
    → (db'.transactions ≡ db.transactions)
      × (db'.users ≡ db.users)
      × (db'.trust_devices ≡ db.trust_devices)
      × (db'.business_approvals ≡ db.business_approvals)
Posted-transactions p = (
  ap (λ (d : Db). d.transactions) p.after,
  ap (λ (d : Db). d.users) p.after,
  ap (λ (d : Db). d.trust_devices) p.after,
  ap (λ (d : Db). d.business_approvals) p.after,
)

-- The other tables: what the three postings leave alone.
pub Moved-transactions :
    {row : Transaction} {t : Transfer} {db : Db} {s r : Wallet} {db' : Db}
    → Moved row t db s r db'
    → (db'.transactions ≡ db.transactions) × (db'.users ≡ db.users)
Moved-transactions {db = db} {db' = db'} m = elim m.fee [
  | inl (free, e) ↦ (
    ap (λ (d : Db). d.transactions) e ∙ after_credit_transactions,
    ap (λ (d : Db). d.users) e ∙ after_credit_users,
  )
  | inr (w, charged, p) ↦ (
    (Posted-transactions p).0 ∙ after_credit_transactions,
    (Posted-transactions p).1 ∙ after_credit_users,
  )
]
  where
    after_credit_transactions : m.after_credit.transactions ≡ db.transactions
    after_credit_transactions =
        (Posted-transactions m.credited).0 ∙ (Posted-transactions m.debited).0

    after_credit_users : m.after_credit.users ≡ db.users
    after_credit_users = (Posted-transactions m.credited).1 ∙ (Posted-transactions m.debited).1

-- A call leaves the trusted devices alone.
pub execute_acid_transfer-trust_devices :
    (fresh : Fresh) (t : Transfer) (db : Db)
    → (execute_acid_transfer fresh t db).1.trust_devices ≡ db.trust_devices
execute_acid_transfer-trust_devices fresh t db = go (execute_acid_transfer fresh t db).0 refl
  where
    moved :
        {row : Transaction} {s r : Wallet} {d d' : Db} (m : Moved row t d s r d')
        → d'.trust_devices ≡ d.trust_devices
    moved m = elim m.fee [
      | inl (free, e) ↦
          ap (λ (d : Db). d.trust_devices) e
          ∙ ((Posted-transactions m.credited).2 ∙ (Posted-transactions m.debited).2)
      | inr (w, charged, p) ↦
          (Posted-transactions p).2
          ∙ ((Posted-transactions m.credited).2 ∙ (Posted-transactions m.debited).2)
    ]

    go :
        (r : Result TransactionResultResponse)
        → (execute_acid_transfer fresh t db).0 ≡ r
        → (execute_acid_transfer fresh t db).1.trust_devices ≡ db.trust_devices
    go (ok a) h = moved (execute_ok fresh t db a h).moved
    go (err e) h = ap (λ (d : Db). d.trust_devices) (execute_acid_transfer_atomic fresh t db e h)
