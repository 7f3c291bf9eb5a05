-- ===== src/Transactions/Transfer/Moves.antt =====
-- What a debit, a credit and the collection of the fee do to the tables when they succeed.
use kori.Common.{
  ◌≡◌, sym, ap, subst, true, false, some, ◌∷◌, arith, Bool-cases, Option-cases, inl, inr, ◌++◌, ◌⊎◌,
}
use kori.Common.Int.{ℤ, pos, ◌-ℤ◌}
use kori.Common.Text.{Text, text}
use kori.Common.Result.{Result, ok}
use kori.Domain.Money.{Money, is_zero}
use kori.Schema.{Db, Wallet, Transaction, LedgerEntry}
use kori.Schema.Enums.{PrismaEntryType}
use kori.Store.{
  ◌>>=◌, ◌>>◌, pure, add_balance, find_wallet, fits_big_int, update_balance, create_entry,
}
use kori.Store.Laws.{add_to, >>=-ok}
use kori.Transactions.Description.{dynamic_ledger_description}
use kori.Transactions.Transfer.{Transfer, debit, credit, collect_fee, move_money}

-- One wallet has changed by `delta`, and one entry, made from the updated row `w`, stands before
-- the others.
pub record Posted (id : Text) (delta : ℤ) (entry : Wallet → LedgerEntry) (db : Db) (w : Wallet)
    (db' : Db) : Type 0 where
  pub before : Wallet
  pub found : find_wallet id db ≡ some before
  pub updated : w ≡ add_balance delta before
  pub fits : fits_big_int w.balance ≡ true
  pub after : db' ≡ record db {
    wallets = add_to id delta db.wallets;
    ledger_entries = entry w ∷ db.ledger_entries;
  }

post_ok :
    (id : Text) (delta : ℤ) (entry : Wallet → LedgerEntry) (db : Db) (w : Wallet) (db' : Db)
    → (do updated ← update_balance id delta; create_entry (entry updated); pure updated) db
      ≡ (ok w, db')
    → Posted id delta entry db w db'
unfolding update_balance
post_ok id delta entry db w db' h = elim (Option-cases (find_wallet id db)) [
  | inl missing ↦ absurd (ground arith)
  | inr (v, found) ↦ record {
    before = v;
    found = found;
    updated = ground arith;
    fits = ground arith;
    after = ground arith;
  }
]

abbrev pub debit_entry : Text → Text → Money → Text → Wallet → LedgerEntry
debit_entry transaction_id wallet_id amount description w = record {
  transaction_id = transaction_id;
  wallet_id = wallet_id;
  type = PrismaEntryType.debit;
  amount = amount.amount_minor_units;
  balance_after = w.balance;
  description = description;
}

abbrev pub credit_entry : Text → Text → Money → Text → Wallet → LedgerEntry
credit_entry transaction_id wallet_id amount description w = record {
  transaction_id = transaction_id;
  wallet_id = wallet_id;
  type = PrismaEntryType.credit;
  amount = amount.amount_minor_units;
  balance_after = w.balance;
  description = description;
}

pub debit_ok :
    (tid id : Text) (m : Money) (d : Text) (db : Db) (w : Wallet) (db' : Db)
    → debit tid id m d db ≡ (ok w, db')
    → Posted id (pos 0 -ℤ m.amount_minor_units) (debit_entry tid id m d) db w db'
unfolding debit
debit_ok tid id m d db w db' h =
    post_ok id (pos 0 -ℤ m.amount_minor_units) (debit_entry tid id m d) db w db' h

pub credit_ok :
    (tid id : Text) (m : Money) (d : Text) (db : Db) (w : Wallet) (db' : Db)
    → credit tid id m d db ≡ (ok w, db')
    → Posted id m.amount_minor_units (credit_entry tid id m d) db w db'
unfolding credit
credit_ok tid id m d db w db' h =
    post_ok id m.amount_minor_units (credit_entry tid id m d) db w db' h

abbrev pub fee_description : Transaction → Text
fee_description row = text "Fee collection for TRX " ++ row.trx_id

-- With no fee nothing changes; otherwise the system wallet is credited.
pub collect_fee_ok :
    (row : Transaction) (t : Transfer) (db db' : Db)
    → collect_fee row t db ≡ (ok tt, db')
    → ((is_zero t.fee_amount ≡ true) × (db' ≡ db))
      ⊎ ((w : Wallet) × (is_zero t.fee_amount ≡ false)
          × Posted t.system_wallet_id.id t.fee_amount.amount_minor_units
              (credit_entry row.id t.system_wallet_id.id t.fee_amount (fee_description row))
              db
              w
              db')
unfolding collect_fee
collect_fee_ok row t db db' h = elim (Bool-cases (is_zero t.fee_amount)) [
  | inl free ↦ inl (free, sym (ap (λ (p : Result (Unit {0}) × Db). p.1) (rw free at h)))
  | inr charged ↦
      let (w, db₁, first, rest) =
        >>=-ok (credit row.id t.system_wallet_id.id t.fee_amount (fee_description row))
          (λ (_ : Wallet). pure tt) db (rw charged at h) in
      inr (
        w,
        charged,
        subst (Posted _ _ _ db w) (ap (λ (p : Result (Unit {0}) × Db). p.1) rest) (
            credit_ok row.id t.system_wallet_id.id t.fee_amount (fee_description row) db w db₁
              first),
      )
]

-- The three postings of a transfer, one after the other.
pub record Moved (row : Transaction) (t : Transfer) (db : Db) (s r : Wallet) (db' : Db)
    : Type 0 where
  pub after_debit : Db
  pub after_credit : Db
  pub debited :
      Posted t.sender_wallet_id.id
        (pos 0 -ℤ t.total_required_amount.amount_minor_units)
        (debit_entry row.id t.sender_wallet_id.id t.total_required_amount
          (dynamic_ledger_description t.type t.sender_wallet_id
            t.receiver_wallet_id).debit_description)
        db
        s
        after_debit
  pub credited :
      Posted t.receiver_wallet_id.id t.transfer_amount.amount_minor_units
        (credit_entry row.id t.receiver_wallet_id.id t.transfer_amount
          (dynamic_ledger_description t.type t.sender_wallet_id
            t.receiver_wallet_id).credit_description)
        after_debit
        r
        after_credit
  pub fee :
      ((is_zero t.fee_amount ≡ true) × (db' ≡ after_credit))
      ⊎ ((w : Wallet) × (is_zero t.fee_amount ≡ false)
          × Posted t.system_wallet_id.id t.fee_amount.amount_minor_units
              (credit_entry row.id t.system_wallet_id.id t.fee_amount (fee_description row))
              after_credit
              w
              db')

Moved-intro :
    (row : Transaction) (t : Transfer) (db : Db) (s₁ r₁ : Wallet) (db₁ db₂ db₃ : Db) (s r : Wallet)
    (db' : Db)
    → let d = dynamic_ledger_description t.type t.sender_wallet_id t.receiver_wallet_id in
      debit row.id t.sender_wallet_id.id t.total_required_amount d.debit_description db
        ≡ (ok s₁, db₁)
      → credit row.id t.receiver_wallet_id.id t.transfer_amount d.credit_description db₁
        ≡ (ok r₁, db₂)
      → collect_fee row t db₂ ≡ (ok tt, db₃)
      → Path (Result (Wallet × Wallet) × Db) (ok (s₁, r₁), db₃) (ok (s, r), db')
      → Moved row t db s r db'
Moved-intro row t db s₁ r₁ db₁ db₂ db₃ s r db' first second third e = record {
  after_debit = db₁;
  after_credit = db₂;
  debited =
      debit_ok row.id t.sender_wallet_id.id t.total_required_amount
        (dynamic_ledger_description t.type t.sender_wallet_id
          t.receiver_wallet_id).debit_description
        db s db₁ (cc);
  credited =
      credit_ok row.id t.receiver_wallet_id.id t.transfer_amount
        (dynamic_ledger_description t.type t.sender_wallet_id
          t.receiver_wallet_id).credit_description
        db₁ r db₂ (cc);
  fee = collect_fee_ok row t db₂ db' (cc);
}

pub move_money_ok :
    (row : Transaction) (t : Transfer) (db : Db) (s r : Wallet) (db' : Db)
    → move_money row t db ≡ (ok (s, r), db')
    → Moved row t db s r db'
unfolding move_money
move_money_ok row t db s r db' h =
    let d = dynamic_ledger_description t.type t.sender_wallet_id t.receiver_wallet_id in
    let (s₁, db₁, first, h₁) =
      >>=-ok (debit row.id t.sender_wallet_id.id t.total_required_amount d.debit_description)
        (λ (x : Wallet).
          credit row.id t.receiver_wallet_id.id t.transfer_amount d.credit_description
          >>= λ (y : Wallet). collect_fee row t >> pure (x, y))
        db h in
    let (r₁, db₂, second, h₂) =
      >>=-ok (credit row.id t.receiver_wallet_id.id t.transfer_amount d.credit_description)
        (λ (y : Wallet). collect_fee row t >> pure (s₁, y)) db₁ h₁ in
    let (_, db₃, third, h₃) = >>=-ok (collect_fee row t) (λ (_ : Unit {0}). pure (s₁, r₁)) db₂ h₂ in
    Moved-intro row t db s₁ r₁ db₁ db₂ db₃ s r db' first second third h₃
