-- ===== src/Transactions/Transfer/Inversion.antt =====
-- What holds when the body of the transfer succeeds: every guard has passed, the row of the
-- transaction is new, and the postings have been made.
use kori.Common.{◌≡◌, ◌∙◌, ap, subst, false, ◌∷◌, arith}
use kori.Common.Int.{◌≤ℤ◌}
use kori.Common.Result.{Result, ok}
use kori.Common.Table.{any}
use kori.Domain.Money.{Money}
use kori.Schema.{Db, Wallet, Transaction}
use kori.Store.{Action, ◌>>=◌, ◌>>◌, pure, clashes, create_transaction}
use kori.Store.Laws.{>>=-ok}
use kori.Transactions.Transfer.{
  Transfer, Fresh, TransactionResultResponse, transaction_row, transfer_body, response,
  lock_participants, assert_funds, move_money, execute_acid_transfer,
}
use kori.Transactions.Transfer.Moves.{Moved, move_money_ok}

-- The database after the row of the transaction has been written.
abbrev pub with_row : Transaction → Db → Db
with_row row db = record db { transactions = row ∷ db.transactions }

pub record Executed (fresh : Fresh) (t : Transfer) (db : Db) (r : TransactionResultResponse)
    (db' : Db) : Type 0 where
  pub locked : Wallet
  pub sender_after : Wallet
  pub receiver_after : Wallet
  pub participants : lock_participants t db ≡ ok locked
  pub covered : t.total_required_amount.amount_minor_units ≤ℤ locked.balance
  pub unused : any (clashes (transaction_row fresh t)) db.transactions ≡ false
  pub moved :
      Moved
        (transaction_row fresh t)
        t
        (with_row (transaction_row fresh t) db)
        sender_after
        receiver_after
        db'
  pub answer : r ≡ response t (transaction_row fresh t) sender_after receiver_after

assert_funds_ok :
    (w : Wallet) (m : Money) (db db' : Db)
    → assert_funds w m db ≡ (ok tt, db')
    → (m.amount_minor_units ≤ℤ w.balance) × (db' ≡ db)
unfolding assert_funds
assert_funds_ok w m db db' h = (ground arith, ground arith)

create_transaction_ok :
    (row : Transaction) (db : Db) (u : Transaction) (db' : Db)
    → create_transaction row db ≡ (ok u, db')
    → (any (clashes row) db.transactions ≡ false) × (u ≡ row) × (db' ≡ with_row row db)
unfolding create_transaction
create_transaction_ok row db u db' h = (ground arith, ground arith, ground arith)

lock_ok :
    (t : Transfer) (db : Db) (w : Wallet) (db' : Db)
    → Path (Result Wallet × Db) (lock_participants t db, db) (ok w, db')
    → (lock_participants t db ≡ ok w) × (db' ≡ db)
lock_ok t db w db' h = (cc, cc)

-- From the equations of the single steps.
Executed-intro :
    (fresh : Fresh) (t : Transfer) (db : Db) (w s r : Wallet) (db₁ db₂ db₃ db₄ : Db)
    (u : Transaction) (a : TransactionResultResponse) (db' : Db)
    → Path (Result Wallet × Db) (lock_participants t db, db) (ok w, db₁)
    → assert_funds w t.total_required_amount db₁ ≡ (ok tt, db₂)
    → create_transaction (transaction_row fresh t) db₂ ≡ (ok u, db₃)
    → move_money u t db₃ ≡ (ok (s, r), db₄)
    → Path (Result TransactionResultResponse × Db) (ok (response t u s r), db₄) (ok a, db')
    → Executed fresh t db a db'
Executed-intro fresh t db w s r db₁ db₂ db₃ db₄ u a db' h₁ h₂ h₃ h₄ h₅ =
    let (locked, e₁) = lock_ok t db w db₁ h₁ in
    let (covered, e₂) = assert_funds_ok w t.total_required_amount db₁ db₂ h₂ in
    let (unused, same_row, e₃) = create_transaction_ok (transaction_row fresh t) db₂ u db₃ h₃ in
    let start : db₂ ≡ db = e₂ ∙ e₁ in
    let row = transaction_row fresh t in
    record {
      locked = w;
      sender_after = s;
      receiver_after = r;
      participants = locked;
      covered = covered;
      unused = subst (λ (x : Db). any (clashes row) x.transactions ≡ false) start unused;
      moved = move_money_ok row t (with_row row db) s r db' (
          chain u row db₃ (with_row row db) db₄ db' same_row (e₃ ∙ ap (with_row row) start)
            (ap (λ (p : Result TransactionResultResponse × Db). p.1) h₅) h₄);
      answer = answer_of u row same_row h₅;
    }
  where
    chain :
        (x y : Transaction) (d d' f f' : Db)
        → x ≡ y
        → d ≡ d'
        → f ≡ f'
        → move_money x t d ≡ (ok (s, r), f)
        → move_money y t d' ≡ (ok (s, r), f')
    chain x y d d' f f' p q g h = cc

    answer_of :
        (x y : Transaction)
        → x ≡ y
        → Path (Result TransactionResultResponse × Db) (ok (response t x s r), db₄) (ok a, db')
        → a ≡ response t y s r
    answer_of x y p h = cc

pub transfer_body_ok :
    (fresh : Fresh) (t : Transfer) (db : Db) (r : TransactionResultResponse) (db' : Db)
    → transfer_body fresh t db ≡ (ok r, db')
    → Executed fresh t db r db'
unfolding transfer_body
transfer_body_ok fresh t db a db' h =
    let row = transaction_row fresh t in
    let finish : Transaction → Action TransactionResultResponse =
      λ u. move_money u t >>= λ (p : Wallet × Wallet). pure (response t u p.0 p.1) in
    let (w, db₁, h₁, k₁) =
      >>=-ok (λ x. (lock_participants t x, x))
        (λ (x : Wallet).
          assert_funds x t.total_required_amount >> (create_transaction row >>= finish))
        db h in
    let (_, db₂, h₂, k₂) =
      >>=-ok (assert_funds w t.total_required_amount)
        (λ (_ : Unit {0}). create_transaction row >>= finish) db₁ k₁ in
    let (u, db₃, h₃, k₃) = >>=-ok (create_transaction row) finish db₂ k₂ in
    let (p, db₄, h₄, k₄) =
      >>=-ok (move_money u t) (λ (p : Wallet × Wallet). pure (response t u p.0 p.1)) db₃ k₃ in
    Executed-intro fresh t db w p.0 p.1 db₁ db₂ db₃ db₄ u a db' h₁ h₂ h₃ h₄ k₄

-- A call that succeeds has run the whole body.
pub execute_ok :
    (fresh : Fresh) (t : Transfer) (db : Db) (r : TransactionResultResponse)
    → (execute_acid_transfer fresh t db).0 ≡ ok r
    → Executed fresh t db r (execute_acid_transfer fresh t db).1
unfolding execute_acid_transfer
execute_ok fresh t db r h =
    transfer_body_ok fresh t db r (execute_acid_transfer fresh t db).1 (ground arith)
