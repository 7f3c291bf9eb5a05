-- ===== src/Store.antt =====
-- The queries that the services send through Prisma, as actions on the tables: they read and write
-- the rows, and fail as the database does. Inside `transaction` a failure undoes every write.
pub mod Laws
pub mod Balances
use kori.Common.{
  Bool, true, false, Option, none, some, ℕ, not, ◌&&◌, ◌||◌, same, List, ◌∷◌, if◌then◌else◌,
  is_some, is_none,
}
use kori.Common.Int.{ℤ, pos, negsuc, ◌+ℤ◌, lt_ℤ}
use kori.Common.Text.{Text, text, ◌==◌}
use kori.Common.Uuid.{is_uuid, uuid_value}
use kori.Common.Result.{Result, ok, err, Exception, prisma}
use kori.Common.Table.{find, update, any}
use kori.Schema.{Db, User, Wallet, Transaction, LedgerEntry}
use kori.Schema.Enums.{PrismaAccountStatus, PrismaAccountStatus-discrete}

abbrev pub Action : Type 0 → Type 0
Action A = Db → Result A × Db

infixl 5 ◌>>=◌
abbrev pub ◌>>=◌ : {A B : Type 0} → Action A → (A → Action B) → Action B
call >>= next = λ db.
    let (outcome, after) = call db in
    elim outcome [ err thrown ↦ (err thrown, after) | ok value ↦ next value after ]

infixl 5 ◌>>◌
abbrev pub ◌>>◌ : {A B : Type 0} → Action A → Action B → Action B
call >> rest = call >>= λ _. rest

abbrev pub pure : {A : Type 0} → A → Action A
pure a db = (ok a, db)

abbrev pub throw : {A : Type 0} → Exception → Action A
throw e db = (err e, db)

abbrev pub lift : {A : Type 0} → Result A → Action A
lift r db = (r, db)

abbrev pub gets : {A : Type 0} → (Db → A) → Action A
gets f db = (ok (f db), db)

-- `prisma.$transaction(body)`.
abbrev pub transaction : {A : Type 0} → Action A → Action A
transaction body db = let (r, db') = body db in elim r [ ok a ↦ (ok a, db') | err e ↦ (err e, db) ]

-- A column that may be NULL equals a value; NULL equals none.
abbrev pub is_text : Option Text → Text → Bool
is_text none t = false
is_text (some s) t = s == t

-- The filter `user: { status }` of a wallet, and `user: { is: { status } }` of a device.
unfoldable pub user_has_status : Text → PrismaAccountStatus → Db → Bool
user_has_status id status db =
    any (λ u. u.id == id && same PrismaAccountStatus-discrete u.status status) db.users

unfoldable pub owner_has_status : Wallet → PrismaAccountStatus → Db → Bool
owner_has_status w status db = elim w.user_id [
  | none ↦ false
  | some id ↦ user_has_status id status db
]

unfoldable pub find_wallet : Text → Db → Option Wallet
find_wallet id db = find (λ w. w.id == id) db.wallets

unfoldable pub find_wallet_of_user : Text → Db → Option Wallet
find_wallet_of_user user_id db = find (λ w. is_text w.user_id user_id) db.wallets

unfoldable pub find_user : Text → Db → Option User
find_user id db = find (λ u. u.id == id) db.users

unfoldable pub find_user_by_phone : Text → Db → Option User
find_user_by_phone phone db = find (λ u. u.phone == phone) db.users

-- The codes that Prisma reports: a unique column already has the value, the row is not there, and
-- the value does not fit the column.
abbrev pub unique_violation : Exception
unique_violation = prisma (text "P2002")

abbrev pub record_not_found : Exception
record_not_found = prisma (text "P2025")

abbrev pub out_of_range : Exception
out_of_range = prisma (text "P2020")

-- The range of a BIGINT column.
abbrev pub fits_big_int : ℤ → Bool
fits_big_int x =
    not (lt_ℤ x (negsuc 9_223_372_036_854_775_807)) && not (lt_ℤ (pos 9_223_372_036_854_775_807) x)

abbrev pub add_balance : ℤ → Wallet → Wallet
add_balance delta w = record w { balance = w.balance +ℤ delta }

-- `wallet.update({ where: { id }, data: { balance: { increment } } })`, which returns the row.
unfoldable pub update_balance : Text → ℤ → Action Wallet
update_balance id delta db = elim (find_wallet id db) [
  | none ↦ (err record_not_found, db)
  | some w ↦
      if fits_big_int (w.balance +ℤ delta)
      then (
        ok (add_balance delta w),
        record db { wallets = update (λ v. v.id == id) (add_balance delta) db.wallets },
      )
      else (err out_of_range, db)
]

-- `transaction.create`, with the unique columns `id`, `trxId` and `idempotencyKey`.
-- `idempotencyKey` is a UUID column, whose values are compared as UUIDs.
abbrev pub clashes : Transaction → Transaction → Bool
clashes t u =
    u.id == t.id
    || u.trx_id == t.trx_id
    || uuid_value u.idempotency_key == uuid_value t.idempotency_key

abbrev pub invalid_uuid : Exception
invalid_uuid = prisma (text "P2023")

unfoldable pub create_transaction : Transaction → Action Transaction
unfolding is_uuid uuid_value
create_transaction t db =
    if not (is_uuid t.idempotency_key)
    then (err invalid_uuid, db)
    else (if any (clashes t) db.transactions
        then (err unique_violation, db)
        else (ok t, record db { transactions = t ∷ db.transactions }))

-- `ledgerEntry.create`.
abbrev pub create_entry : LedgerEntry → Action (Unit {0})
create_entry e db = (ok tt, record db { ledger_entries = e ∷ db.ledger_entries })
