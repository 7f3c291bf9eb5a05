-- ===== src/Transactions/Transfer/Safety.antt =====
-- Transfers keep the rows sound: ids stay distinct, no balance becomes negative, and every
-- idempotency key has one transaction at most.
use kori.Common.{
  ◌≡◌, ◌≢◌, refl, sym, ◌∙◌, ap, subst, false, Option, some, List, [], ◌∷◌, map, arith, inl, inr,
  All, ◌&&◌,
}
use kori.Common.Int.{ℤ, pos, ◌+ℤ◌, ◌-ℤ◌, ◌≤ℤ◌, int_laws}
use kori.Common.Text.{Text, ◌==◌}
use kori.Common.Result.{Result, ok, err}
use kori.Common.Table.{find, any}
use kori.Domain.Money.Laws.{IsValid}
use kori.Schema.{Db, Wallet, LedgerEntry, Transaction}
use kori.Domain.Enums.{AccountStatus}
use kori.Mappers.Account.{to_prisma_status}
use kori.Common.Uuid.{uuid_value}
use kori.Store.{find_wallet, clashes, owner_has_status}
use kori.Common.Table.Keys.{Distinct, find_refined}
use kori.Store.Balances.{ids, ids-add_to, NonNegative, NonNegative-add_to}
use kori.Transactions.Transfer.{
  Transfer, Fresh, TransactionResultResponse, transaction_row, execute_acid_transfer,
  lock_participants, find_participant,
}
use kori.Transactions.Transfer.Moves.{Posted, Moved}
use kori.Transactions.Transfer.Inversion.{Executed, execute_ok}
use kori.Transactions.Transfer.Laws.{execute_acid_transfer_atomic}
use kori.Transactions.Transfer.Effect.{Moved-transactions}

abbrev pub keys : List Transaction → List Text
keys ts = map (λ (t : Transaction). uuid_value t.idempotency_key) ts

-- The rows of a sound database.
pub record IsSound (db : Db) : Type 0 where
  pub distinct_wallets : Distinct (ids db.wallets)
  pub non_negative : NonNegative db.wallets
  pub distinct_keys : Distinct (keys db.transactions)

-- The amounts of a transfer are amounts of money.
pub record HasAmounts (t : Transfer) : Type 0 where
  pub transfer_valid : IsValid t.transfer_amount
  pub fee_valid : IsValid t.fee_amount
  pub total_valid : IsValid t.total_required_amount

Posted-ids :
    {id : Text} {delta : ℤ} {entry : Wallet → LedgerEntry} {db : Db} {w : Wallet} {db' : Db}
    → Posted id delta entry db w db'
    → ids db'.wallets ≡ ids db.wallets
Posted-ids {id} {delta} {entry} {db} p =
    ap (λ (d : Db). ids d.wallets) p.after ∙ ids-add_to id delta db.wallets

Posted-NonNegative :
    {id : Text} {delta : ℤ} {entry : Wallet → LedgerEntry} {db : Db} {w : Wallet} {db' : Db}
    (p : Posted id delta entry db w db')
    → pos 0 ≤ℤ p.before.balance +ℤ delta
    → NonNegative db.wallets
    → NonNegative db'.wallets
unfolding find_wallet
Posted-NonNegative {id} {delta} {entry} {db} p h n =
    subst (λ (d : Db). NonNegative d.wallets) (sym p.after)
      (NonNegative-add_to id delta db.wallets p.before p.found h n)

found_NonNegative :
    (id : Text) (ws : List Wallet) (w : Wallet)
    → find (λ v. v.id == id) ws ≡ some w
    → NonNegative ws
    → pos 0 ≤ℤ w.balance
unfolding find
found_NonNegative id [] w h n = cc
found_NonNegative id (v ∷ vs) w h n = ground (arith, found_NonNegative id vs w)

Posted-NonNegative_credit :
    {id : Text} {delta : ℤ} {entry : Wallet → LedgerEntry} {db : Db} {w : Wallet} {db' : Db}
    → Posted id delta entry db w db'
    → pos 0 ≤ℤ delta
    → NonNegative db.wallets
    → NonNegative db'.wallets
unfolding find_wallet
Posted-NonNegative_credit {id} {delta} {entry} {db} p h n =
    Posted-NonNegative p (omega (int_laws, found_NonNegative id db.wallets p.before p.found n)) n

pub locked_sender :
    (t : Transfer) (db : Db) (w : Wallet)
    → lock_participants t db ≡ ok w
    → find_participant t.sender_wallet_id.id db ≡ some w
unfolding lock_participants
locked_sender t db w h = ground arith

pub participant_wallet :
    (id : Text) (db : Db) (w : Wallet)
    → Distinct (ids db.wallets)
    → find_participant id db ≡ some w
    → find_wallet id db ≡ some w
unfolding find_participant find_wallet
participant_wallet id db w d h =
    find_refined (λ (w : Wallet). w.id) id
      (λ v. v.is_active && owner_has_status v (to_prisma_status AccountStatus.active) db) db.wallets
      w d h

same_some : {a b : Wallet} {o : Option Wallet} → o ≡ some a → o ≡ some b → a ≡ b
same_some h k = cc

-- The sender is debited no more than its balance.
debit_covered :
    {fresh : Fresh} {t : Transfer} {db : Db} {r : TransactionResultResponse} {db' : Db}
    (e : Executed fresh t db r db')
    → Distinct (ids db.wallets)
    → pos 0
      ≤ℤ e.moved.debited.before.balance +ℤ (pos 0 -ℤ t.total_required_amount.amount_minor_units)
unfolding find_wallet
debit_covered {t = t} {db = db} e d =
    covers e.locked.balance e.moved.debited.before.balance
      t.total_required_amount.amount_minor_units
      (ap (λ (w : Wallet). w.balance)
        (same_some
          (participant_wallet t.sender_wallet_id.id db e.locked d
            (locked_sender t db e.locked e.participants))
          e.moved.debited.found))
      e.covered
  where
    covers : (a b m : ℤ) → a ≡ b → m ≤ℤ a → pos 0 ≤ℤ b +ℤ (pos 0 -ℤ m)
    covers a b m p h = rw (← p) (omega int_laws)

Moved-ids :
    {row : Transaction} {t : Transfer} {db : Db} {s r : Wallet} {db' : Db}
    → Moved row t db s r db'
    → ids db'.wallets ≡ ids db.wallets
Moved-ids m = elim m.fee [
  | inl (free, e) ↦
      ap (λ (d : Db). ids d.wallets) e ∙ (Posted-ids m.credited ∙ Posted-ids m.debited)
  | inr (w, charged, p) ↦ Posted-ids p ∙ (Posted-ids m.credited ∙ Posted-ids m.debited)
]

Executed-NonNegative :
    {fresh : Fresh} {t : Transfer} {db : Db} {r : TransactionResultResponse} {db' : Db}
    → HasAmounts t
    → Executed fresh t db r db'
    → Distinct (ids db.wallets)
    → NonNegative db.wallets
    → NonNegative db'.wallets
Executed-NonNegative {db' = db'} a e d n = elim e.moved.fee [
  | inl (free, same) ↦ subst (λ (x : Db). NonNegative x.wallets) (sym same) credited
  | inr (w, charged, p) ↦ Posted-NonNegative_credit p a.fee_valid.0 credited
]
  where
    credited : NonNegative e.moved.after_credit.wallets
    credited =
        Posted-NonNegative_credit e.moved.credited a.transfer_valid.0
          (Posted-NonNegative e.moved.debited (debit_covered e d) n)

unused_key :
    (row : Transaction) (ts : List Transaction)
    → any (clashes row) ts ≡ false
    → All (λ k. k ≢ uuid_value row.idempotency_key) (keys ts)
unfolding any
unused_key row [] h = tt
unused_key row (t ∷ ts) h = ground (arith, unused_key row ts)

Executed-IsSound :
    {fresh : Fresh} {t : Transfer} {db : Db} {r : TransactionResultResponse} {db' : Db}
    → HasAmounts t
    → Executed fresh t db r db'
    → IsSound db
    → IsSound db'
Executed-IsSound {fresh} {t} {db} {db' = db'} a e s = record {
  distinct_wallets = subst Distinct (sym (Moved-ids e.moved)) s.distinct_wallets;
  non_negative = Executed-NonNegative a e s.distinct_wallets s.non_negative;
  distinct_keys =
      subst (λ (ts : List Transaction). Distinct (keys ts)) (sym (Moved-transactions e.moved).0)
        (unused_key (transaction_row fresh t) db.transactions e.unused, s.distinct_keys);
}

-- From distinct wallet ids, balances that are not negative and distinct idempotency keys a transfer
-- leads to the same, whether it succeeds or throws.
pub execute_acid_transfer-IsSound :
    (fresh : Fresh) (t : Transfer) (db : Db)
    → HasAmounts t
    → IsSound db
    → IsSound (execute_acid_transfer fresh t db).1
execute_acid_transfer-IsSound fresh t db a s = go (execute_acid_transfer fresh t db).0 refl
  where
    go :
        (r : Result TransactionResultResponse)
        → (execute_acid_transfer fresh t db).0 ≡ r
        → IsSound (execute_acid_transfer fresh t db).1
    go (ok r) h = Executed-IsSound a (execute_ok fresh t db r h) s
    go (err e) h = subst IsSound (sym (execute_acid_transfer_atomic fresh t db e h)) s
